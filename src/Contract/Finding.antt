-- ===== src/Contract/Finding.antt =====
-- go/internal/contract/finding.go and status.go: findings and the four-state status.
use payment_infrastructure.Base.{
  String, ◌≡◌, Bool, true, false, is_empty, Run, ok, panic, ◌>>=◌, if◌then◌else◌,
}
use payment_infrastructure.Base.Int.{pos}
use payment_infrastructure.Base.Float.{Float64}

pub data Status : Type 0 where
  clear fired not_applicable not_evaluated : Status

abbrev pub status_eq : Status → Status → Bool
status_eq clear clear = true
status_eq fired fired = true
status_eq not_applicable not_applicable = true
status_eq not_evaluated not_evaluated = true
status_eq _ _ = false

pub record Finding (F : Type 0) : Type 0 where
  pub signal_id : String
  pub status : Status
  pub score : F
  pub explanation : String
  pub provenance : String
  pub latency_ms : F
  pub version : String
  pub reason_code : String

module _ {F : Type 0} ⦃f : Float64 F⦄ where
  unfoldable pub finding_of : String → Status → String → Finding F
  finding_of signal_id status explanation = record {
    signal_id = signal_id;
    status = status;
    score = f.of_int (pos 0);
    explanation = explanation;
    provenance = "";
    latency_ms = f.of_int (pos 0);
    version = "";
    reason_code = "";
  }

  -- The only constructor: it panics on an empty explanation.
  unfoldable pub new_finding : String → Status → String → Run (Finding F)
  new_finding signal_id status explanation =
      if is_empty explanation then panic else ok (finding_of signal_id status explanation)

  pub new_finding-ok :
      (id : String) (s : Status) (text : String)
      → is_empty text ≡ false
      → new_finding id s text ≡ ok (finding_of id s text)
  unfolding new_finding
  new_finding-ok id s text h = rw h

  pub new_finding->>= :
      {B : Type 0} (id : String) (s : Status) (text : String) (k : Finding F → Run B)
      → is_empty text ≡ false
      → (new_finding id s text >>= k) ≡ k (finding_of id s text)
  unfolding new_finding
  new_finding->>= id s text k h = rw h
