-- ===== src/Tests/Profile.antt =====
-- The theorems on go/internal/profile, and on the decision path while Redis does not answer.
use payment_infrastructure.Base.{
  ℕ, zero, suc, ◌+◌, ◌==◌, ◌≡◌, ◌≢◌, refl, ap, ◌∙◌, String, true, false, List, [], ◌∷◌, Option, map,
  str_eq, eq_iff, eq_refl, Bool-cases, inl, inr, none, some, ok, lookup, get_elem?, arith,
  if◌then◌else◌,
}
use Prim.Native.Char.{code}
use payment_infrastructure.Base.Int.{ℤ, pos, ◌≤ℤ◌, add64, wrap64, ◌+ℤ◌}
use payment_infrastructure.Audit.{Bytes}
use payment_infrastructure.Contract.Event.{Event}
use payment_infrastructure.Profile.Helpers.{
  Texts, decode_hour_hist, encode_hour_hist, shares_of, epoch_str, parse_int64, minute_ms, hour_ms,
  day_ms,
}
use payment_infrastructure.Profile.Helpers.Histogram.{counts_from, decode-encode_hour_hist}
use payment_infrastructure.Profile.Keys.{payer_amt_minute, payer_amt_hour, payer_amt_day}
use payment_infrastructure.Profile.Updates.{apply_commands, hincr_by}
use payment_infrastructure.Profile.Updates.Sums.{
  IsIncremented, Grows, with_payment, load_payer-apply_commands,
}
use payment_infrastructure.Features.Clock.{quot}
use payment_infrastructure.Contract.Profile.{PayerBundle}
use payment_infrastructure.Profile.Loads.{Redis, load_bundle, load_payer}
use payment_infrastructure.Profile.Loads.Degraded.{failing}
use payment_infrastructure.Contract.Action.{step_up_interstitial, ladder_index}
use payment_infrastructure.Contract.Decision.{Decision}
use payment_infrastructure.Contract.Feature.{FeatureVector}
use payment_infrastructure.Contract.Finding.{Finding}
use payment_infrastructure.Features.{compute}
use payment_infrastructure.Features.Honest.{IsHonest}
use payment_infrastructure.Rules.{
  evaluate, evaluate_all, evaluate_rule, rail_applies, build_activation,
}
use payment_infrastructure.Decide.Policy.{load}
use payment_infrastructure.Decide.Blocklist.{hit}
use payment_infrastructure.Decide.Engine.{Input, snapshot, first_cap, is_cap}
use payment_infrastructure.Decide.Engine.Control.{control_assignment}
use payment_infrastructure.Decide.Sequence.{decide}
use payment_infrastructure.Decide.Sequence.Actions.{IsOverCap}
use payment_infrastructure.Decide.Sequence.Verdict.{Verdict, hit_of, results_of, control_of}
use payment_infrastructure.Server.{Surroundings, input_of, decided, load_profile_with_deadline}
use payment_infrastructure.Server.Outage.{load_bundle-HasHours, outage_guard}
use payment_infrastructure.Server.Totality.{HasHours, decided-Verdict, with_novelty}
use payment_infrastructure.Tests.Features.{rough}
use payment_infrastructure.Tests.Server.{server, surroundings}
use payment_infrastructure.Tests.Sample.{millionths, event, engine}

-- A text code of bytes: each number in unary, with an end.
abbrev unary : ℕ → String → String
unary zero s = String.◌∷◌ "b" s
unary (suc n) s = String.◌∷◌ "a" (unary n s)

abbrev encoded : Bytes → String
encoded [] = ""
encoded (n ∷ bs) = unary n (encoded bs)

abbrev decoded : String → ℕ → Bytes
decoded String.[] k = []
decoded (String.◌∷◌ c s) k =
    let more = decoded s (suc k) in
    let rest = decoded s 0 in if code c == 97 then more else k ∷ rest

decoded-unary : (n k : ℕ) (s : String) → decoded (unary n s) k ≡ (n + k) ∷ decoded s 0
decoded-unary zero k s = ap (λ j. j ∷ decoded s 0) (omega arith)
decoded-unary (suc n) k s = decoded-unary n (suc k) s ∙ ap (λ j. j ∷ decoded s 0) (omega arith)

decoded-encoded : (bs : Bytes) → decoded (encoded bs) 0 ≡ bs
decoded-encoded [] = refl
decoded-encoded (n ∷ bs) =
    decoded-unary n 0 (encoded bs)
    ∙ ap (λ j. j ∷ decoded (encoded bs) 0) (omega arith)
    ∙ ap (λ rest. n ∷ rest) (decoded-encoded bs)

abbrev texts : Texts
texts = record {
  trim_space = λ s. s;
  parse_int = λ s. some (pos 3);
  atoi = λ s. some (pos 3);
  parse_float_int = λ s. none;
  base64_encode = encoded;
  base64_decode = λ s. some (decoded s 0);
}

decode-encode_hour_hist_example :
    decode_hour_hist {F = ℤ} texts (encode_hour_hist texts (("7", "3") ∷ []))
    ≡ shares_of (counts_from texts (("7", "3") ∷ []) 0 24)
decode-encode_hour_hist_example =
    decode-encode_hour_hist ℤ texts (("7", "3") ∷ []) (λ bs. ap some (decoded-encoded bs))

abbrev paid : Event
paid = record (event "shop" (pos 50_000)) { accepted_at_ms = pos 1_700_000_000_000 }

-- Redis does not answer for the payer.
abbrev down : Redis
down = record {
  zcount = λ key min max. none;
  zrange_by_score = λ key min max. none;
  hgetall = λ key. none;
  hmget = λ key fields. none;
  scard = λ key. none;
  smembers = λ key. none;
  get = λ key. none;
  payer_fails = true;
  payee_fails = false;
  device_fails = false;
  pair_fails = false;
  asn_fails = false;
}

-- A text code of numbers with the one text that the payer's hashes hold.
abbrev amounts : Texts
amounts = record texts { parse_int = λ s. if str_eq s "50000" then some (pos 50_000) else none }

abbrev only : (field : String) → String → Option String
only field k = if str_eq k field then some "50000" else none

only-IsIncremented :
    (field : String) → IsIncremented amounts field (pos 50_000) (λ k. none) (only field)
unfolding parse_int64 add64 wrap64 ◌+ℤ◌
only-IsIncremented field = record {
  elsewhere = λ k apart. elim (Bool-cases (str_eq k field)) [
    | inl same ↦ absurd (apart (ground (arith, eq_iff k field)))
    | inr other ↦ rw other refl
  ];
  text = "50000";
  holds = rw (eq_refl field) refl;
  counted = refl;
}

-- Redis with empty hashes, and after the payment.
abbrev unpaid : Redis
unpaid = record down { hmget = λ key fields. some (map (λ k. none) fields); payer_fails = false }

abbrev after_payment : Redis
after_payment = record unpaid {
  hmget = λ key fields. some (
      map
        (only (
          if str_eq key (payer_amt_minute "payer")
          then epoch_str minute_ms (pos 1_700_000_000_000)
          else if str_eq key (payer_amt_hour "payer")
          then epoch_str hour_ms (pos 1_700_000_000_000)
          else epoch_str day_ms (pos 1_700_000_000_000)))
        fields);
}

grows :
    (key field : String)
    → ((fields : List String) → after_payment.hmget key fields ≡ some (map (only field) fields))
    → Grows amounts unpaid after_payment key field (pos 50_000)
grows key field reads = record {
  before = λ k. none;
  after = only field;
  reads_before = λ fields. refl;
  reads_after = reads;
  is = only-IsIncremented field;
}

load_payer-apply_commands_example :
    let p : PayerBundle ℤ = load_payer unpaid amounts "payer" (pos 1_700_000_600_000) in
    let p' : PayerBundle ℤ = load_payer after_payment amounts "payer" (pos 1_700_000_600_000) in
    let raised = with_payment amounts 1_700_000_000_000 1_700_000_600_000 (pos 50_000) in
    let minute = epoch_str minute_ms (pos 1_700_000_000_000) in
    let hour = epoch_str hour_ms (pos 1_700_000_000_000) in
    let day = epoch_str day_ms (pos 1_700_000_000_000) in
    (get_elem? (apply_commands paid) 3
      ≡ some (hincr_by (payer_amt_minute "payer") minute (pos 50_000)))
    × (get_elem? (apply_commands paid) 4
        ≡ some (hincr_by (payer_amt_hour "payer") hour (pos 50_000)))
    × (get_elem? (apply_commands paid) 5 ≡ some (hincr_by (payer_amt_day "payer") day (pos 50_000)))
    × (p'.amt_sum_1h_minor ≡ raised minute_ms 60 p.amt_sum_1h_minor)
    × (p'.amt_sum_24h_minor ≡ raised hour_ms 24 p.amt_sum_24h_minor)
    × (sum : ℤ) × (p.amt_mean_30d_daily_minor ≡ quot sum 30)
    × (p'.amt_mean_30d_daily_minor ≡ quot (raised day_ms 30 sum) 30)
unfolding payer_amt_minute payer_amt_hour payer_amt_day
load_payer-apply_commands_example =
    load_payer-apply_commands ℤ amounts unpaid after_payment paid 1_700_000_000_000
      1_700_000_600_000 refl (omega arith) (omega arith) (omega arith) refl refl
      (grows _ _ (λ fields. refl)) (grows _ _ (λ fields. refl)) (grows _ _ (λ fields. refl))

abbrev outage : Surroundings ℤ
outage = record surroundings { profile = some (load_bundle down texts (pos 1) paid) }

outage-HasHours : HasHours outage
outage-HasHours = load_bundle-HasHours down texts (pos 1) outage paid refl

abbrev outcome :
    let pb = load_profile_with_deadline outage.profile in
    (fv : FeatureVector ℤ) × (d : Decision ℤ) × (x : Finding ℤ) × (compute paid pb
        paid.accepted_at_ms
      ≡ ok fv)
    × IsHonest fv
    × (decide engine none (input_of outage paid pb fv server) ≡ ok (d, d.findings))
    × Verdict (snapshot engine) none (input_of outage paid pb fv server) d
    × (decided outage paid server ≡ ok (with_novelty outage d x))
    × (x.signal_id ≡ "novelty")
outcome = decided-Verdict outage paid server (refl, (refl, tt)) outage-HasHours

abbrev vector : FeatureVector ℤ
vector = outcome.0

abbrev answered : Decision ℤ
answered = with_novelty outage outcome.1 outcome.2

abbrev given : Input ℤ
given = input_of outage paid (load_profile_with_deadline outage.profile) vector server

named_down : failing down paid ≢ []
unfolding failing
named_down h = cc

not_listed : hit_of (snapshot engine) given ≡ none
unfolding snapshot hit lookup load input_of
not_listed = refl

not_capped : first_cap (results_of (snapshot engine) given) ≡ none
unfolding snapshot load input_of first_cap is_cap evaluate evaluate_all evaluate_rule rail_applies
    build_activation
not_capped = refl

not_control : (control_of (snapshot engine) given).0 ≡ false
unfolding snapshot load input_of control_assignment millionths
not_control = refl

over_cap : IsOverCap (snapshot engine).policy.target paid
unfolding snapshot load
over_cap = omega arith

outage_guard_example : ladder_index step_up_interstitial ≤ℤ ladder_index answered.action
outage_guard_example =
    outage_guard down texts (pos 1) outage paid server vector answered refl named_down
      (refl, (refl, tt)) outcome.3 outcome.7 not_listed not_capped not_control over_cap
