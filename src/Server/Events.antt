-- ===== src/Server/Events.antt =====
-- go/cmd/nazar/handlers.go: what the decision path does with an event, a profile bundle and a novelty
-- result, and the row that it broadcasts.
use payment_infrastructure.Base.{
  String, Bool, true, false, not, ◌||◌, List, [], ◌∷◌, ◌++◌, Option, Map, Run, ok, ◌>>=◌, str_eq,
  is_empty, concat, ◌==◌, if◌then◌else◌,
}
use payment_infrastructure.Base.Int.{ℤ, pos, leb_ℤ, eqb_ℤ}
use payment_infrastructure.Base.Float.{Float64}
use payment_infrastructure.Contract.Action.{Action}
use payment_infrastructure.Contract.Event.{Event, Rail}
use payment_infrastructure.Contract.Finding.{
  Finding, clear, fired, not_evaluated, status_eq, new_finding,
}
use payment_infrastructure.Contract.Profile.{ProfileBundle}
use payment_infrastructure.Contract.Decision.{Decision}
use payment_infrastructure.Contract.Summary.{top_reason, source_from_id}
use payment_infrastructure.Novelty.{NoveltyResult}
use Prim.Native.String.{compare}
use Prim.Native.Nat.{Ordering}
use text.Mathlib.Text.{starts_with}

-- `validateEvent`: the problem, or the empty text.
unfoldable pub validate_event : Event → String
validate_event ev =
    if str_eq ev.end_to_end_id ""
    then "end_to_end_id is required"
    else if str_eq ev.debtor_account "" || str_eq ev.creditor_account ""
    then "debtor_account and creditor_account are required"
    else if leb_ℤ ev.instructed_amount_minor (pos 0)
    then "instructed_amount_minor must be > 0"
    else if str_eq ev.rail ""
    then "rail is required"
    else ""

abbrev or_default : String → String → String
or_default s d = if str_eq s "" then d else s

-- The fields that the server stamps at the trust boundary.
unfoldable pub stamp_event : (now_ms : ℤ) → Event → Event
stamp_event now_ms ev = record ev {
  accepted_at_ms = if eqb_ℤ ev.accepted_at_ms (pos 0) then now_ms else ev.accepted_at_ms;
  currency = or_default ev.currency "INR";
  channel = or_default ev.channel "MOBILE";
  bank_instance = or_default ev.bank_instance "BANK_A";
  schema_version = if ev.schema_version == 0 then 1 else ev.schema_version;
}

abbrev pub named_if : Bool → String → List String
named_if b name = if b then name ∷ [] else []

unfoldable pub degraded_list : {F : Type 0} → ProfileBundle F → List String
degraded_list pb =
    named_if pb.payer.degraded "profile:payer"
    ++ (named_if pb.payee.degraded "profile:payee"
        ++ (named_if pb.device.degraded "profile:device"
            ++ (named_if pb.pair.degraded "profile:pair"
                ++ named_if pb.asn.degraded "profile:asn")))

module _ {F : Type 0} ⦃f : Float64 F⦄ where
  abbrev pub novelty_text : NoveltyResult F → String
  novelty_text nr = concat "conformal p-value " (
      concat (f.fixed 4 nr.p_value) (
        concat " (kNN distance "
          (concat (f.fixed 3 nr.knn_distance) ") — shadow only, never influences the decision")))

  unfoldable pub novelty_finding : NoveltyResult F → Run (Finding F)
  novelty_finding nr =
      if not nr.evaluated
      then new_finding "novelty" not_evaluated nr.reason
      else (let unusual = f.lt nr.p_value (f.decimal 5 2) in
          do
            finding ←
                new_finding "novelty" (if unusual then fired else clear) (
                  if unusual then concat "unusual pattern: " (novelty_text nr) else novelty_text nr)
            ok (record finding { score = nr.p_value }))

  unfoldable pub novelty_from_findings : List (Finding F) → F × Bool
  novelty_from_findings [] = (f.of_int (pos 0), false)
  novelty_from_findings (x ∷ xs) =
      if str_eq x.signal_id "novelty"
      then (x.score, not (status_eq x.status not_evaluated))
      else novelty_from_findings xs

-- The map of `liveMonitorRow`.
pub record LiveRow (F : Type 0) : Type 0 where
  pub end_to_end_id : String
  pub decided_at_ms : ℤ
  pub debtor_account : String
  pub creditor_account : String
  pub amount_minor : ℤ
  pub rail : Rail
  pub action : Action
  pub total_ms : F
  pub degraded : List String
  pub novelty_p_value : F
  pub novelty_evaluated : Bool
  pub p_prevalence_adj : Option F
  pub top_reason : String
  pub source : String

module _ {F : Type 0} ⦃f : Float64 F⦄ where
  unfoldable pub live_monitor_row : Event → Decision F → LiveRow F
  unfolding novelty_from_findings
  live_monitor_row ev d =
      let (p_value, evaluated) = novelty_from_findings d.findings in
      record {
        end_to_end_id = ev.end_to_end_id;
        decided_at_ms = d.decided_at_ms;
        debtor_account = ev.debtor_account;
        creditor_account = ev.creditor_account;
        amount_minor = ev.instructed_amount_minor;
        rail = ev.rail;
        action = d.action;
        total_ms = d.total_ms;
        degraded = d.degraded;
        novelty_p_value = p_value;
        novelty_evaluated = evaluated;
        p_prevalence_adj = d.p_prevalence_adj;
        top_reason = top_reason d.findings d.action;
        source = source_from_id ev.end_to_end_id;
      }

-- `strings.Contains`
unfoldable pub contains : String → String → Bool
contains String.[] part = is_empty part
contains (String.◌∷◌ c s) part =
    let rest = contains s part in if starts_with (String.◌∷◌ c s) part then true else rest

unfoldable pub is_setup_traffic : String → Bool
unfolding contains
is_setup_traffic end_to_end_id = contains end_to_end_id "-seed"

abbrev text_less : String → String → Bool
text_less s t = elim (compare s t) [ Ordering.lt ↦ true | _ ↦ false ]

-- One round of the sort: a key moves before those of the sorted front that it is less than.
unfoldable pub place_key : String → List String → List String
place_key k [] = k ∷ []
place_key k (x ∷ xs) = if text_less k x then k ∷ x ∷ xs else x ∷ place_key k xs

sort_keys : List String → List String → List String
unfolding place_key
sort_keys [] front = front
sort_keys (k ∷ ks) front = sort_keys ks (place_key k front)

keys_of : {V : Type 0} → Map V → List String
keys_of [] = []
keys_of (entry ∷ m) = entry.0 ∷ keys_of m

unfoldable pub sorted_keys : {V : Type 0} → Map V → List String
unfolding sort_keys keys_of
sorted_keys m = sort_keys (keys_of m) []
