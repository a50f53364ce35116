-- ===== src/Contract/Summary.antt =====
-- go/internal/contract/summary.go: the one-line reason and source of a table row.
use text.Mathlib.Text.{starts_with}
use payment_infrastructure.Base.{
  ℕ, String, ◌||◌, List, [], ◌∷◌, none, some, Map, lookup, lookup_or, ltb, is_empty, if◌then◌else◌,
}
use payment_infrastructure.Contract.Action.{Action, allow, allow_monitor, action_eq}
use payment_infrastructure.Contract.Finding.{Finding, fired, status_eq}

abbrev pub reason_rank : Map ℕ
reason_rank =
    ("local_blocklist", 0)
    ∷ ("rule:RAIL-001", 1)
    ∷ ("rule:RAIL-101", 2)
    ∷ ("rule:RAIL-102", 2)
    ∷ ("graph", 3)
    ∷ ("novelty", 4)
    ∷ ("model", 5)
    ∷ ("trusted_pair", 6)
    ∷ []

abbrev pub reason_label : Map String
reason_label =
    ("local_blocklist", "Beneficiary on confirmed-fraud list")
    ∷ ("rule:RAIL-001", "Regulatory cooling period on a new beneficiary")
    ∷ ("rule:RAIL-101", "Payment rate far above this payer's baseline")
    ∷ ("rule:RAIL-102", "First payment to a new beneficiary")
    ∷ ("graph", "Beneficiary sits in a suspected mule network")
    ∷ ("novelty", "Unlike anything seen in recent traffic")
    ∷ ("model", "Learned model scored this elevated")
    ∷ ("trusted_pair", "Established relationship, routine amount")
    ∷ []

-- One round of the loop, over the pair of `best` and `bestRank`.
better_reason : {F : Type 0} → Finding F → String × ℕ → String × ℕ
better_reason finding (best, best_rank) =
    if status_eq finding.status fired
    then elim (lookup finding.signal_id reason_rank) [
      | none ↦ (best, best_rank)
      | some r ↦
          if ltb r best_rank
          then (lookup_or "" finding.signal_id reason_label, r)
          else (best, best_rank)
    ]
    else (best, best_rank)

best_reason : {F : Type 0} → List (Finding F) → String × ℕ → String × ℕ
best_reason [] best = best
best_reason (x ∷ xs) best = best_reason xs (better_reason x best)

unfoldable pub top_reason : {F : Type 0} → List (Finding F) → Action → String
unfolding best_reason better_reason
top_reason findings action =
    let (best, _) = best_reason findings ("", 99) in
    if is_empty best
    then if action_eq action allow || action_eq action allow_monitor
      then "Nothing unusual"
      else "Cost of allowing exceeded cost of challenging"
    else best

unfoldable pub source_from_id : String → String
source_from_id e2e_id =
    if starts_with e2e_id "sim-atk-"
    then "attack"
    else if starts_with e2e_id "sim-"
    then "ambient"
    else if starts_with e2e_id "judge-"
    then "judge"
    else if starts_with e2e_id "demo-"
    then "scenario"
    else "api"
