-- ===== src/Decide/Ladder.antt =====
-- go/internal/decide/engine.go: the steps that raise an action along the ladder.
pub mod Laws
pub mod Advisories
use payment_infrastructure.Base.{
  ℕ, String, Bool, true, false, not, ◌&&◌, ◌||◌, List, [], ◌∷◌, ◌++◌, Option, none, some, Run, ok,
  panic, ◌>>=◌, get_elem?, concat, if◌then◌else◌,
}
use payment_infrastructure.Base.Int.{ℤ, pos, negsuc, ltb_ℤ, leb_ℤ, add64}
use payment_infrastructure.Base.Float.{Float64}
use payment_infrastructure.Contract.Action.{
  Action, block, value_cap, step_up, step_up_interstitial, action_eq, ladder, ladder_index,
}
use payment_infrastructure.Contract.Finding.{Finding, Status, fired, not_applicable, new_finding}
use payment_infrastructure.Rules.{
  Result, Class, policy, RuleAction, steps_up, steps_up_interstitial,
}
use payment_infrastructure.Decide.Policy.{Policy, advisory_max_rung_action}

-- `RaiseTo`
unfoldable pub raise_to : Action → Action → Action
raise_to action floor = if ltb_ℤ (ladder_index action) (ladder_index floor) then floor else action

abbrev is_policy : Class → Bool
is_policy policy = true
is_policy _ = false

-- The rung of a rule's action; `none` is the `default: continue`.
unfoldable pub rung_of : RuleAction → Option Action
rung_of steps_up = some step_up
rung_of steps_up_interstitial = some step_up_interstitial
rung_of _ = none

-- One round of the loop, over the action and the reason codes.
unfoldable pub apply_rail : Result → Action × List String → Action × List String
unfolding rung_of
apply_rail r (action, codes) =
    if not (is_policy r.class) || not r.fired then (action, codes) else elim (rung_of r.action) [
      | none ↦ (action, codes)
      | some rung ↦
          if ltb_ℤ (ladder_index action) (ladder_index rung)
          then (rung, codes ++ concat "POLICY_RAIL:" r.rule_id ∷ [])
          else (action, codes)
    ]

unfoldable pub apply_policy_rails : List Result → Action × List String → Action × List String
apply_policy_rails [] s = s
apply_policy_rails (r ∷ rs) s = apply_policy_rails rs (apply_rail r s)

pub record Advisory (F : Type 0) : Type 0 where
  pub signal_id : String
  pub signature_valid : Bool
  pub reporter_reputation : F
  pub age_hours : F
  pub confidence : F
  pub steps : ℤ
  pub explanation : String

abbrev status_of : Bool → Status
status_of true = fired
status_of false = not_applicable

-- `if a.Steps > maxSteps { maxSteps = a.Steps }`
abbrev larger : ℤ → ℤ → ℤ
larger steps max_steps = if ltb_ℤ max_steps steps then steps else max_steps

unfoldable pub most_steps : {F : Type 0} → List (Advisory F) → ℤ → ℤ
most_steps [] max_steps = max_steps
most_steps (a ∷ as') max_steps = most_steps as' (larger a.steps max_steps)

-- `idx`: the raised index, capped.
unfoldable pub escalated_index : Action → ℤ → ℤ → Action → ℤ
escalated_index action wanted limit max_rung =
    let max_steps = if ltb_ℤ limit wanted then limit else wanted in
    let raised = add64 (ladder_index action) max_steps in
    let cap_idx = ladder_index max_rung in if ltb_ℤ cap_idx raised then cap_idx else raised

-- `contract.Ladder[idx]`: a read outside the ladder panics.
unfoldable pub rung_at : ℤ → Run Action
rung_at (negsuc n) = panic
rung_at (pos i) = elim (get_elem? ladder i) [ none ↦ panic | some a ↦ ok a ]

-- The tail of `attachAdvisories`.
unfoldable pub escalate : Action → ℤ → List String → Run (Action × List String)
unfolding rung_at
escalate action idx codes =
    if leb_ℤ idx (ladder_index action)
    then ok (action, codes)
    else do a ← rung_at idx; ok (a, codes ++ "ADVISORY_ESCALATED" ∷ [])

-- The action, with the reason codes and the findings so far.
pub record Attached (F : Type 0) : Type 0 where
  pub action : Action
  pub codes : List String
  pub findings : List (Finding F)

module _ {F : Type 0} ⦃f : Float64 F⦄ where
  unfoldable pub is_admissible : Policy F → Advisory F → Bool
  is_admissible p a =
      a.signature_valid
      && f.le p.ladder.min_reporter_reputation a.reporter_reputation
      && f.le a.age_hours p.ladder.max_advisory_age_hours
      && f.le p.ladder.min_advisory_confidence a.confidence

  -- The loop that judges the advisories: the admissible ones, and a finding for each.
  unfoldable pub judge :
      Policy F
      → List (Advisory F)
      → List (Advisory F) × List (Finding F)
      → Run (List (Advisory F) × List (Finding F))
  judge p [] acc = ok acc
  judge p (a ∷ rest) (admissible, findings) = do
    let good = is_admissible p a
    finding ← new_finding (concat "consortium:" a.signal_id) (status_of good) a.explanation
    judge p rest (if good then admissible ++ a ∷ [] else admissible, findings ++ finding ∷ [])

  attach_admissible :
      Policy F → Action → List (Advisory F) → List String → List (Finding F) → Run (Attached F)
  unfolding escalate escalated_index most_steps
  attach_admissible p action [] codes findings =
      ok (record { action = action; codes = codes; findings = findings })
  attach_admissible p action (a ∷ rest) codes findings = do
    (final, codes') ←
        escalate action
          (escalated_index action (most_steps (a ∷ rest) (pos 0)) p.ladder.advisory_max_steps
            (advisory_max_rung_action p))
          codes
    ok (record { action = final; codes = codes'; findings = findings })

  unfoldable pub attach_advisories :
      Policy F → Action → List (Advisory F) → List String → List (Finding F) → Run (Attached F)
  unfolding attach_admissible judge is_admissible
  attach_advisories p action advisories codes findings =
      if action_eq action block || action_eq action value_cap
      then ok (record { action = action; codes = codes; findings = findings })
      else do
        (admissible, findings') ← judge p advisories ([], findings)
        attach_admissible p action admissible codes findings'
