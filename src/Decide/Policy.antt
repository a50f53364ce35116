-- ===== src/Decide/Policy.antt =====
-- go/internal/decide/policy.go and live_policy.go: the policy bundle, and the slot that swaps it.
use payment_infrastructure.Base.{ℕ, String, List, Option, none, some, Map}
use payment_infrastructure.Base.Int.{ℤ}
use payment_infrastructure.Contract.Action.{Action, action_of}

pub record Economics (F : Type 0) : Type 0 where
  pub loss_given_fraud : Map F
  pub friction_cost_minor : Map ℤ
  pub abandon_prob : Map F
  pub stop_prob : Map F
  pub margin_minor : ℤ

pub record Ladder (F : Type 0) : Type 0 where
  pub rungs : List String
  pub advisory_max_rung : String
  pub advisory_max_steps : ℤ
  pub min_reporter_reputation : F
  pub max_advisory_age_hours : F
  pub min_advisory_confidence : F

pub record TrustedPair (F : Type 0) : Type 0 where
  pub min_txn_count_90d : ℤ
  pub amount_headroom_ratio : F
  pub sample_rate : F

pub record Degradation : Type 0 where
  pub value_cap_minor : ℤ

pub record ControlGroup (F : Type 0) : Type 0 where
  pub fraction : F
  pub exempt : List String

pub record Policy (F : Type 0) : Type 0 where
  pub version : String
  pub effective_from : String
  pub approved_by : List String
  pub economics : Economics F
  pub ladder : Ladder F
  pub trusted_pair : TrustedPair F
  pub degradation : Degradation
  pub control_group : ControlGroup F

-- A pointer to a bundle: Go compares the addresses, and reads the target.
pub record Pointer {ℓ} (A : Type ℓ) : Type ℓ where
  pub address : ℕ
  pub target : A

-- `PolicyRef`: one atomic pointer, which may be nil.
pub record PolicyRef (F : Type 0) : Type 0 where
  pub slot : Option (Pointer (Policy F))

module _ {F : Type 0} where
  unfoldable pub advisory_max_rung_action : Policy F → Action
  advisory_max_rung_action p = action_of p.ladder.advisory_max_rung

  abbrev pub new_policy_ref : Pointer (Policy F) → PolicyRef F
  new_policy_ref p = record { slot = some p }

  -- `Load`, on a reference that may be nil.
  unfoldable pub load : Option (PolicyRef F) → Option (Pointer (Policy F))
  load none = none
  load (some r) = r.slot

  -- `Store`: a nil reference stays as it is.
  unfoldable pub store : Pointer (Policy F) → Option (PolicyRef F) → Option (PolicyRef F)
  store p none = none
  store p (some r) = some (record { slot = some p })
