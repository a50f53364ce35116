-- ===== src/Contract/Decision.antt =====
-- go/internal/contract/decision.go: the decision record.
use payment_infrastructure.Base.{ℕ, String, Bool, List, Option, Map}
use payment_infrastructure.Base.Int.{ℤ}
use payment_infrastructure.Contract.Action.{Action}
use payment_infrastructure.Contract.Finding.{Finding}
use payment_infrastructure.Contract.Feature.{FeatureVector}

pub data DecisionKind : Type 0 where
  live shadow replay resolution control : DecisionKind

pub record Decision (F : Type 0) : Type 0 where
  pub end_to_end_id : String
  pub decision_seq : ℤ
  pub kind : DecisionKind
  pub decided_at_ms : ℤ
  pub accepted_at_ms : ℤ
  pub action : Action
  pub pre_advisory_action : Action
  pub rail_fired : String
  pub reason_codes : List String
  pub p_model : Option F
  pub p_prevalence_adj : Option F
  pub expected_loss_minor : Option ℤ
  pub expected_cost_minor : Option ℤ
  pub features : FeatureVector F
  pub findings : List (Finding F)
  pub contributions : Map F
  pub model_bundle_version : String
  pub policy_version : String
  pub rules_version : String
  pub signal_registry_version : String
  pub is_control : Bool
  pub action_propensity : F
  pub degraded : List String
  pub total_ms : F
  pub queue_delay_ms : F
  pub service_ms : F
  pub decision_shard : ℤ
  pub chain_seq : ℤ
  pub prev_hash : List ℕ
  pub hash : List ℕ
  pub checkpoint_id : Option ℤ
