-- ===== src/Rules.antt =====
-- go/internal/rules/engine.go: evaluation of the compiled rule bundle. A compiled CEL program is a
-- parameter: a function from the activation to what its evaluation returns.
pub mod Laws
use payment_infrastructure.Base.{
  ℕ, String, Bool, true, false, ◌&&◌, List, [], ◌∷◌, Option, none, some, Map, lookup, str_eq,
  if◌then◌else◌,
}
use payment_infrastructure.Base.Int.{ℤ, pos, ltb_ℤ, sub64}
use payment_infrastructure.Base.Float.{Float64}
use payment_infrastructure.Contract.Event.{Event, Rail}
use payment_infrastructure.Contract.Finding.{Status, clear, status_eq}
use payment_infrastructure.Contract.Feature.{FeatureVector}
use payment_infrastructure.Contract.Profile.{ProfileBundle}

pub data Class : Type 0 where
  regulatory policy : Class
  other_class : String → Class

pub data RuleAction : Type 0 where
  caps steps_up_interstitial steps_up none_action : RuleAction
  other_action : String → RuleAction

-- The activation's maps, written as a record of their entries.
pub record Activation (F : Type 0) : Type 0 where
  pub event_amount_minor : ℤ
  pub event_rail : String
  pub event_initiation : String
  pub payer_txn_count_1h : ℤ
  pub payer_baseline_txn_1h_p999 : F
  pub payee_is_new_to_payer : Bool
  pub payee_fanin_24h : ℤ
  pub payee_fanin_burstiness : F
  pub pair_first_added_within_hours : F
  pub pair_txn_count_90d : ℤ
  pub device_is_new_to_payer : Bool
  pub geo_jump_kmh : F

-- What a program's `Eval` returns: an error, a value that is no bool, or a bool.
pub data CelOutcome : Type 0 where
  eval_error not_bool : CelOutcome
  bool_value : Bool → CelOutcome

pub record RuleDef : Type 0 where
  pub id : String
  pub class : Class
  pub authority : String
  pub verified_on : String
  pub predicate : String
  pub action : RuleAction
  pub cap_minor : ℤ
  pub rails : List String
  pub explanation : String

pub record CompiledRule (F : Type 0) : Type 0 where
  pub def : RuleDef
  pub program : Activation F → CelOutcome

pub record RuleEngine (F : Type 0) : Type 0 where
  pub version : String
  pub rules : List (CompiledRule F)

pub record Result : Type 0 where
  pub rule_id : String
  pub class : Class
  pub fired : Bool
  pub action : RuleAction
  pub cap_minor : ℤ
  pub explanation : String
  pub authority : String
  pub verified_on : String

any_rail : List String → Rail → Bool
any_rail [] rail = false
any_rail (r ∷ rs) rail = if str_eq r rail then true else any_rail rs rail

-- No rails means that the rule applies everywhere.
unfoldable pub rail_applies : List String → Rail → Bool
unfolding any_rail
rail_applies [] rail = true
rail_applies (r ∷ rs) rail = any_rail (r ∷ rs) rail

-- A program that fails, or returns no bool, does not fire.
abbrev pub fires : CelOutcome → Bool
fires (bool_value b) = b
fires _ = false

module _ {F : Type 0} ⦃f : Float64 F⦄ where
  feature_bool : FeatureVector F → String → Bool
  feature_bool fv id = elim (lookup id fv.statuses) [
    | none ↦ false
    | some s ↦
        if status_eq s clear
        then elim (lookup id fv.values) [
          | none ↦ f.eq (f.of_int (pos 0)) (f.of_int (pos 1))
          | some v ↦ f.eq v (f.of_int (pos 1))
        ]
        else false
  ]

  -- The value of a feature that is there and CLEAR, else 0.
  clear_or_zero : FeatureVector F → String → F
  clear_or_zero fv id = elim (lookup id fv.values) [
    | none ↦ f.of_int (pos 0)
    | some v ↦ elim (lookup id fv.statuses) [
      | none ↦ f.of_int (pos 0)
      | some s ↦ if status_eq s clear then v else f.of_int (pos 0)
    ]
  ]

  unfoldable pub build_activation : Event → ProfileBundle F → FeatureVector F → Activation F
  unfolding feature_bool clear_or_zero
  build_activation ev pb fv = record {
    event_amount_minor = ev.instructed_amount_minor;
    event_rail = ev.rail;
    event_initiation = ev.initiation;
    payer_txn_count_1h = pb.payer.txn_velocity_1h;
    payer_baseline_txn_1h_p999 = pb.payer.txn_1h_p999;
    payee_is_new_to_payer = feature_bool fv "payee_is_new_to_payer";
    payee_fanin_24h = pb.payee.fanin_24h;
    payee_fanin_burstiness = clear_or_zero fv "payee_fanin_burstiness";
    pair_first_added_within_hours =
        if pb.pair.present && ltb_ℤ (pos 0) pb.pair.first_added_at_ms
        then f.over (f.of_int (sub64 ev.accepted_at_ms pb.pair.first_added_at_ms))
            (f.of_int (pos 3_600_000))
        else f.of_int (pos 0);
    pair_txn_count_90d = pb.pair.txn_count_90d;
    device_is_new_to_payer = feature_bool fv "device_is_new_to_payer";
    geo_jump_kmh = clear_or_zero fv "geo_jump_kmh";
  }

  unfoldable pub evaluate_rule : Activation F → Rail → CompiledRule F → Result
  evaluate_rule activation rail cr = record {
    rule_id = cr.def.id;
    class = cr.def.class;
    fired = if rail_applies cr.def.rails rail then fires (cr.program activation) else false;
    action = cr.def.action;
    cap_minor = cr.def.cap_minor;
    explanation = cr.def.explanation;
    authority = cr.def.authority;
    verified_on = cr.def.verified_on;
  }

  unfoldable pub evaluate_all : Activation F → Rail → List (CompiledRule F) → List Result
  evaluate_all activation rail [] = []
  evaluate_all activation rail (cr ∷ rules) =
      evaluate_rule activation rail cr ∷ evaluate_all activation rail rules

  -- `Evaluate`: one result for each rule of the bundle.
  unfoldable pub evaluate : RuleEngine F → Event → ProfileBundle F → FeatureVector F → List Result
  evaluate e ev pb fv = evaluate_all (build_activation ev pb fv) ev.rail e.rules
