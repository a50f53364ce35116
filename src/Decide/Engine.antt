-- ===== src/Decide/Engine.antt =====
-- go/internal/decide/engine.go: the six-stage sequence of Decide. The scorer, the calibrator and the
-- compiled rules are the engine's fields, as in the code. A nil pointer stands only in `live`.
pub mod Control
use payment_infrastructure.Base.{
  ℕ, zero, suc, ◌+◌, ◌*◌, ◌%◌, ◌^◌, String, Bool, true, false, not, ◌&&◌, ◌||◌, List, [], ◌∷◌, ◌++◌,
  Option, none, some, Map, lookup_or, Run, ok, panic, ◌>>=◌, ◌==◌, str_eq, concat, is_some,
  if◌then◌else◌,
}
use payment_infrastructure.Base.Int.{ℤ, pos, ltb_ℤ, leb_ℤ}
use payment_infrastructure.Base.Float.{Float64}
use payment_infrastructure.Contract.Action.{
  Action, allow, block, value_cap, step_up_interstitial, ladder_index,
}
use payment_infrastructure.Contract.Event.{Event, Rail}
use payment_infrastructure.Contract.Finding.{
  Finding, Status, clear, fired, not_evaluated, new_finding,
}
use payment_infrastructure.Contract.Feature.{FeatureVector, set_feature}
use payment_infrastructure.Contract.Profile.{ProfileBundle, GraphResult}
use payment_infrastructure.Contract.Decision.{Decision, live}
use payment_infrastructure.Rules
use payment_infrastructure.Rules.{RuleEngine, Result, Class, regulatory, RuleAction, caps}
use payment_infrastructure.Decide.Policy.{Policy, PolicyRef, Pointer, load, store}
use payment_infrastructure.Decide.Blocklist.{Blocklist, Entry, hit}
use payment_infrastructure.Decide.Prevalence.{PrevalenceCorrector, adjust}
use payment_infrastructure.Decide.Cost.{minimise_cost}
use payment_infrastructure.Decide.Ladder.{Advisory, Attached, apply_policy_rails, attach_advisories}
use Control.{control_assignment}

-- What a scorer returns: a raw score with its contributions, or an error's text.
pub data Scored (F : Type 0) : Type 0 where
  scored : F → Map F → Scored F
  failed : String → Scored F

pub record Engine (F : Type 0) : Type 0 where
  pub policy : Pointer (Policy F)
  pub rules : RuleEngine F
  pub score : FeatureVector F → Scored F
  pub calibrate : F → F
  pub prevalence : PrevalenceCorrector F
  pub blocklist : Blocklist
  pub live_ref : Option (PolicyRef F)
  pub model_bundle_version : String
  pub policy_version : String
  pub rules_version : String
  pub signal_registry_version : String

pub record Input (F : Type 0) : Type 0 where
  pub event : Event
  pub profile : ProfileBundle F
  pub features : FeatureVector F
  pub degraded : List String
  pub graph : Option (GraphResult F)
  pub advisories : List (Advisory F)

-- `snapshot`: the engine with the policy that the slot holds.
unfoldable pub snapshot : {F : Type 0} → Engine F → Engine F
snapshot e = elim (load e.live_ref) [
  | none ↦ e
  | some p ↦
      if p.address == e.policy.address
      then e
      else record e { policy = p; policy_version = p.target.version }
]

-- Another goroutine's `Store` into the slot, if one lands while the decision is made.
unfoldable pub swap : {F : Type 0} → Option (Pointer (Policy F)) → Engine F → Engine F
swap none e = e
swap (some p) e = record e { live_ref = store p e.live_ref }

abbrev pub rule_explanation : Result → String
rule_explanation r = if r.fired then r.explanation else concat "did not fire: " r.explanation

abbrev is_regulatory : Class → Bool
is_regulatory regulatory = true
is_regulatory _ = false

abbrev is_caps : RuleAction → Bool
is_caps caps = true
is_caps _ = false

-- A fired regulatory rule whose action is CAP.
unfoldable pub is_cap : Result → Bool
is_cap r = is_regulatory r.class && r.fired && is_caps r.action

unfoldable pub first_cap : List Result → Option Result
first_cap [] = none
first_cap (r ∷ rs) = if is_cap r then some r else first_cap rs

module _ {F : Type 0} ⦃f : Float64 F⦄ where
  -- The loop over the rule results: a finding and a feature for each.
  unfoldable pub rule_findings :
      List Result → List (Finding F) × FeatureVector F → Run (List (Finding F) × FeatureVector F)
  rule_findings [] acc = ok acc
  rule_findings (r ∷ rs) (findings, fv) = do
    finding ←
        new_finding (concat "rule:" r.rule_id) (if r.fired then fired else clear)
          (rule_explanation r)
    rule_findings rs (
      findings ++ finding ∷ [],
      set_feature (concat "rf_" r.rule_id) (f.of_int (pos (if r.fired then 1 else 0))) fv,
    )

  unfoldable pub trusted_pair : Policy F → ProfileBundle F → Event → Bool → List String → Bool
  trusted_pair policy pb ev ring_flagged (d ∷ degraded) = false
  trusted_pair policy pb ev ring_flagged [] =
      if not pb.pair.present || ltb_ℤ pb.pair.txn_count_90d policy.trusted_pair.min_txn_count_90d
      then false
      else if str_eq pb.pair.last_disposition "FRAUD"
      then false
      else if leb_ℤ pb.pair.amt_p95_minor (pos 0)
          || f.lt
              (f.times (f.of_int pb.pair.amt_p95_minor) policy.trusted_pair.amount_headroom_ratio)
              (f.of_int ev.instructed_amount_minor)
      then false
      else if pb.device.present
          && not (str_eq ev.device_id "")
          && not (lookup_or false ev.device_id pb.payer.known_devices)
      then false
      else if ring_flagged
      then false
      else if not (str_eq pb.pair.last_creditor_account "")
          && not (str_eq pb.pair.last_creditor_account ev.creditor_account)
      then false
      else true

  unfoldable pub is_ring_flagged : Option (GraphResult F) → Bool
  is_ring_flagged none = false
  is_ring_flagged (some g) = g.evaluated && f.le (f.decimal 5 1) g.ring_score

  unfoldable pub build_decision :
      Engine F
      → Event
      → FeatureVector F
      → (action pre_advisory : Action) → (rail_fired : String) → List String
      → (exp_loss exp_cost : Option ℤ) → List String
      → (is_control : Bool) → F
      → List (Finding F)
      → Decision F
  build_decision e ev fv action pre_advisory rail_fired codes exp_loss exp_cost degraded is_control
        propensity findings =
      record {
        end_to_end_id = ev.end_to_end_id;
        decision_seq = pos 0;
        kind = live;
        decided_at_ms = pos 0;
        accepted_at_ms = ev.accepted_at_ms;
        action = action;
        pre_advisory_action = pre_advisory;
        rail_fired = rail_fired;
        reason_codes = codes;
        p_model = none;
        p_prevalence_adj = none;
        expected_loss_minor = exp_loss;
        expected_cost_minor = exp_cost;
        features = fv;
        findings = findings;
        contributions = [];
        model_bundle_version = e.model_bundle_version;
        policy_version = e.policy_version;
        rules_version = e.rules_version;
        signal_registry_version = e.signal_registry_version;
        is_control = is_control;
        action_propensity = propensity;
        degraded = degraded;
        total_ms = f.of_int (pos 0);
        queue_delay_ms = f.of_int (pos 0);
        service_ms = f.of_int (pos 0);
        decision_shard = pos 0;
        chain_seq = pos 0;
        prev_hash = [];
        hash = [];
        checkpoint_id = none;
      }
