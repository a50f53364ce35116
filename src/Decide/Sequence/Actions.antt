-- ===== src/Decide/Sequence/Actions.antt =====
-- go/internal/decide/engine.go: which action Decide ends with, and that it always ends.
use payment_infrastructure.Base.{
  String, ◌≡◌, refl, ◌≢◌, ◌⊎◌, inl, inr, List, [], ◌∷◌, ◌++◌, Option, none, some, arith, All, ok,
}
use payment_infrastructure.Base.Int.{◌≤ℤ◌, ◌<ℤ◌}
use payment_infrastructure.Base.Float.{Float64}
use payment_infrastructure.Contract.Action.{
  Action, allow, block, value_cap, step_up_interstitial, ladder_index,
}
use payment_infrastructure.Contract.Event.{Event}
use payment_infrastructure.Contract.Finding.{Finding}
use payment_infrastructure.Contract.Feature.{FeatureVector}
use payment_infrastructure.Contract.Decision.{Decision}
use payment_infrastructure.Rules.{Result}
use payment_infrastructure.Decide.Policy.{Policy, Pointer, advisory_max_rung_action}
use payment_infrastructure.Decide.Cost.Rungs.{OnLadder, allow-OnLadder, minimise_cost-OnLadder}
use payment_infrastructure.Decide.Ladder.{apply_policy_rails}
use payment_infrastructure.Decide.Ladder.Laws.{apply_policy_rails_lub}
use payment_infrastructure.Decide.Ladder.Advisories.{
  IsExplained, admissible_of, attach_advisories_lem,
}
use payment_infrastructure.Decide.Engine.{Engine, Input, snapshot, swap, build_decision}
use payment_infrastructure.Decide.Sequence.{cost_stage, degrade, scored_decision, full_path}
use payment_infrastructure.Decide.Sequence.Parts.{
  p_adjusted_of, p_model_of, contributions_of, score_stage_lem, graph_finding_lem,
}

pub OnLadder-ne : (a : Action) → OnLadder a → (a ≢ block) × (a ≢ value_cap)
unfolding ladder_index
OnLadder-ne block h = absurd (omega arith)
OnLadder-ne value_cap h = absurd (omega arith)
OnLadder-ne allow h = (λ e. cc, λ e. cc)
OnLadder-ne _ h = (λ e. cc, λ e. cc)

degrade-ge :
    {F : Type 0} (p : Policy F) (ev : Event) (down : List String) (a : Action) (codes : List String)
    → ladder_index a ≤ℤ ladder_index (degrade p ev down (a, codes)).0
unfolding degrade
degrade-ge p ev [] a codes = omega arith
degrade-ge p ev (d ∷ ds) a codes = ground arith

-- The amount exceeds the cap under degradation.
abbrev pub IsOverCap : {F : Type 0} → Policy F → Event → Type 0
IsOverCap p ev = p.degradation.value_cap_minor <ℤ ev.instructed_amount_minor

degrade-IsOverCap :
    {F : Type 0} (p : Policy F) (ev : Event) (down : List String) (a : Action) (codes : List String)
    → down ≢ []
    → IsOverCap p ev
    → ladder_index step_up_interstitial ≤ℤ ladder_index (degrade p ev down (a, codes)).0
unfolding degrade
degrade-IsOverCap p ev [] a codes h k = absurd (h refl)
degrade-IsOverCap p ev (d ∷ ds) a codes h k = ground arith

module _ {F : Type 0} ⦃f : Float64 F⦄ where
  cost_stage-OnLadder :
      (e : Engine F) (swapped : Option (Pointer (Policy F))) (ev : Event) (p : Option F)
      → OnLadder (cost_stage e swapped ev p).0
  unfolding cost_stage
  cost_stage-OnLadder e swapped ev none = allow-OnLadder
  cost_stage-OnLadder e swapped ev (some p) =
      minimise_cost-OnLadder (snapshot (swap swapped e)).policy.target p ev.rail
        ev.instructed_amount_minor

  -- The action before any advisory, from the probability: cost, policy rails, degradation.
  unfoldable pub own_action :
      Engine F
      → Option (Pointer (Policy F))
      → Input F
      → List Result
      → Option F
      → Action × List String
  own_action e swapped in' results p =
      degrade e.policy.target in'.event in'.degraded
        (apply_policy_rails results ((cost_stage e swapped in'.event p).0, []))

  -- What holds of a decision that went through stages 3 to 6.
  pub record IsScored (e : Engine F) (swapped : Option (Pointer (Policy F))) (in' : Input F)
      (results : List Result) (fv : FeatureVector F) (d : Decision F) : Type 0 where
    pub read : d.features ≡ fv
    pub model : d.p_model ≡ p_model_of e (e.score fv)
    pub contributed : d.contributions ≡ contributions_of (e.score fv)
    pub losses : d.expected_loss_minor ≡ (cost_stage e swapped in'.event d.p_prevalence_adj).1
    pub adjusted : d.p_prevalence_adj ≡ p_adjusted_of e (e.score fv)
    pub rails :
        d.pre_advisory_action
        ≡ (apply_policy_rails results ((cost_stage e swapped in'.event d.p_prevalence_adj).0, [])).0
    pub costs : d.expected_cost_minor ≡ (cost_stage e swapped in'.event d.p_prevalence_adj).2
    pub stamped : d.policy_version ≡ e.policy_version
    pub own : ladder_index d.pre_advisory_action ≤ℤ ladder_index d.action
    pub rung : OnLadder d.action
    pub guarded :
        in'.degraded ≢ []
        → IsOverCap e.policy.target in'.event
        → ladder_index step_up_interstitial ≤ℤ ladder_index d.action
    pub advised :
        (d.action ≡ (own_action e swapped in' results d.p_prevalence_adj).0)
        ⊎ (ladder_index d.action ≤ℤ ladder_index (advisory_max_rung_action e.policy.target))
    pub untouched :
        admissible_of e.policy.target in'.advisories ≡ []
        → d.action ≡ (own_action e swapped in' results d.p_prevalence_adj).0

  pub full_path_lem :
      (e : Engine F) (swapped : Option (Pointer (Policy F))) (in' : Input F) (results : List Result)
      (fv : FeatureVector F) (propensity : F) (findings : List (Finding F))
      → All IsExplained in'.advisories
      → (d : Decision F) × (full_path e swapped in' results fv propensity findings
          ≡ ok (d, d.findings))
        × IsScored e swapped in' results fv d
  unfolding full_path own_action scored_decision build_decision
  full_path_lem e swapped in' results fv propensity findings explained =
      let (s, scoring, adjusted, model, contributed) = score_stage_lem e (e.score fv) in
      let (g, graphing) = graph_finding_lem in'.graph in
      let base = cost_stage e swapped in'.event s.p_adjusted in
      let on = cost_stage-OnLadder e swapped in'.event s.p_adjusted in
      let railed = apply_policy_rails results (base.0, []) in
      let rails = (apply_policy_rails_lub results base.0 []).0 in
      let own = degrade e.policy.target in'.event in'.degraded railed in
      let up = degrade-ge e.policy.target in'.event in'.degraded railed.0 railed.1 in
      let own-OnLadder : OnLadder own.0 = omega arith in
      let ne = OnLadder-ne own.0 own-OnLadder in
      let (out, attached, is) =
        attach_advisories_lem e.policy.target own.0 in'.advisories own.1
          (findings ++ s.finding ∷ g ∷ []) explained ne.0 ne.1 in
      (
        scored_decision e in' fv propensity s base railed.0 out,
        rw (scoring, graphing, attached),
        record {
          read = refl;
          model = model;
          contributed = contributed;
          losses = refl;
          adjusted = adjusted;
          rails = refl;
          costs = refl;
          stamped = refl;
          own = omega (arith, is.raises);
          rung = omega (arith, is.raises);
          guarded = λ down over. omega (
            arith,
            is.raises,
            degrade-IsOverCap e.policy.target in'.event in'.degraded railed.0 railed.1 down over,
          );
          advised = advised own.0 out.action is.capped;
          untouched = λ none_good. (is.untouched none_good).0;
        },
      )
    where
      advised :
          (own final : Action) {P Q : Type 0}
          → ((final ≡ own) × P)
            ⊎ ((ladder_index own <ℤ ladder_index final)
                × (ladder_index final ≤ℤ ladder_index (advisory_max_rung_action e.policy.target))
                × Q)
          → (final ≡ own)
            ⊎ (ladder_index final ≤ℤ ladder_index (advisory_max_rung_action e.policy.target))
      advised own final (inl (e, _)) = inl e
      advised own final (inr (_, h, _)) = inr h
