-- ===== src/Decide/Sequence.antt =====
-- go/internal/decide/engine.go: Decide. `swapped` is the bundle that another goroutine stores into the
-- hot-swap slot between the snapshot at the start and the cost table's own snapshot, if one does.
pub mod Parts
pub mod Actions
pub mod Verdict
pub mod Guards
pub mod Swap
pub mod FastPath
use payment_infrastructure.Base.{
  ℕ, String, Bool, true, false, ◌&&◌, List, [], ◌∷◌, ◌++◌, Option, none, some, Map, Run, ok, panic,
  ◌>>=◌, concat, decimal, if◌then◌else◌,
}
use payment_infrastructure.Base.Int.{ℤ, ltb_ℤ}
use payment_infrastructure.Base.Float.{Float64}
use payment_infrastructure.Contract.Action.{
  Action, allow, block, value_cap, step_up_interstitial, ladder_index,
}
use payment_infrastructure.Contract.Event.{Event, Rail}
use payment_infrastructure.Contract.Finding.{Finding, clear, fired, not_evaluated, new_finding}
use payment_infrastructure.Contract.Feature.{FeatureVector}
use payment_infrastructure.Contract.Profile.{GraphResult}
use payment_infrastructure.Contract.Decision.{Decision}
use payment_infrastructure.Rules
use payment_infrastructure.Rules.{Result}
use payment_infrastructure.Decide.Policy.{Policy, Pointer}
use payment_infrastructure.Decide.Blocklist.{Entry, hit}
use payment_infrastructure.Decide.Prevalence.{adjust}
use payment_infrastructure.Decide.Cost.{minimise_cost}
use payment_infrastructure.Decide.Ladder.{Attached, apply_policy_rails, attach_advisories}
use payment_infrastructure.Decide.Engine.{
  Engine, Input, Scored, scored, failed, snapshot, swap, first_cap, rule_findings, trusted_pair,
  is_ring_flagged, build_decision,
}
use payment_infrastructure.Decide.Engine.Control.{control_assignment}

-- What stage 3 leaves: the finding, pModel, pAdjusted and the contributions.
pub record Score (F : Type 0) : Type 0 where
  pub finding : Finding F
  pub p_model : Option F
  pub p_adjusted : Option F
  pub contributions : Map F

-- Degradation raises the friction above the value cap.
unfoldable pub degrade :
    {F : Type 0} → Policy F → Event → List String → Action × List String → Action × List String
degrade policy ev [] s = s
degrade policy ev (d ∷ ds) (action, codes) =
    if ltb_ℤ policy.degradation.value_cap_minor ev.instructed_amount_minor
    then (
      if ltb_ℤ (ladder_index action) (ladder_index step_up_interstitial)
          then step_up_interstitial
          else action,
      codes ++ "DEGRADED_VALUE_CAP" ∷ [],
    )
    else (action, codes)

abbrev pub Outcome : Type 0 → Type 0
Outcome F = Run (Decision F × List (Finding F))

module _ {F : Type 0} ⦃f : Float64 F⦄ where
  pub score_stage : Engine F → Scored F → Run (Score F)
  score_stage e (failed message) = do
    finding ←
        new_finding "model" not_evaluated
          (concat "scorer error, proceeding on rules only: " message)
    ok (record { finding = finding; p_model = none; p_adjusted = none; contributions = [] })
  score_stage e (scored raw contribs) = do
    let calibrated = e.calibrate raw
    let adjusted = adjust e.prevalence calibrated
    finding ← new_finding "model" fired (
        concat "calibrated probability " (
          concat (f.fixed 4 calibrated) (
            concat " (prevalence-adjusted "
              (concat (f.fixed 4 adjusted) (concat ") from " e.model_bundle_version)))))
    ok (record {
      finding = finding;
      p_model = some calibrated;
      p_adjusted = some adjusted;
      contributions = contribs;
    })

  -- Stage 4: the base action, expLoss and expCost. The cost table takes its own snapshot.
  unfoldable pub cost_stage :
      Engine F → Option (Pointer (Policy F)) → Event → Option F → Action × Option ℤ × Option ℤ
  cost_stage e swapped ev none = (allow, none, none)
  cost_stage e swapped ev (some p) =
      let priced = snapshot (swap swapped e) in
      let (action, loss, cost) =
        minimise_cost priced.policy.target p ev.rail ev.instructed_amount_minor in
      (action, some loss, some cost)

  pub graph_finding : Option (GraphResult F) → Run (Finding F)
  graph_finding none =
      new_finding "graph" not_evaluated
        "graph signal did not run for this decision (down, stale, or deadline)"
  graph_finding (some g) =
      if is_ring_flagged (some g)
      then new_finding "graph" fired (
          concat "ring score " (
            concat (f.fixed 2 g.ring_score) (
              concat " across " (
                concat (decimal g.ring_size)
                  " entities — advisory only, never a block (docs/00 §D7)"))))
      else if g.evaluated
      then new_finding "graph" clear "no ring pattern detected for this payee"
      else new_finding "graph" not_evaluated
          "graph signal did not run for this decision (down, stale, or deadline)"

  -- `buildDecision` after stage 6, and the three fields set after it.
  pub scored_decision :
      Engine F
      → Input F
      → FeatureVector F
      → (propensity : F) → Score F
      → Action × Option ℤ × Option ℤ
      → (pre_advisory : Action) → Attached F
      → Decision F
  scored_decision e in' fv propensity s base pre_advisory final =
      let d =
        build_decision e in'.event fv final.action pre_advisory "" final.codes base.1 base.2
          in'.degraded false propensity final.findings in
      record d {
        p_model = s.p_model;
        p_prevalence_adj = s.p_adjusted;
        contributions = s.contributions;
      }

  -- Stages 3 to 6, from the rule results and the findings so far.
  pub full_path :
      Engine F
      → Option (Pointer (Policy F))
      → Input F
      → List Result
      → FeatureVector F
      → (propensity : F) → List (Finding F)
      → Outcome F
  unfolding score_stage cost_stage graph_finding degrade scored_decision
  full_path e swapped in' results fv propensity findings = do
    let ev = in'.event
    s ← score_stage e (e.score fv)
    let base = cost_stage e swapped ev s.p_adjusted
    let railed = apply_policy_rails results (base.0, [])
    g ← graph_finding in'.graph
    let degraded = degrade e.policy.target ev in'.degraded railed
    final ←
        attach_advisories e.policy.target degraded.0 in'.advisories degraded.1
          (findings ++ s.finding ∷ g ∷ [])
    let d = scored_decision e in' fv propensity s base railed.0 final
    ok (d, final.findings)

  -- Stage 2, or the rest.
  pub after_control :
      Engine F
      → Option (Pointer (Policy F))
      → Input F
      → List Result
      → FeatureVector F
      → (propensity : F) → List (Finding F)
      → Outcome F
  unfolding full_path
  after_control e swapped in' results fv propensity findings =
      let ring_flagged = is_ring_flagged in'.graph in
      if trusted_pair e.policy.target in'.profile in'.event ring_flagged in'.degraded
      then (do
        finding ←
            new_finding "trusted_pair" fired
              "payer/payee pair has sufficient shared history and this transaction is within its usual amount range; fast-pathed to ALLOW"
        let railed = apply_policy_rails results (allow, "TRUSTED_PAIR_FAST_PATH" ∷ [])
        let all = findings ++ finding ∷ []
        ok (
          build_decision e in'.event fv railed.0 railed.0 "" railed.1 none none in'.degraded false
              propensity all,
          all,
        ))
      else full_path e swapped in' results fv propensity findings

  -- The regulatory cap, the control group, or the rest.
  pub after_rules :
      Engine F
      → Option (Pointer (Policy F))
      → Input F
      → (is_control : Bool) → (propensity : F) → List Result
      → List (Finding F)
      → FeatureVector F
      → Option Result
      → Outcome F
  unfolding after_control
  after_rules e swapped in' is_control propensity results findings fv (some r) = ok (
    build_decision e in'.event fv value_cap value_cap r.rule_id
        (concat "REGULATORY_CAP:" r.rule_id ∷ []) none none in'.degraded is_control propensity
        findings,
    findings,
  )
  after_rules e swapped in' true propensity results findings fv none = ok (
    build_decision e in'.event fv allow allow "" ("CONTROL_GROUP" ∷ []) none none in'.degraded true
        propensity findings,
    findings,
  )
  after_rules e swapped in' false propensity results findings fv none =
      after_control e swapped in' results fv propensity findings

  pub blocked : Engine F → Input F → (is_control : Bool) → (propensity : F) → Entry → Outcome F
  blocked e in' is_control propensity entry = do
    finding ← new_finding "local_blocklist" fired (
        concat "creditor account is on the "
          (concat entry.list (concat " blocklist: " entry.reason)))
    ok (
      build_decision e in'.event in'.features block block "local_blocklist"
          ("LOCAL_BLOCKLIST_HIT" ∷ []) none none in'.degraded is_control propensity (finding ∷ []),
      finding ∷ [],
    )

  -- The engine is pinned already: stages 1 to 6.
  unfoldable pub decide_pinned :
      Engine F → Option (Pointer (Policy F)) → Input F → Bool × F → Option Entry → Outcome F
  unfolding after_rules blocked
  decide_pinned e swapped in' (is_control, propensity) (some entry) =
      blocked e in' is_control propensity entry
  decide_pinned e swapped in' (is_control, propensity) none = do
    let results = Rules.evaluate e.rules in'.event in'.profile in'.features
    (findings, fv) ← rule_findings results ([], in'.features)
    after_rules e swapped in' is_control propensity results findings fv (first_cap results)

  unfoldable pub decide : Engine F → Option (Pointer (Policy F)) → Input F → Outcome F
  unfolding decide_pinned
  decide e0 swapped in' =
      let e = snapshot e0 in
      decide_pinned e swapped in' (control_assignment e.policy.target in'.event.end_to_end_id)
        (hit e.blocklist in'.event.creditor_account)
