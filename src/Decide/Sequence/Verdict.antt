-- ===== src/Decide/Sequence/Verdict.antt =====
-- go/internal/decide/engine.go: Decide takes one of five ways, and each ends with a decision.
use payment_infrastructure.Base.{
  ◌≡◌, refl, inl, inr, Bool, true, false, List, [], ◌∷◌, ◌++◌, map, Option, none, some, All, ok,
  Option-cases, is_empty-concat, ◌==◌, if◌then◌else◌,
}
use payment_infrastructure.Base.Float.{Float64}
use payment_infrastructure.Contract.Action.{allow, block, value_cap}
use payment_infrastructure.Contract.Finding.{Finding, fired, finding_of, new_finding->>=}
use payment_infrastructure.Contract.Decision.{Decision}
use payment_infrastructure.Rules.{Result, build_activation, evaluate}
use payment_infrastructure.Decide.Policy.{Policy, Pointer, load}
use payment_infrastructure.Decide.Blocklist.{Entry, hit}
use payment_infrastructure.Decide.Ladder.{apply_policy_rails}
use payment_infrastructure.Decide.Ladder.Advisories.{IsExplained}
use payment_infrastructure.Decide.Engine.{
  Engine, Input, snapshot, first_cap, trusted_pair, is_ring_flagged, build_decision,
}
use payment_infrastructure.Decide.Engine.Control.{control_assignment}
use payment_infrastructure.Decide.Sequence.{
  Outcome, decide, decide_pinned, after_rules, after_control, blocked,
}
use payment_infrastructure.Decide.Sequence.Parts.{
  IsDefExplained, IsRuleExplained, evaluate_all-IsRuleExplained, rule_finding, with_rule_features,
  rule_findings_lem,
}
use payment_infrastructure.Decide.Sequence.Actions.{IsScored, full_path_lem}

module _ {F : Type 0} ⦃f : Float64 F⦄ where
  -- The rule results of an input.
  abbrev pub results_of : Engine F → Input F → List Result
  results_of e in' = evaluate e.rules in'.event in'.profile in'.features

  abbrev pub hit_of : Engine F → Input F → Option Entry
  hit_of e in' = hit e.blocklist in'.event.creditor_account

  abbrev pub control_of : Engine F → Input F → Bool × F
  control_of e in' = control_assignment e.policy.target in'.event.end_to_end_id

  abbrev pub trusted_of : Engine F → Input F → Bool
  trusted_of e in' =
      trusted_pair e.policy.target in'.profile in'.event (is_ring_flagged in'.graph) in'.degraded

  -- The way that a decision came about, with what it then holds.
  pub data Verdict (e : Engine F) (swapped : Option (Pointer (Policy F))) (in' : Input F)
      (d : Decision F) : Type 0 where
    is_blocked :
        (entry : Entry)
        → hit_of e in' ≡ some entry
        → d.action ≡ block
        → d.p_prevalence_adj ≡ none
        → Verdict e swapped in' d
    is_capped :
        (r : Result)
        → hit_of e in' ≡ none
        → first_cap (results_of e in') ≡ some r
        → d.action ≡ value_cap
        → d.rail_fired ≡ r.rule_id
        → d.p_prevalence_adj ≡ none
        → Verdict e swapped in' d
    is_controlled :
        hit_of e in' ≡ none
        → first_cap (results_of e in') ≡ none
        → (control_of e in').0 ≡ true
        → d.action ≡ allow
        → d.is_control ≡ true
        → d.p_prevalence_adj ≡ none
        → Verdict e swapped in' d
    is_trusted :
        hit_of e in' ≡ none
        → first_cap (results_of e in') ≡ none
        → (control_of e in').0 ≡ false
        → trusted_of e in' ≡ true
        → d.action
          ≡ (apply_policy_rails (results_of e in') (allow, "TRUSTED_PAIR_FAST_PATH" ∷ [])).0
        → d.p_prevalence_adj ≡ none
        → Verdict e swapped in' d
    is_scored :
        hit_of e in' ≡ none
        → first_cap (results_of e in') ≡ none
        → (control_of e in').0 ≡ false
        → trusted_of e in' ≡ false
        → IsScored e swapped in'
            (results_of e in')
            (with_rule_features (results_of e in') in'.features)
            d
        → Verdict e swapped in' d

  -- The decision that a run returns, the findings being its own.
  abbrev Decides :
      (e : Engine F) (swapped : Option (Pointer (Policy F))) (in' : Input F) → Outcome F → Type 0
  Decides e swapped in' run =
      (d : Decision F) × (run ≡ ok (d, d.findings)) × Verdict e swapped in' d

  blocked-Decides :
      (e : Engine F) (swapped : Option (Pointer (Policy F))) (in' : Input F) (entry : Entry)
      → hit_of e in' ≡ some entry
      → Decides e swapped in' (decide_pinned e swapped in' (control_of e in') (some entry))
  unfolding decide_pinned blocked build_decision
  blocked-Decides e swapped in' entry h = (
    _,
    new_finding->>= _ _ _ _ (is_empty-concat "creditor account is on the " _ refl),
    is_blocked entry h refl refl,
  )

  after_control-Decides :
      (e : Engine F) (swapped : Option (Pointer (Policy F))) (in' : Input F) (propensity : F)
      (findings : List (Finding F))
      → All IsExplained in'.advisories
      → hit_of e in' ≡ none
      → first_cap (results_of e in') ≡ none
      → (control_of e in').0 ≡ false
      → (fast : Bool) → trusted_of e in' ≡ fast
      → Decides e swapped in' (
          after_control e swapped in'
            (results_of e in')
            (with_rule_features (results_of e in') in'.features)
            propensity
            findings)
  unfolding after_control build_decision
  after_control-Decides e swapped in' propensity findings explained free uncapped live true h =
      let results = results_of e in' in
      let railed = apply_policy_rails results (allow, "TRUSTED_PAIR_FAST_PATH" ∷ []) in
      (
        build_decision e in'.event (with_rule_features results in'.features) railed.0 railed.0 ""
            railed.1 none none in'.degraded false propensity (findings ++ trusted_finding ∷ []),
        rw h (new_finding->>= _ _ _ _ refl),
        is_trusted free uncapped live h refl refl,
      )
    where
      trusted_finding : Finding F
      trusted_finding =
          finding_of "trusted_pair" fired
            "payer/payee pair has sufficient shared history and this transaction is within its usual amount range; fast-pathed to ALLOW"
  after_control-Decides e swapped in' propensity findings explained free uncapped live false h =
      let results = results_of e in' in
      let (d, run, scored) =
        full_path_lem e swapped in' results (with_rule_features results in'.features) propensity
          findings explained in
      (d, rw h run, is_scored free uncapped live h scored)

  after_rules-Decides :
      (e : Engine F) (swapped : Option (Pointer (Policy F))) (in' : Input F) (propensity : F)
      (findings : List (Finding F))
      → All IsExplained in'.advisories
      → hit_of e in' ≡ none
      → (control : Bool) → (control_of e in').0 ≡ control
      → (cap_result : Option Result) → first_cap (results_of e in') ≡ cap_result
      → Decides e swapped in' (
          after_rules e swapped in' control propensity
            (results_of e in')
            findings
            (with_rule_features (results_of e in') in'.features)
            cap_result)
  unfolding after_rules build_decision
  after_rules-Decides e swapped in' propensity findings explained free control c (some r) h =
      (_, refl, is_capped r free h refl refl refl)
  after_rules-Decides e swapped in' propensity findings explained free true c none h =
      (_, refl, is_controlled free h c refl refl refl)
  after_rules-Decides e swapped in' propensity findings explained free false c none h =
      after_control-Decides e swapped in' propensity findings explained free h c (trusted_of e in')
        refl

  results_explained :
      (e : Engine F) (in' : Input F)
      → All IsDefExplained e.rules.rules
      → All IsRuleExplained (results_of e in')
  unfolding evaluate
  results_explained e in' ruled =
      evaluate_all-IsRuleExplained (build_activation in'.event in'.profile in'.features)
        in'.event.rail e.rules.rules ruled

  -- A snapshot keeps the rules.
  rules_explained :
      (e : Engine F)
      → All IsDefExplained e.rules.rules
      → All IsDefExplained (snapshot e).rules.rules
  unfolding snapshot
  rules_explained e h = elim (Option-cases (load e.live_ref)) [
    | inl nil ↦ rw (nil, snapshot) h
    | inr (p, held) ↦ rw (held, snapshot) (kept (p.address == e.policy.address) p)
  ]
    where
      kept :
          (same : Bool) (p : Pointer (Policy F))
          → All IsDefExplained
              (if same
                then e
                else record e { policy = p; policy_version = p.target.version }).rules.rules
      kept true p = h
      kept false p = h

  decide_pinned-Decides :
      (e : Engine F) (swapped : Option (Pointer (Policy F))) (in' : Input F)
      → All IsDefExplained e.rules.rules
      → All IsExplained in'.advisories
      → (entry : Option Entry) → hit_of e in' ≡ entry
      → Decides e swapped in' (decide_pinned e swapped in' (control_of e in') entry)
  decide_pinned-Decides e swapped in' ruled explained (some entry) h =
      blocked-Decides e swapped in' entry h
  decide_pinned-Decides e swapped in' ruled explained none h =
      let results = results_of e in' in
      let made = rule_findings_lem results [] in'.features (results_explained e in' ruled) in
      let (d, run, verdict) =
        after_rules-Decides e swapped in' (control_of e in').1 (map rule_finding results) explained
          h (control_of e in').0 refl (first_cap results) refl in
      (d, unfold decide_pinned in rw made run, verdict)

  -- If every advisory and every rule of the bundle has an explanation, Decide returns, whatever is
  -- swapped in meanwhile, and the decision came about in one of the five ways: a blocklist hit gives
  -- BLOCK; else a fired regulatory cap rule gives CAP; else the control group gets ALLOW; else a
  -- trusted pair gets ALLOW raised by the policy rails; and else the decision is scored, priced, raised
  -- by the rails and by degradation, and attached its advisories.
  pub decide_lem :
      (e0 : Engine F) (swapped : Option (Pointer (Policy F))) (in' : Input F)
      → All IsDefExplained e0.rules.rules
      → All IsExplained in'.advisories
      → (d : Decision F) × (decide e0 swapped in' ≡ ok (d, d.findings))
        × Verdict (snapshot e0) swapped in' d
  unfolding decide
  decide_lem e0 swapped in' ruled explained =
      decide_pinned-Decides (snapshot e0) swapped in' (rules_explained e0 ruled) explained
        (hit_of (snapshot e0) in') refl
