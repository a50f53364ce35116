-- ===== src/Decide/Sequence/Parts.antt =====
-- go/internal/decide/engine.go: each stage of Decide makes its findings without a panic.
use mathlib.Core.List.{append-nil, append_assoc}
use payment_infrastructure.Base.{
  ◌≡◌, refl, ◌∙◌, Bool, true, false, List, [], ◌∷◌, ◌++◌, map, Option, none, some, Map, All, Run,
  ok, is_empty, is_empty-concat, concat, Bool-cases, inl, inr, if◌then◌else◌,
}
use payment_infrastructure.Base.Int.{pos}
use payment_infrastructure.Base.Float.{Float64}
use payment_infrastructure.Contract.Event.{Rail}
use payment_infrastructure.Contract.Finding.{
  Finding, clear, fired, finding_of, new_finding-ok, new_finding->>=,
}
use payment_infrastructure.Contract.Feature.{FeatureVector, set_feature}
use payment_infrastructure.Contract.Profile.{GraphResult}
use payment_infrastructure.Rules.{Result, CompiledRule, Activation, evaluate_rule, evaluate_all}
use payment_infrastructure.Decide.Prevalence.{adjust}
use payment_infrastructure.Decide.Engine.{
  Engine, Scored, scored, failed, rule_findings, rule_explanation, is_ring_flagged,
}
use payment_infrastructure.Decide.Sequence.{Score, score_stage, graph_finding}

-- A rule's explanation is not empty, so that its finding can be made.
abbrev pub IsRuleExplained : Result → Type 0
IsRuleExplained r = is_empty r.explanation ≡ false

rule_explanation-is_empty : (r : Result) → IsRuleExplained r → is_empty (rule_explanation r) ≡ false
rule_explanation-is_empty r h = elim (Bool-cases r.fired) [
  | inl e ↦ rw e h
  | inr e ↦ rw e (is_empty-concat "did not fire: " r.explanation refl)
]

-- Both branches of a test end with a value.
either_way {ℓ} :
    {A : Type ℓ} (b : Bool) {m n : Run A}
    → (x : A) × (m ≡ ok x)
    → (x : A) × (n ≡ ok x)
    → (x : A) × ((if b then m else n) ≡ ok x)
either_way true h k = h
either_way false h k = k

module _ {F : Type 0} ⦃f : Float64 F⦄ where
  pub rule_finding : Result → Finding F
  rule_finding r =
      finding_of (concat "rule:" r.rule_id) (if r.fired then fired else clear) (rule_explanation r)

  -- Each predicate is also a feature `rf_<id>`, 1 or 0.
  pub with_rule_features : List Result → FeatureVector F → FeatureVector F
  with_rule_features [] fv = fv
  with_rule_features (r ∷ rs) fv =
      with_rule_features rs
        (set_feature (concat "rf_" r.rule_id) (f.of_int (pos (if r.fired then 1 else 0))) fv)

  pub rule_findings_lem :
      (rs : List Result) (findings : List (Finding F)) (fv : FeatureVector F)
      → All IsRuleExplained rs
      → rule_findings rs (findings, fv)
        ≡ ok (findings ++ map rule_finding rs, with_rule_features rs fv)
  unfolding rule_findings rule_finding with_rule_features
  rule_findings_lem [] findings fv h = simp append-nil
  rule_findings_lem (r ∷ rs) findings fv (h, hs) =
      rw
        (new_finding-ok (concat "rule:" r.rule_id) (if r.fired then fired else clear)
          (rule_explanation r) (rule_explanation-is_empty r h))
        (rule_findings_lem rs _ _ hs ∙ simp append_assoc)

  abbrev pub IsDefExplained : CompiledRule F → Type 0
  IsDefExplained cr = is_empty cr.def.explanation ≡ false

  pub evaluate_all-IsRuleExplained :
      (a : Activation F) (rail : Rail) (rules : List (CompiledRule F))
      → All IsDefExplained rules
      → All IsRuleExplained (evaluate_all a rail rules)
  unfolding evaluate_all evaluate_rule
  evaluate_all-IsRuleExplained a rail [] h = tt
  evaluate_all-IsRuleExplained a rail (r ∷ rs) (h, hs) =
      (h, evaluate_all-IsRuleExplained a rail rs hs)

  -- The adjusted probability, if the scorer gives a score.
  unfoldable pub p_adjusted_of : Engine F → Scored F → Option F
  p_adjusted_of e (scored raw contribs) = some (adjust e.prevalence (e.calibrate raw))
  p_adjusted_of e (failed message) = none

  unfoldable pub p_model_of : Engine F → Scored F → Option F
  p_model_of e (scored raw contribs) = some (e.calibrate raw)
  p_model_of e (failed message) = none

  unfoldable pub contributions_of : Scored F → Map F
  contributions_of (scored raw contribs) = contribs
  contributions_of (failed message) = []

  pub score_stage_lem :
      (e : Engine F) (s : Scored F)
      → (out : Score F) × (score_stage e s ≡ ok out)
        × (out.p_adjusted ≡ p_adjusted_of e s)
        × (out.p_model ≡ p_model_of e s)
        × (out.contributions ≡ contributions_of s)
  unfolding score_stage p_adjusted_of p_model_of contributions_of
  score_stage_lem e (failed message) = (
    _,
    new_finding->>= _ _ _ _
        (is_empty-concat "scorer error, proceeding on rules only: " message refl),
    refl,
    refl,
    refl,
  )
  score_stage_lem e (scored raw contribs) = (
    _,
    new_finding->>= _ _ _ _ (is_empty-concat "calibrated probability " _ refl),
    refl,
    refl,
    refl,
  )

  pub graph_finding_lem : (g : Option (GraphResult F)) → (x : Finding F) × (graph_finding g ≡ ok x)
  unfolding graph_finding
  graph_finding_lem none = (_, new_finding-ok _ _ _ refl)
  graph_finding_lem (some g) =
      either_way (is_ring_flagged (some g))
        (_, new_finding-ok _ _ _ (is_empty-concat "ring score " _ refl))
        (either_way g.evaluated (_, new_finding-ok _ _ _ refl) (_, new_finding-ok _ _ _ refl))
