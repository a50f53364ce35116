-- ===== src/Rules/Laws.antt =====
-- go/internal/rules/engine.go: what Evaluate returns for a bundle.
use payment_infrastructure.Base.{
  String, ◌≡◌, refl, ap, ◌↔◌, Bool, true, false, List, [], ◌∷◌, arith, str_eq, eq_iff, Bool-cases,
  inl, inr, ◌⊎◌, if◌then◌else◌,
}
use payment_infrastructure.Base.Float.{Float64}
use payment_infrastructure.Contract.Event.{Event, Rail}
use payment_infrastructure.Contract.Feature.{FeatureVector}
use payment_infrastructure.Contract.Profile.{ProfileBundle}
use payment_infrastructure.Rules.{
  Activation, CompiledRule, RuleEngine, Result, CelOutcome, eval_error, not_bool, fires, bool_value,
  rail_applies, any_rail, build_activation, evaluate_rule, evaluate_all, evaluate,
}

-- A rail is named in a rule's list.
pub data Names (rail : Rail) : List String → Type 0 where
  here : (r : String) (rs : List String) → r ≡ rail → Names rail (r ∷ rs)
  there : (r : String) (rs : List String) → Names rail rs → Names rail (r ∷ rs)

any_rail-Names : (rs : List String) (rail : Rail) → any_rail rs rail ≡ true → Names rail rs
unfolding any_rail
any_rail-Names [] rail h = cc
any_rail-Names (r ∷ rs) rail h = elim (Bool-cases (str_eq r rail)) [
  | inl e ↦ here r rs ((eq_iff r rail).0 e)
  | inr e ↦ there r rs (any_rail-Names rs rail (ground arith))
]

Names-any_rail : {rail : Rail} {rs : List String} → Names rail rs → any_rail rs rail ≡ true
unfolding any_rail
Names-any_rail {rail} (here r rs e) = ground (arith, eq_iff r rail)
Names-any_rail {rail} (there r rs n) = ground (arith, Names-any_rail n)

-- A rule applies on a rail exactly when it names no rail at all or names this one.
pub rail_applies_iff :
    (rails : List String) (rail : Rail)
    → (rail_applies rails rail ≡ true) ↔ ((rails ≡ []) ⊎ Names rail rails)
unfolding rail_applies
rail_applies_iff [] rail = (λ h. inl refl, λ h. refl)
rail_applies_iff (r ∷ rs) rail = (
  λ h. inr (any_rail-Names (r ∷ rs) rail h),
  elim [ inl e ↦ ground arith | inr n ↦ Names-any_rail n ],
)

module _ {F : Type 0} ⦃f : Float64 F⦄ where
  evaluate_rule_fired_iff :
      (a : Activation F) (rail : Rail) (cr : CompiledRule F)
      → ((evaluate_rule a rail cr).fired ≡ true)
        ↔ (((cr.def.rails ≡ []) ⊎ Names rail cr.def.rails) × (cr.program a ≡ bool_value true))
  unfolding evaluate_rule
  evaluate_rule_fired_iff a rail cr = (
    λ h.
        let split = fired_parts (rail_applies cr.def.rails rail) (cr.program a) h in
        ((rail_applies_iff cr.def.rails rail).0 split.0, split.1),
    λ (named, e). rw ((rail_applies_iff cr.def.rails rail).1 named) (rw e),
  )
    where
      fired_parts :
          (applies : Bool) (out : CelOutcome)
          → (if applies then fires out else false) ≡ true
          → (applies ≡ true) × (out ≡ bool_value true)
      fired_parts true (bool_value b) h = (refl, ap bool_value h)
      fired_parts true eval_error h = cc
      fired_parts true not_bool h = cc
      fired_parts false out h = cc

  -- The rule at an index of the bundle, and the result at that index of `Evaluate`.
  pub Agrees : Activation F → Rail → List (CompiledRule F) → List Result → Type 0
  Agrees a rail [] [] = Unit
  Agrees a rail (cr ∷ rules) (r ∷ results) =
      (r.rule_id ≡ cr.def.id)
      × (r.class ≡ cr.def.class)
      × (r.action ≡ cr.def.action)
      × ((r.fired ≡ true)
          ↔ (((cr.def.rails ≡ []) ⊎ Names rail cr.def.rails) × (cr.program a ≡ bool_value true)))
      × Agrees a rail rules results
  Agrees a rail _ _ = ⊥

  evaluate_all-Agrees :
      (a : Activation F) (rail : Rail) (rules : List (CompiledRule F))
      → Agrees a rail rules (evaluate_all a rail rules)
  unfolding evaluate_all evaluate_rule Agrees
  evaluate_all-Agrees a rail [] = tt
  evaluate_all-Agrees a rail (cr ∷ rules) =
      (refl, refl, refl, evaluate_rule_fired_iff a rail cr, evaluate_all-Agrees a rail rules)

  -- `Evaluate` returns one result for each rule, in the order of the bundle, and a rule fires exactly
  -- when it names no rail or the event's own, and its program returns true on the activation: an
  -- evaluation error and a value that is no bool never fire.
  pub evaluate_exact :
      (e : RuleEngine F) (ev : Event) (pb : ProfileBundle F) (fv : FeatureVector F)
      → Agrees (build_activation ev pb fv) ev.rail e.rules (evaluate e ev pb fv)
  unfolding evaluate
  evaluate_exact e ev pb fv = evaluate_all-Agrees (build_activation ev pb fv) ev.rail e.rules
