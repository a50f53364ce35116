-- ===== src/Features/Honest.antt =====
-- go/internal/features/compute.go: every feature says whether it was evaluated.
use payment_infrastructure.Base.{
  ◌≡◌, refl, ◌∙◌, ◌⊎◌, inl, inr, Bool, true, false, String, List, [], ◌∷◌, none, some, Map, lookup,
  insert, lookup-insert, is_empty, str_eq, Bool-cases, if◌then◌else◌,
}
use payment_infrastructure.Base.Int.{ℤ}
use payment_infrastructure.Base.Float.{Float64}
use payment_infrastructure.Contract.Finding.{Status, clear, not_evaluated, not_applicable}
use payment_infrastructure.Contract.Feature.{
  FeatureVector, set_feature, mark_not_evaluated, mark_not_applicable,
}
use payment_infrastructure.Contract.Profile.{PayeeBundle}
use payment_infrastructure.Features.Payer.{mark_all}
use payment_infrastructure.Features.Counterparty.{forward_features, concentration_feature}

module _ {F : Type 0} ⦃f : Float64 F⦄ where
  -- What the vector says of one feature: nothing at all; CLEAR with a value; or NOT_EVALUATED or
  -- NOT_APPLICABLE with NaN for its value and a reason.
  pub data Says (fv : FeatureVector F) (id : String) : Type 0 where
    nothing : lookup id fv.statuses ≡ none → lookup id fv.values ≡ none → Says fv id
    evaluated :
        (v : F) → lookup id fv.statuses ≡ some clear → lookup id fv.values ≡ some v → Says fv id
    not_there :
        (s : Status) (reason : String)
        → (s ≡ not_evaluated) ⊎ (s ≡ not_applicable)
        → lookup id fv.statuses ≡ some s
        → lookup id fv.values ≡ some f.nan
        → lookup id fv.reasons ≡ some reason
        → is_empty reason ≡ false
        → Says fv id

  pub record IsHonest (fv : FeatureVector F) : Type 0 where
    pub says : (id : String) → Says fv id

  -- What is said of a feature depends on its three entries only.
  carry :
      (fv fv' : FeatureVector F) (id : String)
      → lookup id fv'.statuses ≡ lookup id fv.statuses
      → lookup id fv'.values ≡ lookup id fv.values
      → lookup id fv'.reasons ≡ lookup id fv.reasons
      → Says fv id
      → Says fv' id
  carry fv fv' id p q r (nothing a b) = nothing (p ∙ a) (q ∙ b)
  carry fv fv' id p q r (evaluated v a b) = evaluated v (p ∙ a) (q ∙ b)
  carry fv fv' id p q r (not_there s reason which a b c d) =
      not_there s reason which (p ∙ a) (q ∙ b) (r ∙ c) d

  pub set-IsHonest :
      (id : String) (v : F) {fv : FeatureVector F} → IsHonest fv → IsHonest (set_feature id v fv)
  unfolding set_feature
  set-IsHonest id v {fv} h = record {
    says = λ other. elim (Bool-cases (str_eq id other)) [
      | inl e ↦
          evaluated v (rw (lookup-insert id other clear fv.statuses, e) refl)
            (rw (lookup-insert id other v fv.values, e) refl)
      | inr e ↦
          carry fv (set_feature id v fv) other
            (rw (lookup-insert id other clear fv.statuses, e) refl)
            (rw (lookup-insert id other v fv.values, e) refl) refl (h.says other)
    ];
  }

  -- The vector with a feature marked by a status that says it is not there.
  marked : (s : Status) (id reason : String) → FeatureVector F → FeatureVector F
  marked s id reason fv = record fv {
    values = insert id f.nan fv.values;
    statuses = insert id s fv.statuses;
    reasons = insert id reason fv.reasons;
  }

  marked-IsHonest :
      (s : Status) (id reason : String) (fv : FeatureVector F)
      → (s ≡ not_evaluated) ⊎ (s ≡ not_applicable)
      → is_empty reason ≡ false
      → IsHonest fv
      → IsHonest (marked s id reason fv)
  unfolding marked
  marked-IsHonest s id reason fv which named h = record {
    says = λ other. elim (Bool-cases (str_eq id other)) [
      | inl e ↦
          not_there s reason which (rw (lookup-insert id other s fv.statuses, e) refl)
            (rw (lookup-insert id other f.nan fv.values, e) refl)
            (rw (lookup-insert id other reason fv.reasons, e) refl) named
      | inr e ↦
          carry fv (marked s id reason fv) other (rw (lookup-insert id other s fv.statuses, e) refl)
            (rw (lookup-insert id other f.nan fv.values, e) refl)
            (rw (lookup-insert id other reason fv.reasons, e) refl) (h.says other)
    ];
  }

  pub ne-IsHonest :
      (id reason : String) {fv : FeatureVector F}
      → is_empty reason ≡ false
      → IsHonest fv
      → IsHonest (mark_not_evaluated id reason fv)
  unfolding mark_not_evaluated marked
  ne-IsHonest id reason {fv} named h = marked-IsHonest not_evaluated id reason fv (inl refl) named h

  pub na-IsHonest :
      (id reason : String) {fv : FeatureVector F}
      → is_empty reason ≡ false
      → IsHonest fv
      → IsHonest (mark_not_applicable id reason fv)
  unfolding mark_not_applicable marked
  na-IsHonest id reason {fv} named h =
      marked-IsHonest not_applicable id reason fv (inr refl) named h

  pub if-IsHonest :
      (b : Bool) {x y : FeatureVector F} → IsHonest x → IsHonest y → IsHonest (if b then x else y)
  if-IsHonest true hx hy = hx
  if-IsHonest false hx hy = hy

  pub mark_all-IsHonest :
      (ids : List String) (reason : String) {fv : FeatureVector F}
      → is_empty reason ≡ false
      → IsHonest fv
      → IsHonest (mark_all ids reason fv)
  unfolding mark_all
  mark_all-IsHonest [] reason named h = h
  mark_all-IsHonest (id ∷ ids) reason named h =
      mark_all-IsHonest ids reason named (ne-IsHonest id reason named h)

  pub concentration-IsHonest :
      (shares : Map F) {fv : FeatureVector F}
      → IsHonest fv
      → IsHonest (concentration_feature shares fv)
  unfolding concentration_feature
  concentration-IsHonest [] h = ne-IsHonest _ _ refl h
  concentration-IsHonest (s ∷ shares) h = set-IsHonest _ _ h

  pub forward-IsHonest :
      (payee : PayeeBundle F) (now_ms : ℤ) {fv : FeatureVector F}
      → IsHonest fv
      → IsHonest (forward_features payee now_ms fv)
  unfolding forward_features
  forward-IsHonest payee now_ms h =
      let h1 =
        if-IsHonest _ (na-IsHonest _ _ refl h)
          (if-IsHonest _ (ne-IsHonest _ _ refl h) (set-IsHonest _ _ h)) in
      if-IsHonest _ (na-IsHonest _ _ refl h1)
        (if-IsHonest _ (ne-IsHonest _ _ refl h1) (set-IsHonest _ _ h1))
