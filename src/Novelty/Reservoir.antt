-- ===== src/Novelty/Reservoir.antt =====
-- go/internal/novelty/engine.go: what the engine holds after any observations.
use payment_infrastructure.Base.{
  ℕ, suc, ◌+◌, ◌≤◌, ◌<◌, String, ◌≡◌, refl, sym, subst, ◌∙◌, Bool, true, false, List, [], ◌∷◌,
  Option, none, some, Map, length, length-append, length-set, arith, ltb, leb, ◌&&◌, ◌||◌, not,
  is_some, Bool-cases, Option-cases, inl, inr, some-eq, none-ne-some, if◌then◌else◌,
}
use payment_infrastructure.Base.Float.{Float64}
use payment_infrastructure.Base.Sort.{sort_floats}
use payment_infrastructure.Features.Numbers.{Math}
use payment_infrastructure.Novelty.{
  NoveltyEngine, alphas_from, dims_of, refresh_locked, every, sample_of, name_dims, keep_point,
  observe, new_novelty, min_calibration, max_calibration_size, refresh_every, alpha_sample_cap,
}

grown-size :
    (seen before after : ℕ)
    → before ≡ (if leb seen max_calibration_size then seen else max_calibration_size)
    → after ≡ (if ltb before max_calibration_size then before + 1 else before)
    → after ≡ (if leb (suc seen) max_calibration_size then suc seen else max_calibration_size)
grown-size seen before after h k = ground arith

not_due-early :
    {A : Type 0} (n : ℕ) (o : Option A) (b : Bool)
    → leb min_calibration n && (not (is_some o) || b) ≡ false
    → o ≡ none
    → leb min_calibration n ≡ false
not_due-early n none b h e = ground arith
not_due-early n (some a) b h e = absurd (none-ne-some (sym e))

module _ {F : Type 0} ⦃f : Float64 F⦄ ⦃m : Math F⦄ where
  -- The distance of each reference point to its own neighbours among the others.
  abbrev pub own_distances : NoveltyEngine F → List F
  own_distances e = alphas_from (dims_of e.dims) e.scale e.ref e.ref 0

  -- The state after `seen` observations.
  pub record IsCalibrated (seen : ℕ) (e : NoveltyEngine F) : Type 0 where
    pub size : length e.pts ≡ (if leb seen max_calibration_size then seen else max_calibration_size)
    pub place : e.next < max_calibration_size
    pub early : e.alphas ≡ none → seen < min_calibration
    pub scored :
        (alphas : List F)
        → e.alphas ≡ some alphas
        → (alphas ≡ sort_floats (own_distances e))
          × (min_calibration ≤ seen)
          × (1 ≤ length e.ref)
          × ((dims : List String) × (e.dims ≡ some dims))

  name_dims-some :
      (dims : List String) (e : NoveltyEngine F)
      → (ds : List String) × ((name_dims dims e).dims ≡ some ds)
  unfolding name_dims
  name_dims-some dims e = elim (Option-cases e.dims) [
    | inl unnamed ↦ (dims, rw (name_dims, unnamed) refl)
    | inr (ds, named) ↦ (ds, rw (name_dims, named) named)
  ]

  name_dims-IsCalibrated :
      (seen : ℕ) (dims : List String) (e : NoveltyEngine F)
      → IsCalibrated seen e
      → IsCalibrated seen (name_dims dims e)
  unfolding name_dims
  name_dims-IsCalibrated seen dims e c = elim (Option-cases e.dims) [
    | inl unnamed ↦
        rw (name_dims, unnamed)
          (record {
            size = c.size;
            place = c.place;
            early = c.early;
            scored = λ alphas h.
                let (_, _, _, (ds, named)) = c.scored alphas h in
                absurd (none-ne-some (sym unnamed ∙ named));
          })
    | inr (ds, named) ↦ rw (name_dims, named) c
  ]

  length-every :
      (stride cap : ℕ) (ps : List (Map F))
      → 1 ≤ length ps
      → 1 ≤ length (every 0 stride (suc cap) ps)
  unfolding every
  length-every stride cap [] h = absurd (omega arith)
  length-every stride cap (p ∷ ps) h = omega arith

  length-sample_of : (ps : List (Map F)) → 1 ≤ length ps → 1 ≤ length (sample_of ps)
  unfolding sample_of
  length-sample_of ps h = elim (Bool-cases (ltb alpha_sample_cap (length ps))) [
    | inl many ↦ rw many (length-every _ 499 ps h)
    | inr few ↦ rw few h
  ]

  -- What keeping a point leaves alone, and how the reservoir grows.
  keep_point_lem :
      (p : Map F) (e : NoveltyEngine F)
      → e.next < max_calibration_size
      → ((keep_point p e).alphas ≡ e.alphas)
        × ((keep_point p e).ref ≡ e.ref)
        × ((keep_point p e).scale ≡ e.scale)
        × ((keep_point p e).dims ≡ e.dims)
        × ((keep_point p e).next < max_calibration_size)
        × (length (keep_point p e).pts
            ≡ (if ltb (length e.pts) max_calibration_size then length e.pts + 1 else length e.pts))
  unfolding keep_point
  keep_point_lem p e h = elim (Bool-cases (ltb (length e.pts) max_calibration_size)) [
    | inl room ↦ rw room (refl, refl, refl, refl, h, length-append e.pts (p ∷ []))
    | inr full ↦ rw full (refl, refl, refl, refl, omega arith, length-set e.pts e.next p)
  ]

  IsCalibrated-refresh_locked :
      (seen n : ℕ) (e : NoveltyEngine F)
      → length e.pts ≡ (if leb seen max_calibration_size then seen else max_calibration_size)
      → e.next < max_calibration_size
      → ((ds : List String) × (e.dims ≡ some ds))
      → leb min_calibration (length e.pts) ≡ true
      → IsCalibrated seen (record (refresh_locked e) { since_refresh = n })
  unfolding refresh_locked
  IsCalibrated-refresh_locked seen n e size place named many = record {
    size = size;
    place = place;
    early = λ h. absurd (none-ne-some (sym h));
    scored =
        λ alphas h. (sym (some-eq h), ground arith, length-sample_of e.pts (ground arith), named);
  }

  observe-IsCalibrated :
      (seen : ℕ) (values : Map F) (dims : List String) (e : NoveltyEngine F)
      → IsCalibrated seen e
      → IsCalibrated (suc seen) (observe values dims e)
  unfolding observe
  observe-IsCalibrated seen values dims e c =
      let named = name_dims dims e in
      let c' = name_dims-IsCalibrated seen dims e c in
      let kept = keep_point values named in
      let (same_alphas, same_ref, same_scale, same_dims, place, grown) =
        keep_point_lem values named c'.place in
      let size = grown-size seen (length named.pts) (length kept.pts) c'.size grown in
      let counted = record kept { since_refresh = kept.since_refresh + 1 } in
      elim (Bool-cases (
        leb min_calibration (length kept.pts)
        && (not (is_some kept.alphas) || leb refresh_every (kept.since_refresh + 1)))) [
          | inl due ↦ rw due (
              let (ds, is_named) = name_dims-some dims e in
              IsCalibrated-refresh_locked (suc seen) 0 counted size place (ds, same_dims ∙ is_named)
                (ground arith))
          | inr not_due ↦ rw not_due (record {
            size = size;
            place = place;
            early = λ h.
                let few = not_due-early (length kept.pts) kept.alphas _ not_due h in ground arith;
            scored = λ alphas h.
                let (eq, many, some_ref, (ds, is_named)) = c'.scored alphas (sym same_alphas ∙ h) in
                (cc, omega arith, rw same_ref some_ref, (ds, same_dims ∙ is_named));
          })
        ]

  -- The engine after some observations, the first one first.
  unfoldable pub observe_all : List (Map F × List String) → NoveltyEngine F → NoveltyEngine F
  observe_all [] e = e
  observe_all (o ∷ os) e = observe_all os (observe o.0 o.1 e)

  observe_all-IsCalibrated :
      (os : List (Map F × List String)) (seen : ℕ) (e : NoveltyEngine F)
      → IsCalibrated seen e
      → IsCalibrated (seen + length os) (observe_all os e)
  unfolding observe_all
  observe_all-IsCalibrated [] seen e c =
      let same : seen ≡ seen + 0 = omega arith in subst (λ n. IsCalibrated n e) same c
  observe_all-IsCalibrated (o ∷ os) seen e c =
      let moved : suc seen + length os ≡ seen + length (o ∷ os) = omega arith in
      subst (λ n. IsCalibrated n (observe_all os (observe o.0 o.1 e))) moved
        (observe_all-IsCalibrated os (suc seen) (observe o.0 o.1 e)
          (observe-IsCalibrated seen o.0 o.1 e c))

  pub observed-IsCalibrated :
      (os : List (Map F × List String)) → IsCalibrated (length os) (observe_all os new_novelty)
  observed-IsCalibrated os =
      let fresh : IsCalibrated 0 (new_novelty {F = F}) = record {
        size = refl;
        place = omega arith;
        early = λ h. omega arith;
        scored = λ alphas h. absurd (none-ne-some h);
      } in
      let moved : 0 + length os ≡ length os = omega arith in
      subst (λ n. IsCalibrated n (observe_all os new_novelty)) moved
        (observe_all-IsCalibrated os 0 new_novelty fresh)
