-- ===== src/Scoring/Clear.antt =====
-- go/internal/scoring: what a score depends on, and what its attributions are.
use payment_infrastructure.Base.{
  ℕ, zero, suc, ◌+◌, ◌≤◌, ◌≡◌, refl, sym, ap, ap2, ◌∙◌, String, true, false, List, [], ◌∷◌, some,
  some-eq, Map, insert, Option, none, lookup, lookup-insert, NodupKeys, eq_iff, str_eq, length,
  get_elem?, set, Bool-cases, inl, inr, arith, if◌then◌else◌,
}
use payment_infrastructure.Base.Int.{pos}
use payment_infrastructure.Base.Float.{Float64}
use payment_infrastructure.Contract.Feature.{FeatureVector}
use payment_infrastructure.Scoring.{
  Exponential, HeuristicScorer, LeavesScorer, is_clear, value_of, logistic, add_weights,
  heuristic_score, to_vector, ablate, ablate_all, leaves_score,
}

get-within :
    {A : Type 0} (xs : List A) (i : ℕ) → suc i ≤ length xs → (x : A) × (get_elem? xs i ≡ some x)
get-within [] i h = absurd (omega (arith, h))
get-within (x ∷ xs) zero h = (x, refl)
get-within (x ∷ xs) (suc i) h = get-within xs i (omega (arith, h))

set_back :
    {A : Type 0} (xs : List A) (i : ℕ) (x y : A)
    → get_elem? xs i ≡ some x
    → set (set xs i y) i x ≡ xs
set_back [] i x y h = refl
set_back (z ∷ xs) zero x y h = ap (λ w. w ∷ xs) (sym (some-eq h))
set_back (z ∷ xs) (suc i) x y h = ap (λ ws. z ∷ ws) (set_back xs i x y h)

module _ {F : Type 0} ⦃f : Float64 F⦄ where
  -- The vectors have the same features that are CLEAR, with the same values.
  pub record IsSameWhereClear (fv1 fv2 : FeatureVector F) : Type 0 where
    pub same_clear : (id : String) → is_clear fv1 id ≡ is_clear fv2 id
    pub same_value : (id : String) → is_clear fv1 id ≡ true → value_of fv1 id ≡ value_of fv2 id

  -- The attribution of every column: the score without that column, taken from the score.
  unfoldable pub attributions :
      (List F → F) → List F → FeatureVector F → List String → (i : ℕ) → Map F → Map F
  attributions predict vals fv [] i out = out
  attributions predict vals fv (id ∷ ids) i out =
      let skipped = attributions predict vals fv ids (suc i) out in
      let added =
        attributions predict vals fv ids (suc i)
          (insert id (f.minus (predict vals) (predict (set vals i (f.of_int (pos 0))))) out) in
      if is_clear fv id then added else skipped

  ablate_restores :
      (predict : List F → F) (vals : List F) (id : String) (i : ℕ) (out : Map F)
      → suc i ≤ length vals
      → ablate predict (predict vals) id i (vals, out)
        ≡ (vals, insert id (f.minus (predict vals) (predict (set vals i (f.of_int (pos 0))))) out)
  unfolding ablate
  ablate_restores predict vals id i out h =
      let (x, at) = get-within vals i h in
      let out' = insert id (f.minus (predict vals) (predict (set vals i (f.of_int (pos 0))))) out in
      rw (ablate, at) (ap (λ vs. (vs, out')) (set_back vals i x (f.of_int (pos 0)) at))

  ablate_all-attributions :
      (predict : List F → F) (vals : List F) (fv : FeatureVector F) (ids : List String) (i : ℕ)
      (out : Map F)
      → i + length ids ≤ length vals
      → ablate_all predict (predict vals) fv ids i (vals, out)
        ≡ (vals, attributions predict vals fv ids i out)
  unfolding ablate_all attributions
  ablate_all-attributions predict vals fv [] i out h = refl
  ablate_all-attributions predict vals fv (id ∷ ids) i out h = elim (Bool-cases (is_clear fv id)) [
    | inl e ↦ rw e (
        ap (ablate_all predict (predict vals) fv ids (suc i))
          (ablate_restores predict vals id i out (omega (arith, h)))
        ∙ ablate_all-attributions predict vals fv ids (suc i) _ (omega (arith, h)))
    | inr e ↦ rw e (ablate_all-attributions predict vals fv ids (suc i) out (omega (arith, h)))
  ]

  length-to_vector :
      (fv : FeatureVector F) (ids : List String) → length (to_vector fv ids) ≡ length ids
  unfolding to_vector
  length-to_vector fv [] = refl
  length-to_vector fv (id ∷ ids) = ap suc (length-to_vector fv ids)

  own_attributions :
      (s : LeavesScorer F) (fv : FeatureVector F)
      → leaves_score s fv ≡ (
          let vals = to_vector fv s.feature_order in
          (s.predict vals, attributions s.predict vals fv s.feature_order 0 []))
  unfolding leaves_score
  own_attributions s fv =
      let size = length-to_vector fv s.feature_order in
      ap (λ out. (s.predict (to_vector fv s.feature_order), out.1))
        (ablate_all-attributions s.predict (to_vector fv s.feature_order) fv s.feature_order 0 []
          (omega (arith, size)))

-- An order in which a call ranges over a map: every key is found with its value, and stands once.
pub record IsRange {F : Type 0} (range : Map F → Map F) (m : Map F) : Type 0 where
  pub same_entries : (id : String) → lookup id (range m) ≡ lookup id m
  pub once : NodupKeys (range m)

module _ {F : Type 0} ⦃f : Float64 F⦄ where
  -- What a feature adds to the logit, if it adds something.
  abbrev weighted : FeatureVector F → String → Option F → Option F → Option F
  weighted fv id none otherwise = otherwise
  weighted fv id (some w) otherwise =
      if is_clear fv id then some (f.times w (value_of fv id)) else otherwise

  abbrev pub contribution : HeuristicScorer F → FeatureVector F → String → Option F
  contribution h fv id = weighted fv id (lookup id h.weights) none

  add_weights-lookup :
      (fv : FeatureVector F) (id : String) (ws : Map F) (acc : Map F × F)
      → NodupKeys ws
      → lookup id (add_weights fv ws acc).0 ≡ weighted fv id (lookup id ws) (lookup id acc.0)
  unfolding add_weights lookup
  add_weights-lookup fv id [] acc h = refl
  add_weights-lookup fv id (entry ∷ rest) acc (fresh, h) =
      let c = f.times entry.1 (value_of fv entry.0) in
      let acc' : Map F × F = (insert entry.0 c acc.0, f.plus acc.1 c) in
      let kept = add_weights-lookup fv id rest acc h in
      let added = add_weights-lookup fv id rest acc' h in
      let stored = lookup-insert entry.0 id c acc.0 in
      elim (Bool-cases (str_eq entry.0 id)) [
        | inl same ↦
            let at : entry.0 ≡ id = ground (arith, eq_iff entry.0 id) in
            let gone : lookup id rest ≡ none = ap (λ k. lookup k rest) (sym at) ∙ fresh in
            elim (Bool-cases (is_clear fv entry.0)) [
              | inl e ↦
                  let clear : is_clear fv id ≡ true = ap (is_clear fv) (sym at) ∙ e in
                  let hit : lookup id acc'.0 ≡ some c = rw (stored, same) refl in
                  rw (e, same, clear)
                    (added
                      ∙ ap (λ w. weighted fv id w (lookup id acc'.0)) gone
                      ∙ hit
                      ∙ ap (λ k. some (f.times entry.1 (value_of fv k))) at)
              | inr e ↦
                  let unclear : is_clear fv id ≡ false = ap (is_clear fv) (sym at) ∙ e in
                  rw (e, same, unclear) (kept ∙ ap (λ w. weighted fv id w (lookup id acc.0)) gone)
            ]
        | inr apart ↦ elim (Bool-cases (is_clear fv entry.0)) [
          | inl e ↦
              let missed : lookup id acc'.0 ≡ lookup id acc.0 = rw (stored, apart) refl in
              rw (e, apart) (added ∙ ap (weighted fv id (lookup id rest)) missed)
          | inr e ↦ rw (e, apart) kept
        ]
      ]

  contributions_of :
      (x : Exponential F) (range : Map F → Map F) (h : HeuristicScorer F) (fv : FeatureVector F)
      → IsRange range h.weights
      → (id : String) → lookup id (heuristic_score x range h fv).1 ≡ contribution h fv id
  unfolding heuristic_score lookup
  contributions_of x range h fv is id =
      add_weights-lookup fv id (range h.weights) ([], h.bias) is.once
      ∙ ap (λ w. weighted fv id w none) (is.same_entries id)

module _ {F : Type 0} ⦃f : Float64 F⦄ {fv1 fv2 : FeatureVector F}
    (same : IsSameWhereClear fv1 fv2) where
  same_vector : (ids : List String) → to_vector fv1 ids ≡ to_vector fv2 ids
  unfolding to_vector
  same_vector [] = refl
  same_vector (id ∷ ids) = elim (Bool-cases (is_clear fv1 id)) [
    | inl e ↦
        let e2 : is_clear fv2 id ≡ true = sym (same.same_clear id) ∙ e in
        rw (e, e2) (ap2 (λ v vs. v ∷ vs) (same.same_value id e) (same_vector ids))
    | inr e ↦
        let e2 : is_clear fv2 id ≡ false = sym (same.same_clear id) ∙ e in
        rw (e, e2) (ap (λ vs. f.nan ∷ vs) (same_vector ids))
  ]

  same_weights : (ws : Map F) (acc : Map F × F) → add_weights fv1 ws acc ≡ add_weights fv2 ws acc
  unfolding add_weights
  same_weights [] acc = refl
  same_weights (entry ∷ rest) acc = elim (Bool-cases (is_clear fv1 entry.0)) [
    | inl e ↦
        let e2 : is_clear fv2 entry.0 ≡ true = sym (same.same_clear entry.0) ∙ e in
        rw (e, e2)
          (ap
              (λ v.
                add_weights fv1 rest
                  (insert entry.0 (f.times entry.1 v) acc.0, f.plus acc.1 (f.times entry.1 v)))
              (same.same_value entry.0 e)
            ∙ same_weights rest _)
    | inr e ↦
        let e2 : is_clear fv2 entry.0 ≡ false = sym (same.same_clear entry.0) ∙ e in
        rw (e, e2) (same_weights rest acc)
  ]

  same_attributions :
      (predict : List F → F) (vals : List F) (ids : List String) (i : ℕ) (out : Map F)
      → attributions predict vals fv1 ids i out ≡ attributions predict vals fv2 ids i out
  unfolding attributions
  same_attributions predict vals [] i out = refl
  same_attributions predict vals (id ∷ ids) i out = elim (Bool-cases (is_clear fv1 id)) [
    | inl e ↦
        let e2 : is_clear fv2 id ≡ true = sym (same.same_clear id) ∙ e in
        rw (e, e2) (same_attributions predict vals ids (suc i) _)
    | inr e ↦
        let e2 : is_clear fv2 id ≡ false = sym (same.same_clear id) ∙ e in
        rw (e, e2) (same_attributions predict vals ids (suc i) out)
  ]

  -- Take two feature vectors that have the same features CLEAR, with the same values of those. Under the
  -- hand-weighted scorer, calls that range over the weights in one order give both one score; in whatever
  -- order a call ranges, a feature's contribution is its weight times its value if it is CLEAR and has a
  -- weight, and it has none otherwise. Under the tree scorer both have one score and one set of
  -- contributions, which are, for each CLEAR feature, what the score loses when its column alone is set
  -- to 0, since every turn of the ablation puts the column back.
  pub scores_read_clear :
      (x : Exponential F) (range : Map F → Map F) (h : HeuristicScorer F) (s : LeavesScorer F)
      → IsRange range h.weights
      → ((heuristic_score x range h fv1).0 ≡ (heuristic_score x range h fv2).0)
        × ((id : String) → lookup id (heuristic_score x range h fv1).1 ≡ contribution h fv1 id)
        × ((id : String) → lookup id (heuristic_score x range h fv2).1 ≡ contribution h fv1 id)
        × (leaves_score s fv1 ≡ leaves_score s fv2)
        × (leaves_score s fv1 ≡ (
            let vals = to_vector fv1 s.feature_order in
            (s.predict vals, attributions s.predict vals fv1 s.feature_order 0 [])))
  unfolding heuristic_score lookup
  scores_read_clear x range h s is =
      let same_runs = same_weights (range h.weights) ([], h.bias) in
      let own : (id : String)
          → lookup id (heuristic_score x range h fv1).1 ≡ contribution h fv1 id =
        λ id. contributions_of x range h fv1 is id in
      let ids = s.feature_order in
      let vals = to_vector fv1 ids in
      (
        ap (λ out. logistic x out.1) same_runs,
        own,
        λ id. ap (λ out. lookup id out.0) (sym same_runs) ∙ own id,
        own_attributions s fv1
            ∙ ap (λ out. (s.predict vals, out)) (same_attributions s.predict vals ids 0 [])
            ∙ ap (λ vs. (s.predict vs, attributions s.predict vs fv2 ids 0 [])) (same_vector ids)
            ∙ sym (own_attributions s fv2),
        own_attributions s fv1,
      )
