-- ===== src/Novelty.antt =====
-- go/internal/novelty/engine.go: the reservoir of recent feature vectors, the reference distribution
-- that is taken from it, and the conformal p-value. A nil slice is `none`; a nil map of scales reads as
-- the empty one. The lock makes each operation one step.
pub mod Reservoir
pub mod Rank
use payment_infrastructure.Base.{
  ℕ, zero, suc, ◌+◌, ◌-◌, ◌*◌, ◌/◌, ◌%◌, String, Bool, true, false, not, ◌&&◌, ◌||◌, List, [], ◌∷◌,
  ◌++◌, Option, none, some, Map, lookup, insert, length, get_elem?, set, ltb, leb, ◌==◌, is_some,
  if◌then◌else◌,
}
use payment_infrastructure.Base.Int.{pos}
use payment_infrastructure.Base.Float.{Float64}
use payment_infrastructure.Base.Sort.{sort_floats, search_floats}
use payment_infrastructure.Features.Numbers.{Math}

abbrev pub max_calibration_size : ℕ
max_calibration_size = 1_500

abbrev pub k_neighbours : ℕ
k_neighbours = 10

abbrev pub min_calibration : ℕ
min_calibration = 200

abbrev pub refresh_every : ℕ
refresh_every = 50

abbrev pub alpha_sample_cap : ℕ
alpha_sample_cap = 500

pub record NoveltyEngine (F : Type 0) : Type 0 where
  pub pts : List (Map F)
  pub next : ℕ
  pub dims : Option (List String)
  pub scale : Map F
  pub alphas : Option (List F)
  pub ref : List (Map F)
  pub since_refresh : ℕ

pub record NoveltyResult (F : Type 0) : Type 0 where
  pub evaluated : Bool
  pub p_value : F
  pub knn_distance : F
  pub reason : String

abbrev pub dims_of : Option (List String) → List String
dims_of none = []
dims_of (some ds) = ds

abbrev pub cold_start : String
cold_start = "COLD_START — not enough recent traffic yet to say what normal looks like"

-- `NewEngine`, and what `Reset` leaves.
abbrev pub new_novelty : {F : Type 0} → NoveltyEngine F
new_novelty = record {
  pts = [];
  next = 0;
  dims = none;
  scale = [];
  alphas = none;
  ref = [];
  since_refresh = 0;
}

unfoldable pub reset : {F : Type 0} → NoveltyEngine F → NoveltyEngine F
reset e = record e {
  pts = [];
  next = 0;
  dims = none;
  scale = [];
  alphas = none;
  ref = [];
  since_refresh = 0;
}

module _ {F : Type 0} where
  -- The first observation names the dimensions.
  unfoldable pub name_dims : List String → NoveltyEngine F → NoveltyEngine F
  name_dims dims e = elim e.dims [ none ↦ record e { dims = some dims } | some ds ↦ e ]

  -- Where `Observe` puts a point: a full reservoir overwrites its place `next`.
  unfoldable pub keep_point : Map F → NoveltyEngine F → NoveltyEngine F
  keep_point p e =
      if ltb (length e.pts) max_calibration_size
      then record e { pts = e.pts ++ p ∷ [] }
      else record e { pts = set e.pts e.next p; next = (e.next + 1) % max_calibration_size }

  -- Every `stride`-th point, at most `cap` of them; the next one is taken after `wait` others.
  unfoldable pub every : (wait stride cap : ℕ) → List (Map F) → List (Map F)
  every wait stride cap [] = []
  every wait stride zero (p ∷ ps) = []
  every zero stride (suc cap) (p ∷ ps) = p ∷ every (stride - 1) stride cap ps
  every (suc wait) stride (suc cap) (p ∷ ps) = every wait stride (suc cap) ps

  unfoldable pub sample_of : List (Map F) → List (Map F)
  unfolding every
  sample_of pts =
      if ltb alpha_sample_cap (length pts)
      then (let stride = length pts / alpha_sample_cap in
          every 0 (if ltb stride 1 then 1 else stride) alpha_sample_cap pts)
      else pts

module _ {F : Type 0} ⦃f : Float64 F⦄ where
  -- A read within the bounds of a slice; no caller reads beyond them.
  abbrev pub at : List F → ℕ → F
  at xs i = elim (get_elem? xs i) [ none ↦ f.of_int (pos 0) | some x ↦ x ]

  -- The values of a dimension that are there and are numbers.
  unfoldable pub column : String → List (Map F) → List F
  column d [] = []
  column d (p ∷ ps) =
      let rest = column d ps in
      elim (lookup d p) [ none ↦ rest | some v ↦ if f.is_nan v then rest else v ∷ rest ]

  unfoldable pub sum : (F → F) → List F → F → F
  sum g [] acc = acc
  sum g (v ∷ vs) acc = sum g vs (f.plus acc (g v))

module _ {F : Type 0} ⦃f : Float64 F⦄ ⦃m : Math F⦄ where
  unfoldable pub robust_spread : List F → F
  unfolding sum
  robust_spread col =
      if ltb (length col) 4
      then f.of_int (pos 1)
      else (let s = sort_floats col in
          let n = length s in
          let iqr = f.minus (at s (3 * n / 4)) (at s (n / 4)) in
          let mean = f.over (sum (λ v. v) s (f.of_int (pos 0))) (f.of_int (pos n)) in
          let varsum = sum (λ v. f.times (f.minus v mean) (f.minus v mean)) s (f.of_int (pos 0)) in
          let sd = m.sqrt (f.over varsum (f.of_int (pos n))) in
          if f.lt (f.decimal 1 9) iqr
          then iqr
          else if f.lt (f.decimal 1 9) sd
          then sd
          else f.of_int (pos 1))

  -- The divisor of a dimension.
  unfoldable pub scale_of : Map F → String → F
  scale_of scale d = elim (lookup d scale) [
    | none ↦ f.of_int (pos 1)
    | some v ↦ if f.lt (f.of_int (pos 0)) v then v else f.of_int (pos 1)
  ]

  -- What a dimension adds to the sum of squares: nothing, where it is missing on either side.
  unfoldable pub add_dimension : Map F → Map F → Map F → String → F → F
  unfolding scale_of
  add_dimension a b scale d acc = elim (lookup d a) [
    | none ↦ acc
    | some av ↦ elim (lookup d b) [
      | none ↦ acc
      | some bv ↦
          if f.is_nan av || f.is_nan bv
          then acc
          else (let diff = f.over (f.minus av bv) (scale_of scale d) in
              f.plus acc (f.times diff diff))
    ]
  ]

  unfoldable pub sum_squares : Map F → Map F → Map F → List String → F → F
  unfolding add_dimension
  sum_squares a b scale [] acc = acc
  sum_squares a b scale (d ∷ ds) acc = sum_squares a b scale ds (add_dimension a b scale d acc)

  unfoldable pub scaled_euclidean : Map F → Map F → List String → Map F → F
  unfolding sum_squares
  scaled_euclidean a b dims scale = m.sqrt (sum_squares a b scale dims (f.of_int (pos 0)))

  -- The distances to the points from number `i` on, but the one at `skip`.
  unfoldable pub distances :
      Map F → List String → Map F → List (Map F) → (i : ℕ) → (skip : Option ℕ) → List F
  unfolding scaled_euclidean
  distances target dims scale [] i skip = []
  distances target dims scale (p ∷ ps) i skip =
      let rest = distances target dims scale ps (suc i) skip in
      if elim skip [ none ↦ false | some s ↦ i == s ]
      then rest
      else scaled_euclidean target p dims scale ∷ rest

  unfoldable pub kth_smallest : List F → ℕ → F
  kth_smallest dists k =
      if length dists == 0
      then f.of_int (pos 0)
      else (let k' = if ltb (length dists) k then length dists else k in
          if ltb k' 1 then f.of_int (pos 0) else at (sort_floats dists) (k' - 1))

  unfoldable pub kth_distance :
      Map F → List String → Map F → List (Map F) → (k : ℕ) → (skip : Option ℕ) → F
  unfolding distances kth_smallest
  kth_distance target dims scale pts k skip =
      kth_smallest (distances target dims scale pts 0 skip) k

  unfoldable pub scales : List String → List (Map F) → Map F
  unfolding column robust_spread
  scales [] pts = []
  scales (d ∷ ds) pts = insert d (robust_spread (column d pts)) (scales ds pts)

  -- Each point's distance to its own neighbours, from number `i` on.
  unfoldable pub alphas_from : List String → Map F → (sample rest : List (Map F)) → (i : ℕ) → List F
  unfolding kth_distance
  alphas_from dims scale sample [] i = []
  alphas_from dims scale sample (p ∷ ps) i =
      kth_distance p dims scale sample k_neighbours (some i)
      ∷ alphas_from dims scale sample ps (suc i)

  unfoldable pub refresh_locked : NoveltyEngine F → NoveltyEngine F
  unfolding scales sample_of alphas_from
  refresh_locked e =
      let scale = scales (dims_of e.dims) e.pts in
      let sample = sample_of e.pts in
      record e {
        scale = scale;
        alphas = some (sort_floats (alphas_from (dims_of e.dims) scale sample sample 0));
        ref = sample;
      }

  unfoldable pub observe : Map F → List String → NoveltyEngine F → NoveltyEngine F
  unfolding keep_point name_dims refresh_locked
  observe values dims e =
      let kept = keep_point values (name_dims dims e) in
      let counted = record kept { since_refresh = kept.since_refresh + 1 } in
      if leb min_calibration (length counted.pts)
        && (not (is_some counted.alphas) || leb refresh_every counted.since_refresh)
      then record (refresh_locked counted) { since_refresh = 0 }
      else counted

  unfoldable pub not_evaluated_yet : NoveltyResult F
  not_evaluated_yet = record {
    evaluated = false;
    p_value = f.of_int (pos 0);
    knn_distance = f.of_int (pos 0);
    reason = cold_start;
  }

  -- The guard of `Evaluate` on what it has read under the lock.
  abbrev pub is_cold : NoveltyEngine F → List F → Bool
  is_cold e alphas = ltb (length e.pts) min_calibration || length alphas == 0 || length e.ref == 0

  -- The part of `Evaluate` after the guards.
  unfoldable pub ranked : Map F → List String → Map F → List F → List (Map F) → NoveltyResult F
  ranked values dims scale alphas ref =
      let alpha = kth_distance values dims scale ref k_neighbours none in
      let ge = length alphas - search_floats alphas alpha in
      record {
        evaluated = true;
        p_value = f.over (f.of_int (pos (ge + 1))) (f.of_int (pos (length alphas + 1)));
        knn_distance = alpha;
        reason = "";
      }

  unfoldable pub evaluate : Map F → NoveltyEngine F → NoveltyResult F
  unfolding ranked not_evaluated_yet
  evaluate values e = elim e.dims [
    | none ↦ not_evaluated_yet
    | some dims ↦ elim e.alphas [
      | none ↦ not_evaluated_yet
      | some alphas ↦
          if is_cold e alphas then not_evaluated_yet else ranked values dims e.scale alphas e.ref
    ]
  ]
