-- ===== src/Base/Sort.antt =====
-- Go's `sort.Float64s` and `sort.SearchFloat64s`. A sorted slice is determined by its items, so a sort
-- by insertion stands for it; a NaN stands before all numbers.
use payment_infrastructure.Base.Tests.{if◌then◌else◌}
use payment_infrastructure.Base.Lists.{length}
use payment_infrastructure.Base.Float.{Float64}
use Prim.Native.Nat.{ℕ, suc, ◌+◌}
use mathlib.Core.Path.{◌≡◌, refl}
use mathlib.Core.Bool.{Bool, true, false, not, ◌&&◌, ◌||◌}
use mathlib.Core.List.{List, [], ◌∷◌}
use native.Mathlib.Omega.{arith}

-- What IEEE 754 says of comparisons.
pub record IsOrdered (F : Type 0) ⦃f : Float64 F⦄ : Type 0 where
  pub asym : (x y : F) → f.lt x y ≡ true → f.lt y x ≡ false
  pub not_nan : (x y : F) → f.lt x y ≡ true → (f.is_nan x ≡ false) × (f.is_nan y ≡ false)
  pub le_not_nan : (x y : F) → f.le x y ≡ true → f.is_nan y ≡ false
  pub le_trans_not_lt :
      (x y z : F) → f.le x y ≡ true → f.is_nan z ≡ false → f.lt z y ≡ false → f.le x z ≡ true

module _ {F : Type 0} ⦃f : Float64 F⦄ where
  -- The order that `sort.Float64Slice` sorts by.
  unfoldable pub float_less : F → F → Bool
  float_less x y = f.lt x y || f.is_nan x && not (f.is_nan y)

  unfoldable pub insert_sorted : F → List F → List F
  insert_sorted x [] = x ∷ []
  insert_sorted x (y ∷ ys) = if float_less x y then x ∷ y ∷ ys else y ∷ insert_sorted x ys

  unfoldable pub sort_floats : List F → List F
  unfolding insert_sorted float_less
  sort_floats [] = []
  sort_floats (x ∷ xs) = insert_sorted x (sort_floats xs)

  -- The smallest index whose item is at least `x`, or the length.
  unfoldable pub search_floats : List F → F → ℕ
  search_floats [] x = 0
  search_floats (a ∷ as') x = if f.le x a then 0 else suc (search_floats as' x)

  -- How many items are at least `x`.
  unfoldable pub count_from : F → List F → ℕ
  count_from x [] = 0
  count_from x (a ∷ as') = (if f.le x a then 1 else 0) + count_from x as'

  -- No item is less than the one before it.
  abbrev pub IsAscending : List F → Type 0
  IsAscending [] = Unit
  IsAscending (x ∷ []) = Unit
  IsAscending (x ∷ y ∷ ys) = (float_less y x ≡ false) × IsAscending (y ∷ ys)

  module _ (o : IsOrdered F) where
    float_less_asym : (x y : F) → float_less x y ≡ true → float_less y x ≡ false
    unfolding float_less
    float_less_asym x y h = ground (arith, o.asym x y, o.not_nan x y, o.not_nan y x)

    insert_sorted-IsAscending :
        (x : F) (xs : List F) → IsAscending xs → IsAscending (insert_sorted x xs)
    unfolding insert_sorted
    insert_sorted-IsAscending x [] h = tt
    insert_sorted-IsAscending x (y ∷ []) h = ground (arith, float_less_asym x y)
    insert_sorted-IsAscending x (y ∷ z ∷ zs) h =
        ground (arith, float_less_asym x y, insert_sorted-IsAscending x (z ∷ zs) h.1)

    pub sort_floats-IsAscending : (xs : List F) → IsAscending (sort_floats xs)
    unfolding sort_floats
    sort_floats-IsAscending [] = tt
    sort_floats-IsAscending (x ∷ xs) =
        insert_sorted-IsAscending x (sort_floats xs) (sort_floats-IsAscending xs)

    le-float_less : (x y z : F) → f.le x y ≡ true → float_less z y ≡ false → f.le x z ≡ true
    unfolding float_less
    le-float_less x y z h k = ground (arith, o.le_not_nan x y, o.le_trans_not_lt x y z)

    count_from-all :
        (x a : F) (xs : List F)
        → f.le x a ≡ true
        → IsAscending (a ∷ xs)
        → count_from x (a ∷ xs) ≡ length (a ∷ xs)
    unfolding count_from
    count_from-all x a [] h asc = ground arith
    count_from-all x a (b ∷ bs) h asc =
        let next = le-float_less x a b h asc.0 in
        let ih = count_from-all x b bs next asc.1 in ground (arith, ih)

    -- In an ascending list, the items from the index on that the search finds are those at least `x`.
    pub search_floats-count_from :
        (x : F) (xs : List F) → IsAscending xs → search_floats xs x + count_from x xs ≡ length xs
    unfolding search_floats count_from
    search_floats-count_from x [] h = omega arith
    search_floats-count_from x (a ∷ []) h = ground arith
    search_floats-count_from x (a ∷ b ∷ bs) h =
        ground (arith, count_from-all x a (b ∷ bs), search_floats-count_from x (b ∷ bs) h.1)

  count_from-insert_sorted :
      (x y : F) (ys : List F) → count_from x (insert_sorted y ys) ≡ count_from x (y ∷ ys)
  unfolding insert_sorted count_from
  count_from-insert_sorted x y [] = refl
  count_from-insert_sorted x y (z ∷ zs) = ground (arith, count_from-insert_sorted x y zs)

  pub count_from-sort_floats :
      (x : F) (xs : List F) → count_from x (sort_floats xs) ≡ count_from x xs
  unfolding sort_floats count_from
  count_from-sort_floats x [] = refl
  count_from-sort_floats x (y ∷ ys) =
      ground (arith, count_from-insert_sorted x y (sort_floats ys), count_from-sort_floats x ys)

  length-insert_sorted : (y : F) (ys : List F) → length (insert_sorted y ys) ≡ suc (length ys)
  unfolding insert_sorted
  length-insert_sorted y [] = refl
  length-insert_sorted y (z ∷ zs) = ground (arith, length-insert_sorted y zs)

  pub length-sort_floats : (xs : List F) → length (sort_floats xs) ≡ length xs
  unfolding sort_floats
  length-sort_floats [] = refl
  length-sort_floats (y ∷ ys) =
      ground (arith, length-insert_sorted y (sort_floats ys), length-sort_floats ys)
