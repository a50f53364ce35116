-- ===== src/Decide/Cost/Argmin.antt =====
-- go/internal/decide/cost_table.go: the chosen row is the cheapest one.
use native.Mathlib.Nat.{zero-add}
use payment_infrastructure.Base.{
  ℕ, zero, suc, ◌+◌, ◌≡◌, refl, ◌⊎◌, inl, inr, true, false, List, [], ◌∷◌, some, arith, All,
  get_elem?, Bool-cases,
}
use payment_infrastructure.Base.Int.{ℤ}
use payment_infrastructure.Base.Float.{Float64}
use payment_infrastructure.Contract.Action.{Action, allow}
use payment_infrastructure.Contract.Event.{Rail}
use payment_infrastructure.Decide.Policy.{Policy}
use payment_infrastructure.Decide.Cost.{
  cost_candidates, rows_of, best_from, cost_table, total_cost, choose, chosen_action,
}

-- What is used of `<` on floats. It holds with NaN among the values.
pub record IsStrict (F : Type 0) ⦃f : Float64 F⦄ : Type 0 where
  pub irrefl : (x : F) → f.lt x x ≡ false
  pub trans : (x y z : F) → f.lt x y ≡ true → f.lt y z ≡ true → f.lt x z ≡ true

module _ {F : Type 0} ⦃f : Float64 F⦄ (laws : IsStrict F) (total : Action → F) where
  open laws use {irrefl, trans}

  -- Nothing in the list is cheaper than `c`.
  abbrev NoneBelow : F → List Action → Type 0
  NoneBelow c = All λ a. f.lt (total a) c ≡ false

  abbrev Cheapest : List Action → ℕ → F → ℕ → ℕ → Type 0
  Cheapest xs i c b j =
      ((j ≡ b) × NoneBelow c xs)
      ⊎ ((k : ℕ) × (a : Action) × (j ≡ i + k)
          × (get_elem? xs k ≡ some a)
          × (f.lt (total a) c ≡ true)
          × NoneBelow (total a) xs)

  best_from-Cheapest :
      (xs : List Action) (i : ℕ) (c : F) (b : ℕ) → Cheapest xs i c b (best_from total xs i c b)
  unfolding best_from
  best_from-Cheapest [] i c b = inl (refl, tt)
  best_from-Cheapest (x ∷ xs) i c b = elim (Bool-cases (f.lt (total x) c)) [
    | inl lower ↦ rw lower (elim (best_from-Cheapest xs (suc i) (total x) i) [
      | inl (e, none_below) ↦ inr (0, x, omega arith, refl, lower, (irrefl (total x), none_below))
      | inr (k, a, e, at, less, none_below) ↦ inr (
        suc k,
        a,
        omega arith,
        at,
        trans (total a) (total x) c less lower,
        (ground (arith, trans (total a) (total x) (total a) less, irrefl (total a)), none_below),
      )
    ])
    | inr not_lower ↦ rw not_lower (elim (best_from-Cheapest xs (suc i) c b) [
      | inl (e, none_below) ↦ inl (e, (refl, none_below))
      | inr (k, a, e, at, less, none_below) ↦ inr (
        suc k,
        a,
        omega arith,
        at,
        less,
        (
          ground
              (arith, λ (h : f.lt (total x) (total a) ≡ true). trans (total x) (total a) c h less),
          none_below,
        ),
      )
    ])
  ]

module _ {F : Type 0} ⦃f : Float64 F⦄ (p : Policy F) (p_fraud : F) (rail : Rail) (amount : ℤ) where
  chosen_action-choose :
      (xs : List Action) (j : ℕ) (a : Action)
      → get_elem? xs j ≡ some a
      → chosen_action (choose (rows_of p p_fraud rail amount xs) j) ≡ a
  unfolding rows_of chosen_action
  chosen_action-choose [] j a h = cc
  chosen_action-choose (x ∷ xs) zero a h = cc
  chosen_action-choose (x ∷ xs) (suc j) a h = chosen_action-choose xs j a h

  -- If `<` on floats is strict and ALLOW's total lies below the largest float, the action that the cost table marks as chosen is
  -- a candidate, and no candidate has a lower total cost.
  pub cost_table_argmin :
      (laws : IsStrict F)
      → f.lt (total_cost p p_fraud rail amount allow) f.max_float ≡ true
      → (i : ℕ) × (a : Action) × (get_elem? cost_candidates i ≡ some a)
        × (chosen_action (cost_table p p_fraud rail amount) ≡ a)
        × All
            (λ c.
              f.lt (total_cost p p_fraud rail amount c) (total_cost p p_fraud rail amount a)
              ≡ false)
            cost_candidates
  unfolding cost_table
  cost_table_argmin laws below =
      elim (best_from-Cheapest laws (total_cost p p_fraud rail amount) cost_candidates 0 f.max_float
        0) [
          | inl (e, none_below) ↦ ground (arith, none_below.0)
          | inr (k, a, e, at_k, less, none_below) ↦ (
            k,
            a,
            at_k,
            chosen_action-choose cost_candidates _ a (rw (e, zero-add) at_k),
            none_below,
          )
        ]
