-- ===== src/Decide/Cost/BreakEven.antt =====
-- go/internal/decide/cost_table.go: BreakEvenAmount's binary search.
use native.Mathlib.Nat.{pow-suc, one-le-pow}
use payment_infrastructure.Base.{
  ℕ, zero, suc, ◌+◌, ◌-◌, ◌*◌, ◌/◌, ◌^◌, ◌≤◌, ◌<◌, ◌≡◌, refl, ◌⊎◌, inl, inr, Bool, true, false,
  none, some, arith, ltb, if◌then◌else◌, Bool-cases, ltb→lt,
}
use payment_infrastructure.Base.Int.{ltb_ℤ, ◌≤ℤ◌, ◌<ℤ◌}
use payment_infrastructure.Contract.Action.{Action, ladder_index}
use payment_infrastructure.Decide.Cost.{bisect, reaches, break_even_with, max_amount}

-- `lo` passes the test, and the number below it, if there is one in the range, does not.
abbrev pub IsCrossing : (ℕ → Bool) → ℕ → ℕ → ℕ → Type 0
IsCrossing test start stop lo =
    (start ≤ lo) × (lo ≤ stop) × (test lo ≡ true) × ((lo ≡ start) ⊎ (test (lo - 1) ≡ false))

bisect-suc :
    (f : ℕ) (test : ℕ → Bool) (lo hi : ℕ)
    → bisect (suc f) test lo hi ≡ (
        if ltb lo hi
        then if test (lo + (hi - lo) / 2)
          then bisect f test lo (lo + (hi - lo) / 2)
          else bisect f test (lo + (hi - lo) / 2 + 1) hi
        else some lo)
unfolding bisect
bisect-suc f test lo hi = refl

halved : (k d : ℕ) → d < 2 ^ suc k → (d / 2 < 2 ^ k) × (d - (d / 2 + 1) < 2 ^ k)
halved k d h =
    let e : 2 ^ suc k ≡ 2 ^ k * 2 = pow-suc 2 k in
    (omega arith, omega (arith, one-le-pow k 2 (omega arith)))

add_sub_cancel : (n : ℕ) → n + 1 - 1 ≡ n
add_sub_cancel n = omega arith

leb_of_not_ltb : (a b : ℕ) → ltb a b ≡ false → b ≤ a
leb_of_not_ltb a b h = ground arith

module _ (test : ℕ → Bool) (start stop : ℕ) where
  abbrev Found : ℕ → ℕ → ℕ → Type 0
  Found fuel lo hi = (r : ℕ) × (bisect fuel test lo hi ≡ some r) × IsCrossing test start stop r

  bisect-Found :
      (k lo hi : ℕ)
      → start ≤ lo
      → lo ≤ hi
      → hi ≤ stop
      → hi - lo < 2 ^ k
      → test hi ≡ true
      → (lo ≡ start) ⊎ (test (lo - 1) ≡ false)
      → Found (suc k) lo hi
  bisect-Found zero lo hi a b c small top bottom =
      let e : lo ≡ hi = omega arith in
      (lo, rw bisect-suc (ground arith), (a, omega arith, rw e top, bottom))
  bisect-Found (suc k) lo hi a b c small top bottom = elim (Bool-cases (ltb lo hi)) [
    | inr same ↦
        let e : hi ≡ lo = omega (arith, leb_of_not_ltb lo hi same) in
        (lo, rw (bisect-suc (suc k) test lo hi, same), (a, omega arith, rw e at top, bottom))
    | inl more ↦ elim (Bool-cases (test (lo + (hi - lo) / 2))) [
      | inl passes ↦
          let (r, e, found) =
            bisect-Found k lo (lo + (hi - lo) / 2) a (omega arith)
              (omega (arith, ltb→lt lo hi more)) (omega (arith, halved k (hi - lo) small)) passes
              bottom in
          (r, rw (bisect-suc (suc k) test lo hi, more, passes) e, found)
      | inr fails ↦
          let less = ltb→lt lo hi more in
          let (r, e, found) =
            bisect-Found k (lo + (hi - lo) / 2 + 1) hi (omega arith) (omega arith) c
              (omega (arith, halved k (hi - lo) small)) top
              (inr (rw (add_sub_cancel (lo + (hi - lo) / 2)) fails)) in
          (r, rw (bisect-suc (suc k) test lo hi, more, fails) e, found)
    ]
  ]

-- `BreakEvenAmount` always ends. Either the action at the largest amount stands below the target, and it
-- reports no amount; or the action there reaches the target, and it reports an amount. The amount is at most the largest, the action there reaches the
-- target, and one paisa less does not, unless the amount is 0. This supposes nothing of how the action
-- depends on the amount.
pub break_even_lem :
    (action_at : ℕ → Action) (target : Action)
    → ((ladder_index (action_at max_amount) <ℤ ladder_index target)
        × (break_even_with action_at target ≡ some none))
      ⊎ ((ladder_index target ≤ℤ ladder_index (action_at max_amount))
          × (lo : ℕ) × (break_even_with action_at target ≡ some (some lo))
          × (lo ≤ max_amount)
          × (ladder_index target ≤ℤ ladder_index (action_at lo))
          × ((lo ≡ 0) ⊎ (ladder_index (action_at (lo - 1)) <ℤ ladder_index target)))
unfolding break_even_with reaches
break_even_lem action_at target =
    elim (Bool-cases (ltb_ℤ (ladder_index (action_at max_amount)) (ladder_index target))) [
      | inl short ↦ inl (ground arith, rw short)
      | inr enough ↦
          let (r, e, crossing) =
            bisect-Found (reaches action_at target) 0 max_amount 27 0 max_amount (omega arith)
              (omega arith) (omega arith) (omega arith) (reaches_of enough) (inl refl) in
          inr (
            ground arith,
            r,
            rw (enough, e),
            crossing.1,
            at_least r crossing.2,
            below_cases r crossing.3,
          )
    ]
  where
    reaches_of :
        ltb_ℤ (ladder_index (action_at max_amount)) (ladder_index target) ≡ false
        → reaches action_at target max_amount ≡ true
    reaches_of h = ground arith

    at_least :
        (r : ℕ)
        → reaches action_at target r ≡ true
        → ladder_index target ≤ℤ ladder_index (action_at r)
    at_least r h = ground arith

    below_cases :
        (r : ℕ)
        → (r ≡ 0) ⊎ (reaches action_at target (r - 1) ≡ false)
        → (r ≡ 0) ⊎ (ladder_index (action_at (r - 1)) <ℤ ladder_index target)
    below_cases r (inl e) = inl e
    below_cases r (inr e) = inr (ground arith)
