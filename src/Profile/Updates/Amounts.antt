-- ===== src/Profile/Updates/Amounts.antt =====
-- go/internal/profile/store.go and helpers.go: the running amount of a pair.
use payment_infrastructure.Base.{
  ℕ, ◌+◌, ◌-◌, ◌/◌, ◌^◌, ◌≤◌, ◌<◌, ◌≡◌, arith, ltb, Bool-cases, inl, inr,
}
use payment_infrastructure.Base.Int.{pos, add64, sub64, wrap64, ◌+ℤ◌, ◌-ℤ◌}
use payment_infrastructure.Features.Clock.{quot}
use payment_infrastructure.Profile.Updates.{next_amt_p95}

-- The next amount of a pair lies between its last one and the payment's.
pub next_amt_p95_bounds :
    (c a : ℕ)
    → 0 < c
    → c < 2 ^ 63
    → a < 2 ^ 63
    → (n : ℕ) × (next_amt_p95 (pos c) (pos a) ≡ pos n)
      × (c ≤ a → (c ≤ n) × (n ≤ a))
      × (a ≤ c → (a ≤ n) × (n ≤ c))
unfolding next_amt_p95 quot add64 sub64 wrap64 ◌+ℤ◌ ◌-ℤ◌
next_amt_p95_bounds c a some_c small_c small_a = elim (Bool-cases (ltb c a)) [
  | inl up ↦
      (c + (a - c) / 3, ground arith, (λ h. (omega arith, omega arith)), λ h. absurd (ground arith))
  | inr down ↦
      (c - (c - a) / 10, ground arith, (λ h. ground arith), λ h. (omega arith, omega arith))
]
