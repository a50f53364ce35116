-- ===== src/Features/Clock.antt =====
-- go/internal/features/compute.go: the hour of the day. Go's `/` and `%` round towards 0.
use payment_infrastructure.Base.{ℕ, zero, suc, ◌-◌, ◌/◌, ◌%◌, ◌<◌, ◌≡◌, refl, arith, if◌then◌else◌}
use payment_infrastructure.Base.Int.{ℤ, pos, negsuc, sub_ℕ, ltb_ℤ, add64, wrap64, ◌+ℤ◌}

unfoldable pub quot : ℤ → ℕ → ℤ
quot (pos n) d = pos (n / d)
quot (negsuc n) d = sub_ℕ 0 (suc n / d)

unfoldable pub rem : ℤ → ℕ → ℤ
rem (pos n) d = pos (n % d)
rem (negsuc n) d = sub_ℕ 0 (suc n % d)

unfoldable pub hour_of_second : ℤ → ℤ
unfolding quot
hour_of_second sec_of_day =
    quot (if ltb_ℤ sec_of_day (pos 0) then add64 sec_of_day (pos 86_400) else sec_of_day) 3600

unfoldable pub hour_of_day : ℤ → ℤ
unfolding quot rem hour_of_second
hour_of_day ms = hour_of_second (rem (quot ms 1000) 86_400)

abbrev IsHour : ℤ → Type 0
IsHour hour = (h : ℕ) × (hour ≡ pos h) × (h < 24)

seconds_after : (n : ℕ) → n < 86_400 → IsHour (hour_of_second (pos n))
unfolding hour_of_second quot
seconds_after n h = (n / 3600, ground arith, omega arith)

seconds_before : (k : ℕ) → k < 86_400 → IsHour (hour_of_second (sub_ℕ 0 k))
unfolding hour_of_second quot add64 wrap64 ◌+ℤ◌
seconds_before zero h = (0, refl, omega arith)
seconds_before (suc j) h = ((86_400 - suc j) / 3600, ground arith, omega arith)

-- The hour of any time, also before 1970, is one of the 24.
pub hour_of_day_lem : (ms : ℤ) → IsHour (hour_of_day ms)
unfolding hour_of_day rem
hour_of_day_lem ms = in_day (quot ms 1000)
  where
    in_day : (seconds : ℤ) → IsHour (hour_of_second (rem seconds 86_400))
    in_day (pos n) = seconds_after (n % 86_400) (omega arith)
    in_day (negsuc n) = seconds_before (suc n % 86_400) (omega arith)
