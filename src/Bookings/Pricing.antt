-- ===== src/Bookings/Pricing.antt =====
-- The lengths and prices of a lesson (bookings.go).
use find_language_tutor.Prelude.{ℕ, ◌+◌, ◌*◌, ◌≤◌, ◌<◌, Bool, ◌||◌, ◌==◌, arith}
use find_language_tutor.Prelude.Words.{add64, mul64, quot64, int64_min}
use find_language_tutor.Slots.{Money}
use Prim.Native.String.{String}

abbrev pub trial_duration_minutes : ℕ
trial_duration_minutes = 30

abbrev pub default_duration_minutes : ℕ
default_duration_minutes = 60

abbrev pub default_window_days : ℕ
default_window_days = 14

abbrev pub max_window_days : ℕ
max_window_days = 21

unfoldable pub allowed_duration : ℕ → Bool
allowed_duration d = d == 30 || d == 60 || d == 90 || d == 120

unfoldable pub hourly_amount : ℕ → ℕ → ℕ
unfolding add64 mul64 quot64
hourly_amount per_hour_minor duration_minutes =
    quot64 (add64 (mul64 per_hour_minor duration_minutes) 30) 60

unfoldable pub hourly_price : ℕ → ℕ → String → Money
unfolding hourly_amount
hourly_price per_hour_minor duration_minutes currency = record {
  amount_minor = hourly_amount per_hour_minor duration_minutes;
  currency = currency;
}

-- The price of a lesson is the hourly price times its length, rounded to the nearest minor unit
-- with halves up, as long as the product stays below 2 ^ 63 - 30.
pub hourly_amount_rounds :
    (p d : ℕ)
    → p * d + 30 < int64_min
    → let a = hourly_amount p d in (60 * a ≤ p * d + 30) × (p * d < 60 * a + 30)
unfolding hourly_amount
hourly_amount_rounds p d h = ground arith
