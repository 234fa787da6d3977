-- ===== src/Clock.antt =====
-- Instants and durations (Go's package time). An instant is the number of nanoseconds since Go's
-- zero time, Monday 1 January of year 1, 00:00 UTC; a duration is a number of nanoseconds. Earlier
-- instants are not represented. `AddDate` by days and `Truncate` to a day act on UTC instants,
-- where every day has 24 hours.
use find_language_tutor.Prelude.{ℕ, ◌+◌, ◌-◌, ◌/◌, ◌%◌}

abbrev pub second : ℕ
second = 1_000_000_000

abbrev pub minute : ℕ
minute = 60_000_000_000

abbrev pub hour : ℕ
hour = 3_600_000_000_000

abbrev pub day : ℕ
day = 86_400_000_000_000

-- `t.Truncate(24 * time.Hour)`.
abbrev pub midnight : ℕ → ℕ
midnight t = t - t % day

-- `t.Weekday()`, 0 for Sunday.
abbrev pub weekday : ℕ → ℕ
weekday t = (t / day + 1) % 7
