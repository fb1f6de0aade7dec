-- ===== src/Time.antt =====
-- `DateTime<Utc>` and durations of the `chrono` package, as integers of nanoseconds without bounds.
-- (Dates past the year 262142 and spans past 2 ^ 63 milliseconds, where chrono panics, are not
-- told apart from others.)
use stocks.Base.{ℕ, ◌*◌, ◌/◌}
use stocks.Base.Int.{ℤ, pos_part, neg_part, sub_ℕ, ◌-ℤ◌}

abbrev pub DateTime : Type 0
DateTime = ℤ

abbrev pub Span : Type 0
Span = ℤ

abbrev pub nanos_per_second : ℕ
nanos_per_second = 1_000_000_000

abbrev pub nanos_per_day : ℕ
nanos_per_day = 86_400_000_000_000

abbrev pub scaled : ℕ → ℤ → Span
scaled n a = sub_ℕ (pos_part a * n) (neg_part a * n)

-- `Duration::days`.
abbrev pub days : ℤ → Span
days = scaled nanos_per_day

-- `signed_duration_since`, also written as a difference of instants.
abbrev pub since : DateTime → DateTime → Span
since later earlier = later -ℤ earlier

-- `num_seconds`: whole seconds, towards zero.
abbrev pub num_seconds : Span → ℤ
num_seconds a = sub_ℕ (pos_part a / nanos_per_second) (neg_part a / nanos_per_second)
