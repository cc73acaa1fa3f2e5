-- ===== src/Scheduler/Duration.antt =====
-- time.Duration: an int64 number of nanoseconds, kept as its two's complement bit pattern, a
-- number below 2 ^ 64; and time.Time: nanoseconds since Go's zero time, the start of year 1.
use pbvex.Base.{ℕ, ◌+◌, ◌-◌, ◌*◌, ◌^◌, ◌<◌, ltb, if◌then◌else◌}
pub use pbvex.Base.{sign_bit, wrap, lt_i64, le_i64}

-- A duration of zero or more.
abbrev pub NonNeg : ℕ → Type 0
NonNeg d = d < sign_bit

abbrev pub Positive : ℕ → Type 0
Positive d = (0 < d) × (d < sign_bit)

-- t.Add(d); instants before the start of year 1 are not represented.
abbrev pub add_time : ℕ → ℕ → ℕ
add_time t d = if ltb d sign_bit then t + d else t - (2 ^ 64 - d)

abbrev pub millisecond : ℕ
millisecond = 1000000

abbrev pub second : ℕ
second = 1000 * millisecond

abbrev pub minute : ℕ
minute = 60 * second

abbrev pub hour : ℕ
hour = 60 * minute
