-- ===== src/Common/Instant.antt =====
-- Instants and durations of Go's time package, as natural numbers.
use cpa_usage_plugin.Common.Tests.{◌==◌}
use cpa_usage_plugin.Common.Int.{max_int64}
use Prim.Native.Nat.{ℕ, ◌-◌, ◌*◌, min}
use mathlib.Core.Bool.{Bool}

-- An instant is a number of nanoseconds from an origin some 3000 years before Go's zero time, so
-- that the instants in use, less the durations in use, are natural numbers.
abbrev pub zero_time : ℕ
zero_time = 100000000000000000000

abbrev pub is_zero : ℕ → Bool
is_zero t = t == zero_time

abbrev pub second : ℕ
second = 1000000000

abbrev pub minute : ℕ
minute = 60 * second

-- The length of a window of `n` seconds.
abbrev pub seconds : ℕ → ℕ
seconds n = n * second

-- `later.Sub(earlier)` where the code only asks how far it is above zero; it saturates as int64.
abbrev pub time_sub : ℕ → ℕ → ℕ
time_sub later earlier = min (later - earlier) max_int64
