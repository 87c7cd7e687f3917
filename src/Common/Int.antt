-- ===== src/Common/Int.antt =====
-- Signed integers, `negsuc n` being -(n + 1), and the comparisons that the program makes.
use Prim.Native.Nat.{ℕ}
use mathlib.Core.Bool.{Bool, false}
use cpa_usage_plugin.Common.Tests.{ltb}

pub data ℤ : Type 0 where
  pos : ℕ → ℤ
  negsuc : ℕ → ℤ

-- The largest int64.
abbrev pub max_int64 : ℕ
max_int64 = 9223372036854775807

abbrev pub non_negative : ℤ → ℕ
non_negative (pos n) = n
non_negative (negsuc n) = 0

abbrev pub is_positive : ℤ → Bool
is_positive (pos n) = ltb 0 n
is_positive (negsuc n) = false
