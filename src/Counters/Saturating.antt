-- ===== src/Counters/Saturating.antt =====
-- go/protocol_fallback.go and go/stats.go: addition that stops at the largest int64 and subtraction
-- that stops at 0, and the cache counts of a request.
use cpa_usage_plugin.Common.{
  ap, sym, ◌∙◌, ℕ, ◌+◌, ◌-◌, ◌≤◌, ◌≡◌, Option, none, some, ltb, leb, if◌then◌else◌, arith,
  Bool-cases, inl, inr, min,
}
use cpa_usage_plugin.Common.Int.{ℤ, pos, negsuc, max_int64, non_negative}
use cpa_usage_plugin.Counters.{TokenStats}

-- nonNegativeInt64
abbrev pub non_negative_int64 : ℤ → ℤ
non_negative_int64 n = pos (non_negative n)

-- maxInt64 of two int64
unfoldable pub max_of : ℤ → ℤ → ℤ
max_of (pos a) (pos b) = if ltb b a then pos a else pos b
max_of (pos a) (negsuc b) = pos a
max_of (negsuc a) (pos b) = pos b
max_of (negsuc a) (negsuc b) = if ltb a b then negsuc a else negsuc b

-- checkedProtocolAdd
unfoldable pub checked_protocol_add : ℤ → ℤ → Option ℤ
checked_protocol_add (pos a) (pos b) = if ltb (max_int64 - b) a then none else some (pos (a + b))
checked_protocol_add (pos a) (negsuc b) = none
checked_protocol_add (negsuc a) b = none

-- saturatingProtocolAdd, and addNonNegativeInt64 which is the same
unfoldable pub saturating_protocol_add : ℤ → ℤ → ℤ
saturating_protocol_add left right =
    elim (checked_protocol_add (non_negative_int64 left) (non_negative_int64 right)) [
      | some value ↦ value
      | none ↦ pos max_int64
    ]

-- subtractNonNegativeInt64
unfoldable pub subtract_non_negative : ℤ → ℤ → ℤ
subtract_non_negative left right =
    if leb (non_negative left) (non_negative right)
    then pos 0
    else pos (non_negative left - non_negative right)

-- normalizedCacheTokens
unfoldable pub normalized_cache_tokens : TokenStats → ℤ
normalized_cache_tokens t =
    let cached = non_negative_int64 t.cached_tokens in
    let written = non_negative_int64 t.cache_write_tokens in
    let both = non_negative_int64 t.cache_tokens in
    if ltb 0 (non_negative t.cache_tokens)
    then max_of both (max_of cached written)
    else saturating_protocol_add cached written

-- normalizedCacheReadTokens
unfoldable pub normalized_cache_read_tokens : TokenStats → ℤ
normalized_cache_read_tokens t =
    let cached = non_negative t.cached_tokens in
    if ltb 0 cached
    then pos cached
    else pos (non_negative t.cache_tokens - non_negative t.cache_write_tokens)

-- An int64 is at most the largest one.
abbrev pub IsInt64 : ℤ → Type 0
IsInt64 n = non_negative n ≤ max_int64

pub saturating_protocol_add-min :
    (a b : ℤ)
    → IsInt64 a
    → IsInt64 b
    → saturating_protocol_add a b ≡ pos (min (non_negative a + non_negative b) max_int64)
unfolding saturating_protocol_add checked_protocol_add
saturating_protocol_add-min a b ha hb =
    elim (Bool-cases (ltb (max_int64 - non_negative b) (non_negative a))) [
      | inl e ↦ rw (e, saturating_protocol_add) (ground (arith, e))
      | inr e ↦ rw (e, saturating_protocol_add) (ground (arith, e))
    ]

-- A counter that is not negative, with room for the addition.
pub record Fits (a b : ℤ) : Type 0 where
  pub counter : a ≡ pos (non_negative a)
  pub room : non_negative a + non_negative b ≤ max_int64

back : (n m : ℕ) → (if leb (n + m) m then pos 0 else pos (n + m - m)) ≡ pos n
back n m = elim (Bool-cases (leb (n + m) m)) [
  | inl e ↦ rw e (ap pos (ground (arith, e)))
  | inr e ↦ rw e (ap pos (omega arith))
]

-- Subtracting what was added gives the counter back, for a counter that is not negative and has room
-- for it.
pub subtract-add : (a b : ℤ) → Fits a b → subtract_non_negative (saturating_protocol_add a b) b ≡ a
unfolding subtract_non_negative
subtract-add a b fits =
    let sum =
      saturating_protocol_add-min a b (omega (arith, fits.room)) (omega (arith, fits.room)) in
    let whole : min (non_negative a + non_negative b) max_int64 ≡ non_negative a + non_negative b =
      omega (arith, fits.room) in
    rw (sum, whole) (back (non_negative a) (non_negative b) ∙ sym fits.counter)
