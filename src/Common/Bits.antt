-- ===== src/Common/Bits.antt =====
-- Facts about seven-bit masks, checked over all their values.
use Prim.Native.Nat.{ℕ, zero, suc, ◌≤◌, ◌+◌, ◌/◌, ◌%◌, ◌^◌, ◌<◌, bit_and, bit_or}
use mathlib.Core.Path.{◌≡◌, refl}
use mathlib.Core.Bool.{Bool, true, false, ◌&&◌, ◌||◌, not}
use native.Mathlib.Omega.{arith}
use cpa_usage_plugin.Common.Tests.{ltb, leb, ltb→lt, ◌==◌}

each_below : ℕ → (ℕ → Bool) → Bool
each_below zero test = true
each_below (suc top) test = let lower = each_below top test in test top && lower

abbrev pub bool_eq : Bool → Bool → Bool
bool_eq true b = b
bool_eq false b = not b

bool_eq→eq : (a b : Bool) → bool_eq a b ≡ true → a ≡ b
bool_eq→eq a b h = ground arith

bool_eq_refl : (a : Bool) → bool_eq a a ≡ true
bool_eq_refl a = ground arith

each_below_at :
    (top : ℕ) (test : ℕ → Bool) (i : ℕ) → each_below top test ≡ true → i < top → test i ≡ true
unfolding each_below
each_below_at zero test i all inside = absurd (omega arith)
each_below_at (suc top) test i all inside = ground (arith, all, inside, each_below_at top test i)

each_below_all : (n : ℕ) (p : ℕ → Bool) → ((x : ℕ) → x < n → p x ≡ true) → each_below n p ≡ true
unfolding each_below
each_below_all zero p h = refl
each_below_all (suc n) p h = rw (h n (omega arith), each_below_all n p (λ x lt. h x (omega arith)))

-- Bit `d` of the mask `m` is set.
unfoldable pub has_bit : ℕ → ℕ → Bool
has_bit m d = not (bit_and m (2 ^ d) == 0)

-- How many of the seven bits are set.
unfoldable pub pop_count : ℕ → ℕ
pop_count m = m % 2 + m / 2 % 2 + m / 4 % 2 + m / 8 % 2 + m / 16 % 2 + m / 32 % 2 + m / 64 % 2

abbrev or_row : ℕ → ℕ → ℕ → Bool
or_row m d e = bool_eq (has_bit (bit_or m (2 ^ d)) e) (d == e || has_bit m e)

or_table : each_below 128 (λ m. each_below 7 (λ d. each_below 7 (λ e. or_row m d e))) ≡ true
unfolding each_below has_bit
or_table = refl

abbrev share_row : ℕ → ℕ → ℕ → Bool
share_row m n d = not (has_bit m d && has_bit n d && bit_and m n == 0)

share_table : each_below 7 (λ d. each_below 128 (λ m. each_below 128 (λ n. share_row m n d))) ≡ true
unfolding each_below has_bit
share_table = refl

lt_table : each_below 128 (λ m. each_below 7 (λ d. ltb (bit_or m (2 ^ d)) 128)) ≡ true
unfolding each_below
lt_table = refl

abbrev ext_row : ℕ → ℕ → Bool
ext_row m n = not (each_below 7 (λ d. bool_eq (has_bit m d) (has_bit n d))) || m == n

ext_table : each_below 128 (λ m. each_below 128 (λ n. ext_row m n)) ≡ true
unfolding each_below has_bit
ext_table = refl

abbrev count_row : ℕ → ℕ → Bool
count_row m d = has_bit m d || pop_count (bit_or m (2 ^ d)) == pop_count m + 1

count_table : each_below 128 (λ m. each_below 7 (λ d. count_row m d)) ≡ true
unfolding each_below has_bit pop_count
count_table = refl

full_table : each_below 128 (λ m. not (leb 7 (pop_count m)) || m == 127) ≡ true
unfolding each_below pop_count
full_table = refl

zero_table : each_below 7 (λ d. not (has_bit 0 d)) ≡ true
unfolding each_below has_bit
zero_table = refl

all_table : each_below 7 (λ d. has_bit 127 d) ≡ true
unfolding each_below has_bit
all_table = refl

module _ (m : ℕ) (h : m < 128) where
  pub has_bit-or :
      (d e : ℕ) → d < 7 → e < 7 → has_bit (bit_or m (2 ^ d)) e ≡ (d == e || has_bit m e)
  has_bit-or d e hd he =
      let row = each_below_at 7 _ d (each_below_at 128 _ m or_table h) hd in
      bool_eq→eq _ _ (each_below_at 7 _ e row he)

  pub or-lt : (d : ℕ) → d < 7 → bit_or m (2 ^ d) < 128
  or-lt d hd = ltb→lt _ _ (each_below_at 7 _ d (each_below_at 128 _ m lt_table h) hd)

  pub pop_count-or :
      (d : ℕ) → d < 7 → has_bit m d ≡ false → pop_count (bit_or m (2 ^ d)) ≡ pop_count m + 1
  pop_count-or d hd e =
      let row : count_row m d ≡ true =
        each_below_at 7 _ d (each_below_at 128 _ m count_table h) hd in
      ground (arith, row, e)

  pub pop_count_full : 7 ≤ pop_count m → m ≡ 127
  pop_count_full e =
      let row : (not (leb 7 (pop_count m)) || m == 127) ≡ true =
        each_below_at 128 _ m full_table h in
      ground (arith, row, e)

  module _ (n : ℕ) (k : n < 128) where
    -- Masks with the same seven bits are equal.
    pub mask_ext : ((d : ℕ) → d < 7 → has_bit m d ≡ has_bit n d) → m ≡ n
    mask_ext same =
        let row : ext_row m n ≡ true =
          each_below_at 128 _ n (each_below_at 128 _ m ext_table h) k in
        let agree =
          each_below_all 7 (λ d. bool_eq (has_bit m d) (has_bit n d))
            (λ d hd. rw (same d hd) (bool_eq_refl (has_bit n d))) in
        ground (arith, row, agree)

    -- Two masks with a common bit meet.
    pub share-ne-zero :
        (d : ℕ) → d < 7 → has_bit m d ≡ true → has_bit n d ≡ true → (bit_and m n == 0) ≡ false
    share-ne-zero d hd p q =
        let row : share_row m n d ≡ true =
          each_below_at 128 _ n (each_below_at 128 _ m (each_below_at 7 _ d share_table hd) h) k in
        ground (arith, row, p, q)

pub has_bit-zero : (d : ℕ) → d < 7 → has_bit 0 d ≡ false
has_bit-zero d hd =
    let row = each_below_at 7 (λ d. not (has_bit 0 d)) d zero_table hd in ground (arith, row)

pub has_bit-all : (d : ℕ) → d < 7 → has_bit 127 d ≡ true
has_bit-all d hd = each_below_at 7 (λ d. has_bit 127 d) d all_table hd
