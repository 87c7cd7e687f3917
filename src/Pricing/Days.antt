-- ===== src/Pricing/Days.antt =====
-- go/stats.go, normalizedRuleDays and modelPriceRuleDayMask: the weekdays of a rule.
use Prim.Native.Nat.{bit_or}
use cpa_usage_plugin.Common.{
  ℕ, ◌+◌, ◌^◌, ◌<◌, ◌≡◌, refl, sym, ap, ◌∙◌, Bool, true, false, ◌||◌, List, [], ◌∷◌, ◌++◌, ltb, leb,
  ◌==◌, if◌then◌else◌, arith, length, All, Bool-cases, inl, inr,
}
use cpa_usage_plugin.Common.Int.{ℤ, pos, negsuc}
use cpa_usage_plugin.Common.Bits.{
  has_bit, pop_count, has_bit-or, or-lt, pop_count-or, pop_count_full, mask_ext, has_bit-zero,
}
use cpa_usage_plugin.Pricing.{
  all_weekdays_mask, mask_day, mask_days, day_mask, contains_day, collect_days, insert_day,
  sort_days, as_days, normalized_rule_days,
}

mask_day-lt : (mask : ℕ) (d : ℤ) → mask < 128 → mask_day mask d < 128
mask_day-lt mask (pos d) h = ground (arith, or-lt mask h d)
mask_day-lt mask (negsuc d) h = h

pub mask_days-lt : (mask : ℕ) (ds : List ℤ) → mask < 128 → mask_days mask ds < 128
unfolding mask_days
mask_days-lt mask [] h = h
mask_days-lt mask (d ∷ ds) h = mask_days-lt (mask_day mask d) ds (mask_day-lt mask d h)

-- The days of a rule's mask.
unfoldable pub mentions : List ℤ → ℕ → Bool
mentions [] e = false
mentions (pos d ∷ ds) e = d == e || mentions ds e
mentions (negsuc d ∷ ds) e = mentions ds e

pub has_bit-mask_days :
    (mask : ℕ) (ds : List ℤ) (e : ℕ)
    → mask < 128
    → e < 7
    → has_bit (mask_days mask ds) e ≡ (has_bit mask e || mentions ds e)
unfolding mask_days mentions
has_bit-mask_days mask [] e h k = ground arith
has_bit-mask_days mask (negsuc d ∷ ds) e h k = has_bit-mask_days mask ds e h k
has_bit-mask_days mask (pos d ∷ ds) e h k =
    has_bit-mask_days (mask_day mask (pos d)) ds e (mask_day-lt mask (pos d) h) k
    ∙ ground (arith, has_bit-or mask h d e)

-- What `collect_days` returns: each day of the week once, those seen and those that follow.
unfoldable pub IsWeek : List ℕ → Type 0
IsWeek = All (λ d. d < 7)

All-concat : (xs : List ℕ) (d : ℕ) → IsWeek xs → d < 7 → IsWeek (xs ++ d ∷ [])
unfolding IsWeek
All-concat [] d h k = (k, tt)
All-concat (x ∷ xs) d h k = (h.0, All-concat xs d h.1 k)

unfoldable pub distinct : List ℕ → Bool
distinct [] = true
distinct (d ∷ ds) = if contains_day ds d then false else distinct ds

contains-append :
    (xs : List ℕ) (d e : ℕ) → contains_day (xs ++ d ∷ []) e ≡ (contains_day xs e || d == e)
contains-append [] d e = ground arith
contains-append (x ∷ xs) d e = ground (arith, contains-append xs d e)

pub contains-collect_days :
    (seen : List ℕ) (ds : List ℤ) (e : ℕ)
    → e < 7
    → contains_day (collect_days seen ds) e ≡ (contains_day seen e || mentions ds e)
unfolding collect_days mentions
contains-collect_days seen [] e k = ground arith
contains-collect_days seen (negsuc d ∷ ds) e k = contains-collect_days seen ds e k
contains-collect_days seen (pos d ∷ ds) e k =
    contains-collect_days (if ltb 6 d || contains_day seen d then seen else seen ++ d ∷ []) ds e k
    ∙ ground (arith, contains-append seen d e)

pub collect_days-IsWeek :
    (seen : List ℕ) (ds : List ℤ) → IsWeek seen → IsWeek (collect_days seen ds)
unfolding collect_days IsWeek
collect_days-IsWeek seen [] h = h
collect_days-IsWeek seen (negsuc d ∷ ds) h = collect_days-IsWeek seen ds h
collect_days-IsWeek seen (pos d ∷ ds) h =
    collect_days-IsWeek (if ltb 6 d || contains_day seen d then seen else seen ++ d ∷ []) ds
      (elim (Bool-cases (ltb 6 d || contains_day seen d)) [
        | inl skip ↦ rw skip h
        | inr fresh ↦ rw fresh (All-concat seen d h (ground arith))
      ])

distinct-concat :
    (xs : List ℕ) (d : ℕ)
    → distinct xs ≡ true
    → contains_day xs d ≡ false
    → distinct (xs ++ d ∷ []) ≡ true
unfolding distinct
distinct-concat [] d h k = refl
distinct-concat (x ∷ xs) d h k = ground (arith, distinct-concat xs d, contains-append xs d x)

pub collect_days-distinct :
    (seen : List ℕ) (ds : List ℤ) → distinct seen ≡ true → distinct (collect_days seen ds) ≡ true
unfolding collect_days
collect_days-distinct seen [] h = h
collect_days-distinct seen (negsuc d ∷ ds) h = collect_days-distinct seen ds h
collect_days-distinct seen (pos d ∷ ds) h =
    collect_days-distinct (if ltb 6 d || contains_day seen d then seen else seen ++ d ∷ []) ds
      (ground (arith, distinct-concat seen d))

-- Sorting keeps the days.
contains-insert_day :
    (d e : ℕ) (ds : List ℕ) → contains_day (insert_day d ds) e ≡ (d == e || contains_day ds e)
unfolding insert_day
contains-insert_day d e [] = ground arith
contains-insert_day d e (x ∷ ds) = ground (arith, contains-insert_day d e ds)

pub contains-sort_days : (ds : List ℕ) (e : ℕ) → contains_day (sort_days ds) e ≡ contains_day ds e
unfolding sort_days
contains-sort_days [] e = refl
contains-sort_days (d ∷ ds) e =
    ground (arith, contains-insert_day d e (sort_days ds), contains-sort_days ds e)

mentions-as_days : (ds : List ℕ) (e : ℕ) → mentions (as_days ds) e ≡ contains_day ds e
unfolding mentions
mentions-as_days [] e = refl
mentions-as_days (d ∷ ds) e = ground (arith, mentions-as_days ds e)

-- A distinct list of weekdays sets as many bits as it has days.
pop_count-mask_days :
    (mask : ℕ) (ds : List ℕ)
    → mask < 128
    → IsWeek ds
    → distinct ds ≡ true
    → ((e : ℕ) → e < 7 → contains_day ds e ≡ true → has_bit mask e ≡ false)
    → pop_count (mask_days mask (as_days ds)) ≡ pop_count mask + length ds
unfolding mask_days IsWeek distinct
pop_count-mask_days mask [] h w d f = omega arith
pop_count-mask_days mask (x ∷ ds) h (hx, w) d f =
    let small : leb x 6 ≡ true = ground arith in
    let fresh : has_bit mask x ≡ false = f x hx (ground arith) in
    rw (small, mask_days)
      (omega (
        arith,
        pop_count-or mask h x hx fresh,
        pop_count-mask_days (bit_or mask (2 ^ x)) ds (or-lt mask h x hx) w (ground arith)
            (λ e he c. ground (arith, has_bit-or mask h x e hx he, f e he)),
      ))

length-none : (xs : List ℕ) → length xs ≡ 0 → xs ≡ []
length-none [] h = refl
length-none (x ∷ xs) h = absurd (omega arith)

raw-eq :
    (xs ys : List ℤ)
    → ((e : ℕ) → e < 7 → mentions xs e ≡ mentions ys e)
    → mask_days 0 xs ≡ mask_days 0 ys
raw-eq xs ys h =
    mask_ext _ (mask_days-lt 0 xs (omega arith)) _ (mask_days-lt 0 ys (omega arith)) λ e he.
      ground (
        arith,
        has_bit-mask_days 0 xs e (omega arith) he,
        has_bit-mask_days 0 ys e (omega arith) he,
        h e he,
      )

pub day_mask-raw :
    (ds : List ℤ)
    → day_mask ds ≡ (if mask_days 0 ds == 0 then all_weekdays_mask else mask_days 0 ds)
unfolding day_mask
day_mask-raw [] = refl
day_mask-raw (d ∷ ds) = refl

pub day_mask-lt : (ds : List ℤ) → day_mask ds < 128
day_mask-lt ds = ground (arith, day_mask-raw ds, mask_days-lt 0 ds)

pub day_mask-none : day_mask [] ≡ all_weekdays_mask
unfolding day_mask
day_mask-none = refl

-- The mask of the collected days is the rule's, before the rule for an empty mask.
module _ (days : List ℤ) where
  unfoldable pub collected : List ℕ
  collected = collect_days [] days

  raw-collected : mask_days 0 (as_days collected) ≡ mask_days 0 days
  unfolding collected
  raw-collected =
      raw-eq _ days
        λ e he. mentions-as_days (collect_days [] days) e ∙ contains-collect_days [] days e he

  raw-sorted : mask_days 0 (as_days (sort_days collected)) ≡ mask_days 0 days
  raw-sorted =
      raw-eq _ (as_days collected) (λ e he.
        mentions-as_days (sort_days collected) e
        ∙ contains-sort_days collected e
        ∙ sym (mentions-as_days collected e))
      ∙ raw-collected

  pub pop_count-raw : pop_count (mask_days 0 days) ≡ length collected
  unfolding collected pop_count
  pop_count-raw =
      let h =
        pop_count-mask_days 0 collected (omega arith) (collect_days-IsWeek [] days week)
          (collect_days-distinct [] days once) (λ e he _. has_bit-zero e he) in
      omega (arith, h, ap pop_count raw-collected)
    where
      week : IsWeek []
      week = unfold IsWeek in tt

      once : distinct [] ≡ true
      once = unfold distinct in refl

  pub raw-none : length collected ≡ 0 → mask_days 0 days ≡ 0
  raw-none e =
      sym raw-collected
      ∙ unfold mask_days in ap (λ ds. mask_days 0 (as_days ds)) (length-none collected e)

-- The stored list selects the weekdays that the given list selects.
pub day_mask-normalized_rule_days :
    (days : List ℤ) → day_mask (normalized_rule_days days) ≡ day_mask days
unfolding normalized_rule_days collected
day_mask-normalized_rule_days days = elim (Bool-cases (length (collected days) == 0)) [
  | inl e ↦ ground (arith, e, day_mask-none, day_mask-raw days, raw-none days)
  | inr e ↦ elim (Bool-cases (length (collected days) == 7)) [
    | inl whole ↦
        let full = pop_count_full _ (mask_days-lt 0 days (omega arith)) in
        ground (arith, e, whole, day_mask-none, day_mask-raw days, pop_count-raw days, full)
    | inr part ↦
        let kept = as_days (sort_days (collect_days [] days)) in
        ground (arith, e, part, day_mask-raw kept, day_mask-raw days, raw-sorted days)
  ]
]
