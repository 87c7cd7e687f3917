-- ===== src/Pricing/Canonical.antt =====
-- go/stats.go, normalizedRuleDays: which lists of days are stored as the same list.
use cpa_usage_plugin.Common.{
  ℕ, ◌≤◌, ◌<◌, ◌≡◌, ◌↔◌, refl, sym, ap, ◌∙◌, Bool, true, false, ◌||◌, List, [], ◌∷◌, ltb, leb, ◌==◌,
  arith, length, All, Bool-cases, inl, inr,
}
use cpa_usage_plugin.Common.Int.{ℤ}
use cpa_usage_plugin.Common.Bits.{has_bit, pop_count, pop_count_full, has_bit-zero}
use cpa_usage_plugin.Pricing.{
  all_weekdays_mask, mask_days, day_mask, contains_day, insert_day, sort_days, as_days,
  normalized_rule_days,
}
use cpa_usage_plugin.Pricing.Days.{
  mask_days-lt, mentions, has_bit-mask_days, IsWeek, contains-collect_days, collect_days-IsWeek,
  distinct, collect_days-distinct, contains-sort_days, day_mask-raw, collected, pop_count-raw,
  raw-none, day_mask-normalized_rule_days,
}

-- Each day is less than the days after it.
abbrev Ascending : List ℕ → Type 0
Ascending [] = Unit
Ascending (d ∷ ds) = All (λ e. d < e) ds × Ascending ds

All-insert_day :
    (x d : ℕ) (ds : List ℕ) → x < d → All (λ e. x < e) ds → All (λ e. x < e) (insert_day d ds)
unfolding insert_day
All-insert_day x d [] h k = (h, tt)
All-insert_day x d (e ∷ ds) h k = elim (Bool-cases (leb d e)) [
  | inl le ↦ rw le (h, k)
  | inr gt ↦ rw gt (k.0, All-insert_day x d ds h k.1)
]

All-above : (x d : ℕ) (ds : List ℕ) → x < d → All (λ e. d < e) ds → All (λ e. x < e) ds
All-above x d [] h k = tt
All-above x d (e ∷ ds) h k = (omega (arith, h, k.0), All-above x d ds h k.1)

insert_day-Ascending :
    (d : ℕ) (ds : List ℕ) → contains_day ds d ≡ false → Ascending ds → Ascending (insert_day d ds)
unfolding insert_day
insert_day-Ascending d [] h k = (tt, tt)
insert_day-Ascending d (e ∷ ds) h k = elim (Bool-cases (leb d e)) [
  | inl le ↦
      let less : d < e = ground (arith, h, le) in rw le ((less, All-above d e ds less k.0), k)
  | inr gt ↦ rw gt (
    All-insert_day e d ds (ground (arith, gt)) k.0,
    insert_day-Ascending d ds (ground (arith, h)) k.1,
  )
]

sort_days-Ascending : (ds : List ℕ) → distinct ds ≡ true → Ascending (sort_days ds)
unfolding sort_days distinct
sort_days-Ascending [] h = tt
sort_days-Ascending (d ∷ ds) h =
    insert_day-Ascending d (sort_days ds) (contains-sort_days ds d ∙ ground (arith, h))
      (sort_days-Ascending ds (ground (arith, h)))

contains-above : (c d : ℕ) (ds : List ℕ) → c ≤ d → All (λ e. d < e) ds → contains_day ds c ≡ false
contains-above c d [] h k = refl
contains-above c d (e ∷ ds) h k = ground (arith, h, k.0, contains-above c d ds h k.1)

-- Ascending lists with the same days are the same.
Ascending-ext :
    (xs ys : List ℕ)
    → Ascending xs
    → Ascending ys
    → ((e : ℕ) → contains_day xs e ≡ contains_day ys e)
    → xs ≡ ys
Ascending-ext [] [] h k same = refl
Ascending-ext [] (y ∷ ys) h k same = absurd (ground (arith, same y))
Ascending-ext (x ∷ xs) [] h k same = absurd (ground (arith, same x))
Ascending-ext (x ∷ xs) (y ∷ ys) h k same = elim (Bool-cases (x == y)) [
  | inl e ↦
      let one : x ≡ y = ground (arith, e) in
      let rest = Ascending-ext xs ys h.1 k.1 (λ d. elim (Bool-cases (x == d)) [
        | inl at ↦
            contains-above d x xs (ground (arith, at)) h.0
            ∙ sym (contains-above d y ys (ground (arith, at, e)) k.0)
        | inr off ↦ ground (arith, same d, off, e)
      ]) in
      rw (one, rest) refl
  | inr ne ↦ elim (Bool-cases (ltb x y)) [
    | inl lt ↦
        let out = contains-above x y ys (ground (arith, lt)) k.0 in
        absurd (ground (arith, same x, ne, out))
    | inr gt ↦
        let out = contains-above y x xs (ground (arith, gt)) h.0 in
        absurd (ground (arith, same y, ne, out))
  ]
]

contains-IsWeek : (ds : List ℕ) (e : ℕ) → 7 ≤ e → IsWeek ds → contains_day ds e ≡ false
unfolding IsWeek
contains-IsWeek [] e h k = refl
contains-IsWeek (d ∷ ds) e h k = ground (arith, h, k.0, contains-IsWeek ds e h k.1)

module _ (days : List ℤ) where
  collected-IsWeek : IsWeek (collected days)
  unfolding collected
  collected-IsWeek = collect_days-IsWeek [] days (unfold IsWeek in tt)

  collected-distinct : distinct (collected days) ≡ true
  unfolding collected
  collected-distinct = collect_days-distinct [] days (unfold distinct in refl)

  -- Of the days of the week the collected ones are those of the mask.
  contains-collected :
      (e : ℕ) → e < 7 → contains_day (collected days) e ≡ has_bit (mask_days 0 days) e
  unfolding collected
  contains-collected e h =
      contains-collect_days [] days e h
      ∙ sym (
          has_bit-mask_days 0 days e (omega arith) h
          ∙ ap (λ b. b || mentions days e) (has_bit-zero e h))

  -- No days are stored exactly for the mask of the whole week.
  abbrev whole : Bool
  whole = length (collected days) == 0 || length (collected days) == 7

  whole-mask : whole ≡ true → day_mask days ≡ all_weekdays_mask
  whole-mask h = elim (Bool-cases (length (collected days) == 0)) [
    | inl e ↦ ground (arith, e, day_mask-raw days, raw-none days)
    | inr e ↦
        let full = pop_count_full _ (mask_days-lt 0 days (omega arith)) in
        ground (arith, h, e, day_mask-raw days, pop_count-raw days, full)
  ]

  pop_count-some : whole ≡ false → mask_days 0 days ≡ day_mask days
  unfolding pop_count has_bit
  pop_count-some h = elim (Bool-cases (mask_days 0 days == 0)) [
    | inl e ↦
        let none_set : mask_days 0 days ≡ 0 = ground (arith, e) in
        let empty : pop_count (mask_days 0 days) ≡ 0 = ap pop_count none_set in
        absurd (ground (arith, h, empty, pop_count-raw days))
    | inr e ↦ sym (day_mask-raw days ∙ ground (arith, e))
  ]

  mask-whole : day_mask days ≡ all_weekdays_mask → whole ≡ true
  unfolding pop_count has_bit
  mask-whole h = elim (Bool-cases whole) [
    | inl e ↦ e
    | inr e ↦
        let full : pop_count (mask_days 0 days) ≡ 7 = ap pop_count (pop_count-some e ∙ h) in
        absurd (ground (arith, e, full, pop_count-raw days))
  ]

  normalized-whole : whole ≡ true → normalized_rule_days days ≡ []
  unfolding normalized_rule_days collected
  normalized-whole h = rw h refl

  normalized-part : whole ≡ false → normalized_rule_days days ≡ as_days (sort_days (collected days))
  unfolding normalized_rule_days collected
  normalized-part h = rw h refl

sorted-same :
    (a b : List ℤ)
    → mask_days 0 a ≡ mask_days 0 b
    → sort_days (collected a) ≡ sort_days (collected b)
sorted-same a b same =
    Ascending-ext _ _ (sort_days-Ascending (collected a) (collected-distinct a))
      (sort_days-Ascending (collected b) (collected-distinct b))
      λ e.
        contains-sort_days (collected a) e
        ∙ elim (Bool-cases (ltb e 7)) [
          | inl lt ↦
              let inside : e < 7 = ground (arith, lt) in
              contains-collected a e inside
              ∙ ap (λ m. has_bit m e) same
              ∙ sym (contains-collected b e inside)
          | inr ge ↦
              contains-IsWeek (collected a) e (ground (arith, ge)) (collected-IsWeek a)
              ∙ sym (contains-IsWeek (collected b) e (ground (arith, ge)) (collected-IsWeek b))
        ]
        ∙ sym (contains-sort_days (collected b) e)

same-normalized :
    (a b : List ℤ) → day_mask a ≡ day_mask b → normalized_rule_days a ≡ normalized_rule_days b
same-normalized a b same = elim (Bool-cases (whole a)) [
  | inl e ↦
      normalized-whole a e ∙ sym (normalized-whole b (mask-whole b (sym same ∙ whole-mask a e)))
  | inr e ↦ elim (Bool-cases (whole b)) [
    | inl f ↦ absurd (ground (arith, e, mask-whole a (same ∙ whole-mask b f)))
    | inr f ↦
        normalized-part a e
        ∙ ap as_days (sorted-same a b (pop_count-some a e ∙ same ∙ sym (pop_count-some b f)))
        ∙ sym (normalized-part b f)
  ]
]

-- normalizedRuleDays stores each set of weekdays in one form: the stored list selects the weekdays
-- that the given one selects, and two lists are stored as the same list exactly when they select the
-- same weekdays, in whatever order and however often they name them, with invalid days aside and
-- with no days for the whole week.
pub normalized_rule_days_canonical :
    (a b : List ℤ)
    → (day_mask (normalized_rule_days a) ≡ day_mask a)
      × ((normalized_rule_days a ≡ normalized_rule_days b) ↔ (day_mask a ≡ day_mask b))
normalized_rule_days_canonical a b = (
  day_mask-normalized_rule_days a,
  (
    λ same.
        sym (day_mask-normalized_rule_days a) ∙ ap day_mask same ∙ day_mask-normalized_rule_days b,
    same-normalized a b,
  ),
)
