-- ===== src/Quota/Bounds.antt =====
-- go/quota_cycles.go, quotaCompactSamples: what is selected, and how much.
use native.Mathlib.Nat.{zero-add}
use cpa_usage_plugin.Common.{
  ℕ, zero, suc, ◌+◌, ◌-◌, ◌≤◌, ◌<◌, ◌≡◌, refl, ◌∙◌, true, ◌||◌, Option, none, some, List, [], ◌∷◌,
  ltb, leb, ◌==◌, if◌then◌else◌, length, get_elem?, arith, Bool-cases, inl, inr,
}
use cpa_usage_plugin.Quota.{Observation, Period, UsageFloat}
use cpa_usage_plugin.Quota.Compact.{
  sample_limit, keeps, keep_index, keep_in, select_kept, fill_newest, fixed_indices,
  compact_samples,
}

-- How many kept indices are not below `i`.
above : ℕ → List ℕ → ℕ
above i [] = 0
above i (j ∷ keep) = let rest = above i keep in if leb i j then suc rest else rest

above-suc :
    (i : ℕ) (keep : List ℕ) → above (suc i) keep + (if keeps keep i then 1 else 0) ≤ above i keep
unfolding above
above-suc i [] = omega arith
above-suc i (j ∷ keep) = ground (arith, above-suc i keep)

above-le-length : (i : ℕ) (keep : List ℕ) → above i keep ≤ length keep
unfolding above
above-le-length i [] = omega arith
above-le-length i (j ∷ keep) = ground (arith, above-le-length i keep)

module _ {U : Type 0} where
  length-select-le-above :
      (keep : List ℕ) (i : ℕ) (l : List (Observation U))
      → length (select_kept keep i l) ≤ above i keep
  unfolding select_kept
  length-select-le-above keep i [] = omega arith
  length-select-le-above keep i (s ∷ l) =
      ground (arith, above-suc i keep, length-select-le-above keep (suc i) l)

fill_newest-le : (n : ℕ) (keep : List ℕ) → length keep ≤ 64 → length (fill_newest n keep) ≤ 64
unfolding fill_newest
fill_newest-le zero keep h = h
fill_newest-le (suc i) keep h = ground (arith, fill_newest-le i (keep_index i keep))

keep_in-le : (n : ℕ) (o : Option ℕ) (keep : List ℕ) → length (keep_in n o keep) ≤ suc (length keep)
unfolding keep_in
keep_in-le n none keep = omega arith
keep_in-le n (some i) keep = ground arith

keep_index-keeps :
    (i j : ℕ) (keep : List ℕ) → keeps (keep_index i keep) j ≡ (i == j || keeps keep j)
keep_index-keeps i j keep = ground (arith, same i j keep)
  where
    same : (i j : ℕ) (keep : List ℕ) → keeps keep i ≡ true → i ≡ j → keeps keep j ≡ true
    same i j keep h e = rw e at h

keep_in-keeps :
    (n : ℕ) (o : Option ℕ) (j : ℕ) (keep : List ℕ)
    → keeps keep j ≡ true
    → keeps (keep_in n o keep) j ≡ true
unfolding keep_in
keep_in-keeps n none j keep h = h
keep_in-keeps n (some i) j keep h = ground (arith, keep_index-keeps i j keep)

-- The same as a statement that stays shut.
Kept : ℕ → List ℕ → Type 0
Kept j keep = keeps keep j ≡ true

Kept-head : (j : ℕ) (keep : List ℕ) → Kept j (j ∷ keep)
unfolding Kept
Kept-head j keep = ground arith

keep_in-Kept : (n j : ℕ) (o : Option ℕ) (keep : List ℕ) → Kept j keep → Kept j (keep_in n o keep)
unfolding Kept
keep_in-Kept n j o keep h = keep_in-keeps n o j keep h

fill_newest-keeps :
    (n j : ℕ) (keep : List ℕ) → keeps keep j ≡ true → keeps (fill_newest n keep) j ≡ true
unfolding fill_newest
fill_newest-keeps zero j keep h = h
fill_newest-keeps (suc i) j keep h =
    ground (arith, keep_index-keeps i j keep, fill_newest-keeps i j (keep_index i keep))

fill_newest-newest :
    (i : ℕ) (keep : List ℕ) → length keep < 64 → keeps (fill_newest (suc i) keep) i ≡ true
unfolding fill_newest
fill_newest-newest i keep h =
    ground (arith, keep_index-keeps i i keep, fill_newest-keeps i i (keep_index i keep))

module _ {U : Type 0} where
  abbrev pub newest : List (Observation U) → Option (Observation U)
  newest [] = none
  newest (s ∷ []) = some s
  newest (s ∷ t ∷ l) = newest (t ∷ l)

  newest-cons :
      (s : Observation U) (l : List (Observation U)) → 0 < length l → newest (s ∷ l) ≡ newest l
  newest-cons s [] h = absurd (omega arith)
  newest-cons s (t ∷ l) h = refl

  select-nil : (keep : List ℕ) (i : ℕ) → select_kept {U = U} keep i [] ≡ []
  unfolding select_kept
  select-nil keep i = refl

  select-cons :
      (keep : List ℕ) (i : ℕ) (s : Observation U) (l : List (Observation U))
      → select_kept keep i (s ∷ l)
        ≡ (if keeps keep i then s ∷ select_kept keep (suc i) l else select_kept keep (suc i) l)
  unfolding select_kept
  select-cons keep i s l = refl

  first-select :
      (keep : List ℕ) (l : List (Observation U))
      → keeps keep 0 ≡ true
      → get_elem? (select_kept keep 0 l) 0 ≡ get_elem? l 0
  unfolding select_kept
  first-select keep [] h = refl
  first-select keep (s ∷ l) h = rw h

  -- Selecting with the last index keeps the newest sample.
  newest-select :
      (keep : List ℕ) (i n : ℕ) (l : List (Observation U))
      → length l ≡ suc n
      → keeps keep (i + n) ≡ true
      → (0 < length (select_kept keep i l)) × (newest (select_kept keep i l) ≡ newest l)
  newest-select keep i n [] e h = absurd (omega arith)
  newest-select keep i n (s ∷ []) e h =
      let same : i + n ≡ i = omega arith in
      let here : keeps keep i ≡ true = rw same at h in
      let none_left = select-nil keep (suc i) in
      rw (select-cons keep i s [], here, none_left) (omega arith, refl)
  newest-select keep i zero (s ∷ t ∷ l) e h = absurd (omega arith)
  newest-select keep i (suc n) (s ∷ t ∷ l) e h =
      let same : i + suc n ≡ suc i + n = omega arith in
      let later : keeps keep (suc i + n) ≡ true = rw same at h in
      let (some_left, last) = newest-select keep (suc i) n (t ∷ l) (omega arith) later in
      let cons = newest-cons s (select_kept keep (suc i) (t ∷ l)) some_left in
      elim (Bool-cases (keeps keep i)) [
        | inl here ↦ rw (select-cons keep i s (t ∷ l), here) (omega arith, cons ∙ last)
        | inr out ↦ rw (select-cons keep i s (t ∷ l), out) (some_left, last)
      ]

  newest-filled :
      (keep : List ℕ) (n : ℕ) (l : List (Observation U))
      → length l ≡ suc n
      → length keep < 64
      → newest (select_kept (fill_newest (length l) keep) 0 l) ≡ newest l
  newest-filled keep n l size few =
      let kept : keeps (fill_newest (length l) keep) (0 + n) ≡ true =
        rw (size, zero-add) (fill_newest-newest n keep few) in
      (newest-select (fill_newest (length l) keep) 0 n l size kept).1

  first-filled :
      (keep : List ℕ) (l : List (Observation U))
      → Kept 0 keep
      → get_elem? (select_kept (fill_newest (length l) keep) 0 l) 0 ≡ get_elem? l 0
  unfolding Kept
  first-filled keep l kept =
      first-select (fill_newest (length l) keep) l (fill_newest-keeps (length l) 0 keep kept)

module _ {U : Type 0} (f : UsageFloat U) where
  fixed_indices-le : (p : Period U) → length (fixed_indices f p) ≤ 8
  unfolding fixed_indices
  fixed_indices-le p = omega (arith, keep_in-le)

  fixed_indices-Kept : (p : Period U) → Kept 0 (fixed_indices f p)
  unfolding fixed_indices
  fixed_indices-Kept p =
      let k = keep_in-Kept (length p.samples) 0 in
      k _ _ (k _ _ (k _ _ (k _ _ (k _ _ (k _ _ (k _ _ (Kept-head 0 [])))))))

  -- A compacted period has at most 64 samples.
  pub length-compact_samples : (p : Period U) → length (compact_samples f p).samples ≤ 64
  unfolding compact_samples
  length-compact_samples p = elim (Bool-cases (ltb sample_limit (length p.samples))) [
    | inl e ↦
        let keep = fill_newest (length p.samples) (fixed_indices f p) in
        let few =
          fill_newest-le (length p.samples) (fixed_indices f p)
            (omega (arith, fixed_indices-le p)) in
        rw e (omega (arith, length-select-le-above keep 0 p.samples, above-le-length 0 keep, few))
    | inr e ↦ rw e (ground (arith, e))
  ]

  -- Compaction keeps the newest sample as the newest.
  pub newest-compact_samples :
      (p : Period U) → newest (compact_samples f p).samples ≡ newest p.samples
  unfolding compact_samples
  newest-compact_samples p = elim (Bool-cases (ltb sample_limit (length p.samples))) [
    | inl e ↦
        let size : length p.samples ≡ suc (length p.samples - 1) = ground (arith, e) in
        let few : length (fixed_indices f p) < 64 = omega (arith, fixed_indices-le p) in
        rw e (newest-filled (fixed_indices f p) (length p.samples - 1) p.samples size few)
    | inr e ↦ rw e
  ]

  -- Compaction keeps the oldest sample as the oldest.
  pub first-compact_samples :
      (p : Period U) → get_elem? (compact_samples f p).samples 0 ≡ get_elem? p.samples 0
  unfolding compact_samples
  first-compact_samples p = elim (Bool-cases (ltb sample_limit (length p.samples))) [
    | inl e ↦ rw e (first-filled (fixed_indices f p) p.samples (fixed_indices-Kept p))
    | inr e ↦ rw e
  ]
