-- ===== src/Quota/Compact.antt =====
-- go/quota_cycles.go, quotaCompactSamples and quotaAppendSample.
use cpa_usage_plugin.Common.{
  ℕ, zero, suc, Bool, false, ◌&&◌, ◌||◌, not, Option, none, some, List, [], ◌∷◌, ◌++◌, ltb, leb,
  ◌==◌, if◌then◌else◌, length,
}
use cpa_usage_plugin.Quota.{Observation, Period, UsageFloat, is_zero}
use cpa_usage_plugin.Quota.Reset.{latest_reset, pre_reset_samples}
use cpa_usage_plugin.Quota.Sample.{has_sample, sort_samples}

abbrev pub sample_limit : ℕ
sample_limit = 64

-- The set of indices to keep, `keep[i] = true` and `keep[i]`.
abbrev pub keeps : List ℕ → ℕ → Bool
keeps [] i = false
keeps (j ∷ keep) i = j == i || keeps keep i

abbrev pub keep_index : ℕ → List ℕ → List ℕ
keep_index i keep = if keeps keep i then keep else i ∷ keep

-- An index of the fixed list is kept only if it is in range; -1 is `none`.
unfoldable pub keep_in : ℕ → Option ℕ → List ℕ → List ℕ
keep_in n none keep = keep
keep_in n (some i) keep = if ltb i n then keep_index i keep else keep

module _ {U : Type 0} where
  -- The first sample that is not before the collection's start.
  unfoldable pub first_collected : ℕ → ℕ → List (Observation U) → Option ℕ
  first_collected started i [] = none
  first_collected started i (s ∷ rest) =
      let later = first_collected started (suc i) rest in
      if not (ltb s.observed_at started) then some i else later

  unfoldable pub select_kept : List ℕ → ℕ → List (Observation U) → List (Observation U)
  select_kept keep i [] = []
  select_kept keep i (s ∷ rest) =
      let later = select_kept keep (suc i) rest in if keeps keep i then s ∷ later else later

module _ {U : Type 0} (f : UsageFloat U) where
  -- The last sample that reads exactly 1.
  unfoldable pub last_full : ℕ → Option ℕ → List (Observation U) → Option ℕ
  last_full i found [] = found
  last_full i found (s ∷ rest) =
      last_full (suc i) (if f.eq s.used f.one then some i else found) rest

-- The last loop: from the newest index down, while fewer than 64 are kept.
unfoldable pub fill_newest : ℕ → List ℕ → List ℕ
fill_newest zero keep = keep
fill_newest (suc i) keep =
    let next = fill_newest i (keep_index i keep) in
    if ltb (length keep) sample_limit then next else keep

abbrev pub index_before : ℕ → Option ℕ
index_before zero = none
index_before (suc i) = some i

abbrev pub peak_index : Option (ℕ × ℕ) → Option ℕ
peak_index none = none
peak_index (some (peak, drop)) = some peak

abbrev pub drop_index : Option (ℕ × ℕ) → Option ℕ
drop_index none = none
drop_index (some (peak, drop)) = some drop

-- `drop + 1`, which is 0 without a drop.
abbrev pub after_drop : Option (ℕ × ℕ) → Option ℕ
after_drop none = some 0
after_drop (some (peak, drop)) = some (suc drop)

module _ {U : Type 0} (f : UsageFloat U) where
  -- The indices that are kept whatever their age.
  unfoldable pub fixed_indices : Period U → List ℕ
  unfolding first_collected last_full
  fixed_indices p =
      let n = length p.samples in
      let first = first_collected p.collection_started_at 0 p.samples in
      let reset = latest_reset f p.samples p.end in
      let deadline = pre_reset_samples p in
      keep_in n (last_full f 0 none p.samples) (
        keep_in n (some deadline) (
          keep_in n (index_before deadline) (
            keep_in n (after_drop reset) (
              keep_in n (drop_index reset)
                (keep_in n (peak_index reset) (keep_in n first (0 ∷ [])))))))

  -- quotaCompactSamples
  unfoldable pub compact_samples : Period U → Period U
  unfolding fixed_indices keep_in fill_newest select_kept
  compact_samples p =
      if ltb sample_limit (length p.samples)
      then record p {
        samples = select_kept (fill_newest (length p.samples) (fixed_indices p)) 0 p.samples;
      }
      else p

  -- The start of the collection that a period's samples belong to.
  abbrev pub collection_start : Period U → Observation U → ℕ → ℕ
  collection_start p o started =
      if is_zero p.collection_started_at
        || (leb started o.observed_at && ltb p.collection_started_at started)
      then started
      else p.collection_started_at

  -- quotaAppendSample: `none` for a sample that the period has.
  unfoldable pub append_sample : Period U → Observation U → ℕ → Option (Period U)
  append_sample p o started =
      if has_sample f p.samples o
      then none
      else some (
          compact_samples (record p {
            collection_started_at = collection_start p o started;
            samples = sort_samples (p.samples ++ o ∷ []);
          }))
