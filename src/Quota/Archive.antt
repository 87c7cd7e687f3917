-- ===== src/Quota/Archive.antt =====
-- go/quota_cycles.go, quotaArchiveResetPeriod: the segment that the latest early reset ended becomes
-- the previous period.
use cpa_usage_plugin.Common.{
  ℕ, ◌-◌, Bool, true, false, ◌&&◌, ◌||◌, not, Option, none, some, List, [], ◌∷◌, ltb, leb, ◌==◌,
  if◌then◌else◌, length, take,
}
use cpa_usage_plugin.Quota.{Observation, Period, Window, UsageFloat, seconds}
use cpa_usage_plugin.Quota.Reset.{effective_period, sample_before}
use cpa_usage_plugin.Quota.Sample.{bool_eq, same_observation}
use cpa_usage_plugin.Quota.Compact.{append_sample}

abbrev pub or_keep {ℓ} : {A : Type ℓ} → Option A → A → A
or_keep none a = a
or_keep (some b) a = b

module _ {U : Type 0} (f : UsageFloat U) where
  -- The loop that adds the archive's samples observed before its new end.
  unfoldable pub append_before : Period U → List (Observation U) → ℕ → Period U
  append_before p [] started = p
  append_before p (s ∷ rest) started =
      append_before (if ltb s.observed_at p.end then or_keep (append_sample f p s started) p else p)
        rest started

  abbrev pub same_samples : List (Observation U) → List (Observation U) → Bool
  same_samples [] [] = true
  same_samples [] (b ∷ bs) = false
  same_samples (a ∷ as') [] = false
  same_samples (a ∷ as') (b ∷ bs) = same_observation f a b && same_samples as' bs

  -- The archive says already what the new one does.
  abbrev pub same_archive : Period U → Period U → Bool
  same_archive old copy =
      old.start == copy.start
      && (old.end == copy.end
          && (old.ended_by_reset
              && (bool_eq old.reset_time_estimated copy.reset_time_estimated
                  && (length old.samples == length copy.samples
                      && same_samples old.samples copy.samples))))

  -- The previous archive proves where the segment between the two resets began.
  unfoldable pub start_after : Period U → Period U → Observation U → Period U
  start_after old copy last =
      if old.ended_by_reset
        && (ltb old.end copy.end && (ltb copy.start old.end && leb old.end last.observed_at))
      then record copy { start = old.end }
      else copy

  -- Compaction in the current period does not erase what the archive holds.
  unfoldable pub join_archive : Period U → Period U → Period U
  join_archive old copy =
      if old.ended_by_reset && (ltb old.start copy.end && leb copy.end old.end)
      then append_before (record copy { start = old.start }) old.samples old.collection_started_at
      else copy

  abbrev pub ends_later : Option (Period U) → Period U → Bool
  ends_later none copy = false
  ends_later (some old) copy = not old.ended_by_reset && ltb copy.end old.end

  -- The rest, once the segment before the reset is cut out.
  unfoldable pub install_archive : Window U → Period U → Observation U → Option (Window U)
  install_archive w copy last =
      if leb copy.end copy.start || ends_later w.previous copy then none else elim w.previous [
        | none ↦ some (record w { previous = some copy })
        | some old ↦
            let joined = join_archive old (start_after old copy last) in
            if same_archive old joined then none else some (record w { previous = some joined })
      ]

  -- The segment before the reset: its own effective period, up to the effective start.
  unfoldable pub archived : Window U → Period U → Period U → Observation U → ℕ → Period U
  archived w p effective last before =
      let previous = record p {
        ended_by_reset = false;
        reset_time_estimated = false;
        start = last.reset - seconds w.seconds;
        end = last.reset;
        samples = take before p.samples;
      } in
      record ((effective_period f previous).0) {
        end = effective.start;
        ended_by_reset = true;
        reset_time_estimated = effective.reset_time_estimated;
      }

  -- quotaArchiveResetPeriod: `none` where it returns false.
  unfoldable pub archive_reset_period : Window U → Option (Window U)
  archive_reset_period w = elim w.current [
    | none ↦ none
    | some p ↦
        let (effective, reset) = effective_period f p in
        let before = length p.samples - length effective.samples in
        elim reset [
          | none ↦ none
          | some used ↦ elim (sample_before p.samples before) [
            | none ↦ none
            | some last ↦ install_archive w (archived w p effective last before) last
          ]
        ]
  ]
