-- ===== src/Quota/Reset.antt =====
-- go/quota_pricing.go: where a period's samples show that the quota was reset early, and the part of
-- the period that counts since then.
use cpa_usage_plugin.Common.{
  ℕ, zero, suc, ◌+◌, ◌-◌, ◌/◌, max, Bool, true, false, ◌&&◌, ◌||◌, not, Option, none, some, List,
  [], ◌∷◌, ltb, ◌==◌, if◌then◌else◌, length, take, drop, get_elem?,
}
use cpa_usage_plugin.Quota.{Observation, Period, Window, UsageFloat, minute, time_sub, zero_time}

abbrev pub peak_and_drop {ℓ} : {U : Type ℓ} → Option (ℕ × U) → ℕ → Option (ℕ × ℕ) → Option (ℕ × ℕ)
peak_and_drop none i found = found
peak_and_drop (some (c, peak)) i found = some (c, i)

module _ {U : Type 0} (f : UsageFloat U) where
  -- quotaResetCandidate
  unfoldable pub reset_candidate : U → U → Bool
  reset_candidate peak used =
      f.lt used (f.less_tolerance peak) || (f.eq used f.zero && f.lt f.zero peak)

  -- Whether the next sample stays closer to the decreased value than to the peak.
  abbrev pub confirms : U → U → List (Observation U) → Bool
  confirms peak used [] = false
  confirms peak used (next ∷ rest) = f.lt next.used (f.midpoint peak used)

  -- The test of one round: a candidate below the current peak, before the end, and confirmed.
  abbrev pub is_reset : ℕ → Option (ℕ × U) → Observation U → List (Observation U) → Bool
  is_reset end none s rest = false
  is_reset end (some (i, peak)) s rest =
      ltb s.observed_at end && (reset_candidate peak s.used && confirms peak s.used rest)

  abbrev pub is_peak : Option (ℕ × U) → Observation U → Bool
  is_peak none s = true
  is_peak (some (i, peak)) s = f.lt peak s.used

  -- The loop of quotaLatestReset at sample `i`: `current` is the index and usage of the running
  -- peak, `found` the last confirmed peak and drop.
  unfoldable pub latest_reset_loop :
      ℕ → ℕ → Option (ℕ × U) → Option (ℕ × ℕ) → List (Observation U) → Option (ℕ × ℕ)
  unfolding reset_candidate
  latest_reset_loop end i current found [] = found
  latest_reset_loop end i current found (s ∷ rest) =
      let reset = is_reset end current s rest in
      latest_reset_loop end (suc i)
        (if reset || is_peak current s then some (i, s.used) else current)
        (if reset then peak_and_drop current i found else found) rest

  -- quotaLatestReset, with `none` for the two -1.
  unfoldable pub latest_reset : List (Observation U) → ℕ → Option (ℕ × ℕ)
  unfolding latest_reset_loop
  latest_reset samples end = latest_reset_loop end 0 none none samples

  -- quotaSamplesConsumed
  unfoldable pub samples_consumed : List (Observation U) → Bool
  samples_consumed [] = false
  samples_consumed (s ∷ rest) = f.lt f.zero s.used || samples_consumed rest

-- The loop of quotaPreResetSamples at sample `i`.
unfoldable pub pre_reset_loop : {U : Type 0} → ℕ → ℕ → ℕ → ℕ → List (Observation U) → ℕ
pre_reset_loop end threshold i count [] = count
pre_reset_loop end threshold i count (s ∷ rest) =
    pre_reset_loop end threshold (suc i)
      (if ltb threshold (time_sub end s.reset) then suc i else count) rest

-- quotaPreResetSamples; a negative span gives the minute, as a truncated one does.
unfoldable pub pre_reset_samples : {U : Type 0} → Period U → ℕ
unfolding pre_reset_loop
pre_reset_samples p = pre_reset_loop p.end (max (time_sub p.end p.start / 24) minute) 0 0 p.samples

-- `t.Add(-end.Sub(start))`, of either sign.
abbrev pub move_back : ℕ → ℕ → ℕ → ℕ
move_back t end start = t + (start - end) - (end - start)

-- The effective period, and whether a reset was found.
abbrev pub Effective : Type 0 → Type 0
Effective U = Period U × Bool

module _ {U : Type 0} where
  -- The sample before index `n`, where there is one.
  abbrev pub sample_before : List (Observation U) → ℕ → Option (Observation U)
  sample_before samples zero = none
  sample_before samples (suc n) = get_elem? samples n

  -- The samples up to the last that carries an earlier deadline, as a period of their own.
  abbrev pub prior_period : Period U → Observation U → ℕ → Period U
  prior_period p last before = record {
    ended_by_reset = false;
    reset_time_estimated = false;
    start = move_back last.reset p.end p.start;
    end = last.reset;
    collection_started_at = zero_time;
    samples = take before p.samples;
  }

module _ {U : Type 0} (f : UsageFloat U) where
  -- The segment since the deadline moved, once the segment before it is known.
  unfoldable pub after_deadline :
      Period U → Observation U → Observation U → ℕ → Effective U → Effective U
  after_deadline p last first before (prior, prior_reset) =
      if samples_consumed f prior.samples
      then (
        (if ltb p.start last.observed_at || ltb first.observed_at p.start
            then record p {
              start = first.observed_at;
              reset_time_estimated = true;
              samples = drop before p.samples;
            }
            else record p { samples = drop before p.samples }),
        true,
      )
      else if prior_reset
      then (
        record p {
          start = prior.start;
          reset_time_estimated = prior.reset_time_estimated;
          samples = drop (before - length prior.samples) p.samples;
        },
        true,
      )
      else (p, false)

  -- The second part: a confirmed usage decrease in what is left.
  unfoldable pub after_decrease : Effective U → Effective U
  after_decrease (p, reset) = elim (latest_reset f p.samples p.end) [
    | none ↦ (p, reset)
    | some (peak, i) ↦ elim (get_elem? p.samples i) [
      | none ↦ (p, reset)
      | some s ↦ (
        record p { start = s.observed_at; reset_time_estimated = true; samples = drop i p.samples },
        true,
      )
    ]
  ]

  -- The period before the last reset is looked at the same way, and it has fewer samples.
  unfoldable pub effective_loop : ℕ → Period U → Effective U
  unfolding after_deadline after_decrease
  effective_loop zero p = (p, false)
  effective_loop (suc n) p =
      let before = pre_reset_samples p in
      elim (sample_before p.samples before) [
        | none ↦ after_decrease (p, false)
        | some last ↦ elim (get_elem? p.samples before) [
          | none ↦ after_decrease (p, false)
          | some first ↦
              after_decrease
                (after_deadline p last first before (effective_loop n (prior_period p last before)))
        ]
      ]

  abbrev pub baseline : Bool → List (Observation U) → Option U
  baseline false samples = none
  baseline true [] = none
  baseline true (s ∷ rest) = some (f.percent s.used)

  -- quotaEffectivePeriod of a period that is there.
  unfoldable pub effective_period : Period U → Period U × Option U
  effective_period p =
      let (q, reset) = effective_loop (suc (length p.samples)) p in (q, baseline reset q.samples)

  -- quotaEmptyResetArchive
  abbrev pub empty_reset_archive : Option (Period U) → Bool
  empty_reset_archive none = false
  empty_reset_archive (some p) =
      p.ended_by_reset && (not (length p.samples == 0) && not (samples_consumed f p.samples))

  -- quotaDropEmptyResetArchive, as the window that it leaves.
  unfoldable pub drop_empty_reset_archive : Window U → Window U
  drop_empty_reset_archive w =
      if empty_reset_archive w.previous then record w { previous = none } else w
