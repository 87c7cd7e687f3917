-- ===== src/Quota/Invariant.antt =====
-- What holds of a window between two observations: its periods hold at most 64 samples, in order, each
-- with a property of the observations, and their spans fit the window.
use cpa_usage_plugin.Common.{
  ℕ, ◌-◌, ◌≤◌, ◌<◌, ◌≡◌, refl, true, false, Option, none, some, List, [], ◌∷◌, ◌++◌, ltb, length,
  All, take, drop, length-take, length-drop, arith, Bool-cases, Option-cases, inl, inr,
}
use cpa_usage_plugin.Quota.{Observation, Period, Window, UsageFloat, seconds}
use cpa_usage_plugin.Quota.Sample.{has_sample, sort_samples}
use cpa_usage_plugin.Quota.Compact.{
  sample_limit, fill_newest, fixed_indices, compact_samples, collection_start, append_sample,
}
use cpa_usage_plugin.Quota.Archive.{or_keep}
use cpa_usage_plugin.Quota.Order.{
  IsSorted, All-sort, All-append, All-select, All-take, All-drop, sort-IsSorted, select-IsSorted,
  take-IsSorted, drop-IsSorted,
}
use cpa_usage_plugin.Quota.Bounds.{length-compact_samples}

module _ {U : Type 0} (P : Observation U → Type 0) where
  pub record SamplesOk (l : List (Observation U)) : Type 0 where
    pub each : All P l
    pub sorted : IsSorted l
    pub few : length l ≤ 64

  abbrev pub PeriodOk : Period U → Type 0
  PeriodOk p = SamplesOk p.samples

  pub take-SamplesOk : (n : ℕ) (l : List (Observation U)) → SamplesOk l → SamplesOk (take n l)
  take-SamplesOk n l h = record {
    each = All-take P n l h.each;
    sorted = take-IsSorted n l h.sorted;
    few = omega (arith, length-take n l, h.few);
  }

  pub drop-SamplesOk : (n : ℕ) (l : List (Observation U)) → SamplesOk l → SamplesOk (drop n l)
  drop-SamplesOk n l h = record {
    each = All-drop P n l h.each;
    sorted = drop-IsSorted n l h.sorted;
    few = omega (arith, length-drop n l, h.few);
  }

  pub single-SamplesOk : (o : Observation U) → P o → SamplesOk (o ∷ [])
  single-SamplesOk o h = record { each = (h, tt); sorted = (tt, tt); few = omega arith }

  module _ (f : UsageFloat U) where
    pub compact-each :
        (p : Period U) → All P p.samples → IsSorted p.samples → PeriodOk (compact_samples f p)
    unfolding compact_samples
    compact-each p each sorted = elim (Bool-cases (ltb sample_limit (length p.samples))) [
      | inl e ↦ rw e (record {
        each = All-select P (fill_newest (length p.samples) (fixed_indices f p)) 0 p.samples each;
        sorted =
            select-IsSorted (fill_newest (length p.samples) (fixed_indices f p)) 0 p.samples sorted;
        few = rw e at (length-compact_samples f p);
      })
      | inr e ↦ rw e (record { each = each; sorted = sorted; few = ground (arith, e) })
    ]

    pub compact-dates :
        (p : Period U)
        → ((compact_samples f p).start ≡ p.start)
          × ((compact_samples f p).end ≡ p.end)
          × ((compact_samples f p).ended_by_reset ≡ p.ended_by_reset)
    unfolding compact_samples
    compact-dates p = ground arith

    compact-Appended :
        (p q : Period U) (o : Observation U)
        → q.samples ≡ sort_samples (p.samples ++ o ∷ [])
        → PeriodOk p
        → P o
        → PeriodOk (compact_samples f q)
    compact-Appended p q o e ok po =
        compact-each q
          (rw e
            (All-sort P (p.samples ++ o ∷ []) (All-append P p.samples (o ∷ []) ok.each (po, tt))))
          (rw e (sort-IsSorted (p.samples ++ o ∷ [])))

    -- Appending keeps the period's dates and marks, and a well-formed list of samples.
    abbrev pub Appended : Period U → Period U → Type 0
    Appended p p' =
        PeriodOk p'
        × (p'.start ≡ p.start)
        × (p'.end ≡ p.end)
        × (p'.ended_by_reset ≡ p.ended_by_reset)

    pub append-PeriodOk :
        (p p' : Period U) (o : Observation U) (started : ℕ)
        → append_sample f p o started ≡ some p'
        → PeriodOk p
        → P o
        → Appended p p'
    unfolding append_sample
    append-PeriodOk p p' o started h ok po =
        let q = record p {
          collection_started_at = collection_start f p o started;
          samples = sort_samples (p.samples ++ o ∷ []);
        } in
        elim (Bool-cases (has_sample f p.samples o)) [
          | inl e ↦ absurd (ground (arith, e))
          | inr e ↦
              let same : compact_samples f q ≡ p' = ground (arith, e) in
              let dates = compact-dates q in
              rw (← same) (compact-Appended p q o refl ok po, dates.0, dates.1, dates.2)
        ]

    pub or_keep-PeriodOk :
        (p : Period U) (o : Observation U) (started : ℕ)
        → PeriodOk p
        → P o
        → Appended p (or_keep (append_sample f p o started) p)
    or_keep-PeriodOk p o started ok po = elim (Option-cases (append_sample f p o started)) [
      | inl e ↦ rw e (ok, refl, refl, refl)
      | inr (p', e) ↦ rw e (append-PeriodOk p p' o started e ok po)
    ]

-- The span of a period that no reset ended is the window's length, and one that a reset ended is not
-- empty.
abbrev pub SpanOk : {U : Type 0} → ℕ → Period U → Type 0
SpanOk n p =
    (p.ended_by_reset ≡ true → p.start < p.end)
    × (p.ended_by_reset ≡ false → p.start ≡ p.end - seconds n)

module _ {U : Type 0} (P : Observation U → Type 0) where
  abbrev pub PreviousOk : ℕ → Option (Period U) → Type 0
  PreviousOk n none = Unit
  PreviousOk n (some p) = PeriodOk P p × SpanOk n p

  -- The current period is none that a reset ended.
  abbrev pub CurrentOk : ℕ → Option (Period U) → Type 0
  CurrentOk n none = Unit
  CurrentOk n (some p) = PeriodOk P p × (p.ended_by_reset ≡ false) × (p.start ≡ p.end - seconds n)

  abbrev pub PeriodsOk : ℕ → Window U → Type 0
  PeriodsOk n w = CurrentOk n w.current × PreviousOk n w.previous

  -- The invariant of a window.
  abbrev pub WindowOk : Window U → Type 0
  WindowOk w = PeriodsOk w.seconds w
