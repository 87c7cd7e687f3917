-- ===== src/Quota/Apply.antt =====
-- go/quota_cycles.go, the rest of applyQuotaObservationLocked for one window: an observation that is
-- not late, the alignment of the two periods, and the commit.
use cpa_usage_plugin.Common.{
  ℕ, ◌-◌, ◌/◌, Bool, true, false, ◌&&◌, ◌||◌, not, Option, none, some, ltb, leb, ◌==◌,
  if◌then◌else◌, length,
}
use cpa_usage_plugin.Quota.{
  Observation, Period, Window, UsageFloat, is_zero, zero_time, seconds, reset_drift_is_small,
  period_precedes,
}
use cpa_usage_plugin.Quota.Reset.{drop_empty_reset_archive}
use cpa_usage_plugin.Quota.Compact.{append_sample}
use cpa_usage_plugin.Quota.Archive.{or_keep, archive_reset_period}
use cpa_usage_plugin.Quota.Observe.{
  window_observed_at, new_window, is_late, revoke, single, apply_late,
}

abbrev pub is_some {ℓ} : {A : Type ℓ} → Option A → Bool
is_some none = false
is_some (some a) = true

module _ {U : Type 0} where
  -- A window whose length changed starts over.
  abbrev pub restart : Bool → Window U → Observation U → Window U
  restart exists w o =
      if exists && not (w.seconds == o.seconds)
      then record w { current = none; previous = none }
      else w

  -- The current period is over where the new one starts.
  unfoldable pub roll_over : Window U → Observation U → ℕ → Window U
  roll_over w o start = elim w.current [
    | none ↦ w
    | some c ↦
        if leb c.end start || reset_drift_is_small c.end start o.seconds
        then record w { previous = some c; current = none }
        else w
  ]

  -- The previous period ends where the current one starts, or is too far off to be kept.
  abbrev pub moved_end : Period U → ℕ → ℕ → Period U
  moved_end p end n = record p { end = end; start = end - seconds n }

  unfoldable pub align_previous : Period U → Period U → ℕ → Option (Period U)
  align_previous p c n =
      if p.ended_by_reset
      then some p
      else if reset_drift_is_small p.end c.start n
      then some (moved_end p c.start n)
      else if ltb c.start p.end && (ltb p.start c.start && leb (p.end - c.start) (seconds n / 4))
      then some (moved_end p c.start n)
      else if not (period_precedes p.end c.start n)
      then none
      else some p

  unfoldable pub align : Window U → ℕ → Window U
  align w n = elim w.current [
    | none ↦ w
    | some c ↦ elim w.previous [ none ↦ w | some p ↦ record w { previous = align_previous p c n } ]
  ]

module _ {U : Type 0} (f : UsageFloat U) where
  -- A new current period, or a deadline that moved within the current one.
  unfoldable pub install_current : Window U → Observation U → ℕ → Option (Window U)
  install_current w o start = elim w.current [
    | none ↦ some (record w { current = some (single o start o.reset) })
    | some c ↦
        let moved = record c { start = start; end = o.reset } in
        let kept = or_keep (append_sample f moved o o.collection_started_at) moved in
        if w.seconds == o.seconds
          && (ltb o.observed_at c.end && (ltb start c.end && not (length c.samples == 0)))
        then some (record w { current = some kept })
        else if leb c.end start
        then some (record w { previous = some c; current = some (single o start o.reset) })
        else none
  ]

  -- The sample of a period that has its deadline, the current one or the one that just ended.
  unfoldable pub place : Window U → Observation U → ℕ → Option (Window U)
  place w o start = elim w.current [
    | some c ↦
        if c.end == o.reset && w.seconds == o.seconds
        then elim (append_sample f c o o.collection_started_at) [
          | none ↦ none
          | some c' ↦ some (record w { current = some c' })
        ]
        else install_current w o start
    | none ↦ elim w.previous [
      | none ↦ install_current w o start
      | some p ↦
          if reset_drift_is_small p.end o.reset o.seconds && w.seconds == o.seconds
          then elim (append_sample f p o o.collection_started_at) [
            | none ↦ none
            | some p' ↦ some (record w { previous = some p' })
          ]
          else install_current w o start
    ]
  ]

  unfoldable pub apply_current : Bool → Window U → Observation U → ℕ → Option (Window U)
  apply_current exists w o start = elim (place (roll_over (restart exists w o) o start) o start) [
    | none ↦ none
    | some w' ↦ some (record (align w' o.seconds) {
      seconds = o.seconds;
      name = o.name;
      model = o.model;
      unmapped = o.unmapped;
      updated_at = o.observed_at;
      hidden = false;
    })
  ]

  -- `commit`: the archive of a reset, and the visibility that a revocation left.
  unfoldable pub commit : Window U → ℕ → Window U
  commit w revoked_at =
      let archived = drop_empty_reset_archive f (or_keep (archive_reset_period f w) w) in
      if is_zero revoked_at
      then archived
      else record archived { hidden = true; updated_at = revoked_at }

  abbrev pub committed : Option (Window U) → ℕ → Option (Window U)
  committed none revoked_at = none
  committed (some w) revoked_at = some (commit w revoked_at)

  -- Usage that is no newer than a revocation is ordered by the usage before it.
  abbrev pub behind_revocation : Window U → Observation U → Bool
  behind_revocation w o = w.hidden && leb o.observed_at w.updated_at

  unfoldable pub apply_usage : Bool → Window U → Observation U → Option (Window U)
  apply_usage exists w o =
      let behind = behind_revocation w o in
      let revoked_at = if behind then w.updated_at else zero_time in
      let v = if behind then record w { updated_at = window_observed_at w } else w in
      committed
        (if is_late v o
          then apply_late f v o
          else apply_current exists v o (o.reset - seconds o.seconds))
        revoked_at

  abbrev pub or_new : Option (Window U) → Observation U → Window U
  or_new none o = new_window o
  or_new (some w) o = w

  -- The window of the observation's key after it, where the observation is accepted.
  unfoldable pub apply_observation : Option (Window U) → Observation U → Option (Window U)
  apply_observation existing o =
      if o.revoked then revoke existing o else apply_usage (is_some existing) (or_new existing o) o
