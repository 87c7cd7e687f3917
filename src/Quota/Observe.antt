-- ===== src/Quota/Observe.antt =====
-- go/quota_cycles.go, applyQuotaObservationLocked for one window.
use cpa_usage_plugin.Common.{
  ℕ, ◌-◌, Bool, true, false, ◌&&◌, ◌||◌, Option, none, some, List, [], ◌∷◌, ltb, leb, ◌==◌,
  if◌then◌else◌,
}
use cpa_usage_plugin.Quota.{
  Observation, Period, Window, UsageFloat, zero_time, seconds, reset_drift_is_small,
  period_precedes,
}
use cpa_usage_plugin.Quota.Compact.{append_sample}
use cpa_usage_plugin.Quota.Archive.{or_keep}

module _ {U : Type 0} where
  abbrev pub last_sample : List (Observation U) → Option (Observation U)
  last_sample [] = none
  last_sample (s ∷ []) = some s
  last_sample (s ∷ t ∷ rest) = last_sample (t ∷ rest)

  abbrev pub last_observed : Option (Period U) → ℕ → ℕ
  last_observed none latest = latest
  last_observed (some p) latest = elim (last_sample p.samples) [
    | none ↦ latest
    | some s ↦ if ltb latest s.observed_at then s.observed_at else latest
  ]

  -- quotaWindowObservedAt
  unfoldable pub window_observed_at : Window U → ℕ
  window_observed_at w = last_observed w.previous (last_observed w.current zero_time)

  -- The window of an observation that is the first of its key.
  unfoldable pub new_window : Observation U → Window U
  new_window o = record {
    source = o.source;
    provider = o.provider;
    auth_index = o.auth_index;
    auth_id = o.auth_id;
    group = o.group;
    name = o.name;
    slot = o.slot;
    seconds = o.seconds;
    model = o.model;
    unmapped = o.unmapped;
    hidden = false;
    updated_at = zero_time;
    current = none;
    previous = none;
  }

  -- The marker of a revocation that arrives before any usage.
  unfoldable pub revoked_window : Observation U → Window U
  revoked_window o = record {
    source = o.source;
    provider = o.provider;
    auth_index = o.auth_index;
    auth_id = o.auth_id;
    group = o.group;
    name = [];
    slot = o.slot;
    seconds = 0;
    model = [];
    unmapped = false;
    hidden = false;
    updated_at = zero_time;
    current = none;
    previous = none;
  }

  -- `o.ObservedAt.Before(w.UpdatedAt) || (w.Hidden && o.ObservedAt.Equal(w.UpdatedAt))`
  abbrev pub is_late : Window U → Observation U → Bool
  is_late w o = ltb o.observed_at w.updated_at || (w.hidden && o.observed_at == w.updated_at)

  -- The branch for a revocation.
  unfoldable pub revoke : Option (Window U) → Observation U → Option (Window U)
  revoke none o = some (record (revoked_window o) { hidden = true; updated_at = o.observed_at })
  revoke (some w) o =
      if is_late w o then none else some (record w { hidden = true; updated_at = o.observed_at })

  abbrev pub single : Observation U → ℕ → ℕ → Period U
  single o start end = record {
    ended_by_reset = false;
    reset_time_estimated = false;
    start = start;
    end = end;
    collection_started_at = o.collection_started_at;
    samples = o ∷ [];
  }

module _ {U : Type 0} (f : UsageFloat U) where
  -- A late observation of the period that a reset ended.
  abbrev pub is_in_archive : Window U → Observation U → Period U → Bool
  is_in_archive w o p =
      p.ended_by_reset
      && (w.seconds == o.seconds
          && (leb p.start o.observed_at
              && (ltb o.observed_at p.end && elim (last_sample p.samples) [
                | none ↦ false
                | some s ↦ reset_drift_is_small s.reset o.reset o.seconds
              ])))

  -- The current period keeps the observation too, if it is the one that was reset.
  abbrev pub append_current : Option (Period U) → Period U → Observation U → Option (Period U)
  append_current none archive o = none
  append_current (some c) archive o = some (
      if leb c.start archive.end
      then or_keep (append_sample f c o o.collection_started_at) c
      else c)

  unfoldable pub late_archive : Window U → Observation U → Period U → Option (Window U)
  late_archive w o p = elim (append_sample f p o o.collection_started_at) [
    | none ↦ none
    | some p' ↦ some (record w { previous = some p'; current = append_current w.current p o })
  ]

  -- One round of the loop over the two periods: the period with the observation, if it belongs there.
  abbrev pub late_into : Window U → Observation U → Option (Period U) → Option (Period U)
  late_into w o none = none
  late_into w o (some p) =
      if w.seconds == o.seconds && reset_drift_is_small p.end o.reset o.seconds
      then append_sample f p o o.collection_started_at
      else none

  abbrev pub ends_before : Option (Period U) → ℕ → Bool
  ends_before none t = true
  ends_before (some p) t = ltb p.end t

  -- A predecessor that is observed out of order.
  unfoldable pub late_previous : Window U → Observation U → Option (Window U)
  late_previous w o = elim w.current [
    | none ↦ none
    | some c ↦
        let end = if reset_drift_is_small o.reset c.start o.seconds then c.start else o.reset in
        if w.seconds == o.seconds
          && (ends_before w.previous o.reset && period_precedes o.reset c.start o.seconds)
        then some (record w { previous = some (single o (end - seconds o.seconds) end) })
        else none
  ]

  unfoldable pub late_periods : Window U → Observation U → Option (Window U)
  late_periods w o = elim (late_into w o w.current) [
    | some c ↦ some (record w { current = some c })
    | none ↦ elim (late_into w o w.previous) [
      | some p ↦ some (record w { previous = some p })
      | none ↦ late_previous w o
    ]
  ]

  -- The branch for an observation that is older than the window's state.
  unfoldable pub apply_late : Window U → Observation U → Option (Window U)
  apply_late w o = elim w.previous [
    | none ↦ late_periods w o
    | some p ↦ if is_in_archive w o p then late_archive w o p else late_periods w o
  ]
