-- ===== src/Quota/History.antt =====
-- go/quota_storage.go and go/quota_pricing.go: the histories of one window from two backups, the
-- repair of stored periods, and a deadline that is only a placeholder.
use cpa_usage_plugin.Common.{
  ℕ, ◌-◌, Bool, true, false, ◌&&◌, ◌||◌, not, Option, none, some, List, [], ◌∷◌, ltb, leb, ◌==◌,
  if◌then◌else◌, length,
}
use cpa_usage_plugin.Common.Text.{Text, text_eq}
use cpa_usage_plugin.Quota.{
  Observation, Period, Window, UsageFloat, seconds, minute, reset_drift_is_small, period_precedes,
}
use cpa_usage_plugin.Quota.Reset.{empty_reset_archive, drop_empty_reset_archive}
use cpa_usage_plugin.Quota.Sample.{sort_samples, samples_sorted, valid_period_span}
use cpa_usage_plugin.Quota.Compact.{compact_samples, append_sample}
use cpa_usage_plugin.Quota.Archive.{or_keep}
use cpa_usage_plugin.Quota.Observe.{last_sample, window_observed_at}

module _ {U : Type 0} where
  abbrev pub first_before : List (Observation U) → ℕ → Bool
  first_before [] t = false
  first_before (s ∷ rest) t = ltb s.observed_at t

  -- quotaPeriodsShareObservedWindow
  unfoldable pub periods_share_observed_window : Option (Period U) → Period U → Bool
  periods_share_observed_window none b = false
  periods_share_observed_window (some a) b =
      ltb a.start b.end
      && (ltb b.start a.end && (first_before a.samples b.end && first_before b.samples a.end))

  abbrev pub ends_near : Option (Period U) → Period U → ℕ → Bool
  ends_near none p n = false
  ends_near (some a) p n = reset_drift_is_small a.end p.end n

  -- The window whose periods are kept: the newest one, or for a revoked one that with later usage.
  unfoldable pub order_histories : Window U → Window U → Window U × Window U
  order_histories w incoming =
      if w.hidden
        && (ltb 0 incoming.seconds
            && (w.seconds == 0 || ltb (window_observed_at w) (window_observed_at incoming)))
      then (record incoming { updated_at = w.updated_at; hidden = true }, w)
      else (w, incoming)

  abbrev pub is_newer_previous : Option (Period U) → Period U → ℕ → Bool
  is_newer_previous none p n = true
  is_newer_previous (some q) p n = ltb q.end p.end && not (reset_drift_is_small p.end q.end n)

  -- The incoming period as the predecessor of the current one, without its samples.
  abbrev pub as_previous : Period U → Period U → ℕ → Period U
  as_previous p c n =
      let end = if reset_drift_is_small p.end c.start n then c.start else p.end in
      record p {
        end = end;
        samples = [];
        start = if p.ended_by_reset then p.start else end - seconds n;
      }

  unfoldable pub take_previous : Window U → Period U → Window U
  take_previous w p = elim w.current [
    | none ↦ w
    | some c ↦
        let copy = as_previous p c w.seconds in
        if is_newer_previous w.previous p w.seconds
          && (period_precedes p.end c.start w.seconds && ltb copy.start copy.end)
        then record w { previous = some copy }
        else w
  ]

  -- The closure `broken` of repairQuotaPeriods.
  unfoldable pub is_broken : ℕ → Option (Period U) → Bool
  is_broken n none = false
  is_broken n (some p) =
      ltb 64 (length p.samples) || (not (valid_period_span p n) || not (samples_sorted p.samples))

abbrev pub antigravity : Text
antigravity = b'a' ∷ b'n' ∷ b't' ∷ b'i' ∷ b'g' ∷ b'r' ∷ b'a' ∷ b'v' ∷ b'i' ∷ b't' ∷ b'y' ∷ []

-- The period of a window that takes the incoming samples.
pub data Target : Type 0 where
  neither : Target
  the_previous : Target
  the_current : Target

module _ {U : Type 0} where
  -- The first period that ends near the incoming one, else the only one that overlaps it.
  unfoldable pub target_of : Window U → Period U → Target
  target_of w p =
      let in_previous = periods_share_observed_window w.previous p in
      let in_current = periods_share_observed_window w.current p in
      if ends_near w.previous p w.seconds
      then the_previous
      else if ends_near w.current p w.seconds
      then the_current
      else if in_previous && in_current
      then neither
      else if in_previous
      then the_previous
      else if in_current
      then the_current
      else neither

module _ {U : Type 0} (f : UsageFloat U) where
  unfoldable pub append_all : Period U → List (Observation U) → ℕ → Period U
  append_all p [] started = p
  append_all p (s ∷ rest) started =
      append_all (or_keep (append_sample f p s started) p) rest started

  abbrev pub append_to : Option (Period U) → Period U → Option (Period U)
  append_to none p = none
  append_to (some q) p = some (append_all q p.samples p.collection_started_at)

  unfoldable pub give_samples : Window U → Period U → Target → Window U
  give_samples w p neither = w
  give_samples w p the_previous = record w { previous = append_to w.previous p }
  give_samples w p the_current = record w { current = append_to w.current p }

  -- One round of the loop over the incoming periods.
  unfoldable pub merge_period : Window U → Option (Period U) → Window U
  merge_period w none = w
  merge_period w (some p) = let v = take_previous w p in give_samples v p (target_of v p)

  -- mergeQuotaWindowHistory
  unfoldable pub merge_window_history : Window U → Window U → Window U
  merge_window_history newest older =
      let (w, incoming) = order_histories newest older in
      if w.seconds == incoming.seconds
      then merge_period (merge_period w incoming.previous) incoming.current
      else w

  -- The closure `repair`.
  unfoldable pub repair : ℕ → Option (Period U) → Option (Period U)
  repair n none = none
  repair n (some p) =
      if valid_period_span p n
      then some (compact_samples f (record p { samples = sort_samples p.samples }))
      else none

  -- repairQuotaPeriods for one window.
  unfoldable pub repair_window : Window U → Window U
  repair_window w =
      let repaired = drop_empty_reset_archive f (record w {
        current = repair w.seconds w.current;
        previous = repair w.seconds w.previous;
      }) in
      if not (is_broken w.seconds w.current)
        && (not (is_broken w.seconds w.previous) && not (empty_reset_archive f w.previous))
      then w
      else repaired

  abbrev pub repair_quota_periods : List (Text × Window U) → List (Text × Window U)
  repair_quota_periods [] = []
  repair_quota_periods ((key, w) ∷ rest) = (key, repair_window w) ∷ repair_quota_periods rest

  -- quotaResetTimeUnknown
  unfoldable pub reset_time_unknown : Window U → Option (Period U) → Bool
  reset_time_unknown w none = false
  reset_time_unknown w (some p) = elim (last_sample p.samples) [
    | none ↦ false
    | some last ↦
        let start = last.reset - seconds w.seconds in
        text_eq w.provider antigravity
        && (not p.ended_by_reset
            && (ltb 0 w.seconds
                && (f.eq last.used f.zero
                    && (leb start last.observed_at && leb (last.observed_at - start) minute))))
  ]
