-- ===== src/Quota/Scenarios.antt =====
-- A report that is accepted, and one that is delayed beyond a revocation.
use cpa_usage_plugin.Common.{ℕ, ◌≤◌, ◌≡◌, refl, true, false, some, List, [], ◌∷◌, arith}
use cpa_usage_plugin.Quota.{Observation, Window}
use cpa_usage_plugin.Quota.Reset.{
  latest_reset, latest_reset_loop, reset_candidate, effective_period,
}
use cpa_usage_plugin.Quota.Compact.{compact_samples}
use cpa_usage_plugin.Quota.Apply.{commit}
use cpa_usage_plugin.Quota.Invariant.{WindowOk}
use cpa_usage_plugin.Common.{Bool}
use cpa_usage_plugin.Quota.{reset_drift_is_small}
use cpa_usage_plugin.Quota.Apply.{
  apply_observation, apply_usage, apply_current, place, roll_over, align,
}
use cpa_usage_plugin.Quota.Archive.{archive_reset_period}
use cpa_usage_plugin.Quota.Reset.{
  effective_loop, after_decrease, pre_reset_samples, pre_reset_loop, drop_empty_reset_archive,
}
use cpa_usage_plugin.Quota.Sample.{has_sample, same_observation, sort_samples, insert_sample}
use cpa_usage_plugin.Quota.Compact.{append_sample}
use cpa_usage_plugin.Quota.Observe.{window_observed_at}
use cpa_usage_plugin.Quota.Accept.{apply_observation-WindowOk}
use cpa_usage_plugin.Quota.Revoked.{HiddenSince, apply_observation-HiddenSince}
use cpa_usage_plugin.Quota.Tests.{thousandths, after, report, five_hours, used_window}

-- Every report is one of at most the whole quota.
abbrev InQuota : Observation ℕ → Type 0
InQuota o = o.used ≤ 1000

-- One report, and a window after the next one.
abbrev after_reports : List (Observation ℕ) → ℕ → Bool → Window ℕ
after_reports samples t hidden = record used_window {
  current = some (five_hours samples);
  updated_at = after t;
  hidden = hidden;
}

abbrev one_report : Window ℕ
one_report = after_reports (report 3600 800 ∷ []) 3600 false

abbrev two_reports : Window ℕ
two_reports = after_reports (report 3600 800 ∷ report 7200 810 ∷ []) 7200 false

second_report : apply_observation thousandths (some one_report) (report 7200 810) ≡ some two_reports
unfolding apply_observation apply_usage apply_current place roll_over align commit
    archive_reset_period effective_period effective_loop after_decrease drop_empty_reset_archive
    pre_reset_samples pre_reset_loop latest_reset latest_reset_loop reset_candidate append_sample
    has_sample same_observation sort_samples insert_sample compact_samples reset_drift_is_small
second_report = refl

one_report-WindowOk : WindowOk InQuota one_report
one_report-WindowOk =
    ((record { each = (omega arith, tt); sorted = (tt, tt); few = omega arith }, refl, refl), tt)

apply_observation-WindowOk_example : WindowOk InQuota two_reports
apply_observation-WindowOk_example =
    apply_observation-WindowOk InQuota thousandths (some one_report) two_reports (report 7200 810)
      second_report (omega arith) one_report-WindowOk

-- The same window, revoked at 8000 seconds.
abbrev revoked_once : Window ℕ
revoked_once = record one_report { hidden = true; updated_at = after 8000 }

abbrev still_revoked : Window ℕ
still_revoked = record two_reports { hidden = true; updated_at = after 8000 }

delayed_report :
    apply_observation thousandths (some revoked_once) (report 7200 810) ≡ some still_revoked
unfolding apply_observation apply_usage apply_current place roll_over align commit
    archive_reset_period effective_period effective_loop after_decrease drop_empty_reset_archive
    pre_reset_samples pre_reset_loop latest_reset latest_reset_loop reset_candidate append_sample
    has_sample same_observation sort_samples insert_sample compact_samples reset_drift_is_small
    window_observed_at
delayed_report = refl

apply_observation-HiddenSince_example : HiddenSince thousandths (after 8000) still_revoked
apply_observation-HiddenSince_example =
    apply_observation-HiddenSince thousandths revoked_once still_revoked (report 7200 810) refl refl
      (omega arith) delayed_report
