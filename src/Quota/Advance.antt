-- ===== src/Quota/Advance.antt =====
-- go/quota_cycles.go, advanceQuotaCyclesLocked: the periods that have ended.
use cpa_usage_plugin.Common.{
  ℕ, ◌<◌, ◌≡◌, refl, Option, none, some, List, [], ◌∷◌, leb, All, arith, Bool-cases, Option-cases,
  inl, inr,
}
use cpa_usage_plugin.Common.Text.{Text}
use cpa_usage_plugin.Quota.{Period, Window, UsageFloat}
use cpa_usage_plugin.Quota.Archive.{archive_reset_period}
use cpa_usage_plugin.Quota.Facts.{QuotaState}
use cpa_usage_plugin.Quota.Cycles.{
  end_period, advance_window, advance_windows, advance_quota_cycles,
}

-- The current period ends after `now`.
abbrev pub Running : {U : Type 0} → ℕ → Option (Period U) → Type 0
Running now none = Unit
Running now (some p) = now < p.end

module _ {U : Type 0} (f : UsageFloat U) where
  end_period-Running : (now : ℕ) (w : Window U) → Running now (end_period f now w).0.current
  unfolding end_period
  end_period-Running now w = elim (Option-cases w.current) [
    | inl e ↦ rw (e, end_period, e) tt
    | inr (c, e) ↦ elim (Bool-cases (leb c.end now)) [
      | inl ended ↦ rw (e, end_period, ended) tt
      | inr live ↦ rw (e, end_period, live, e) (ground (arith, live))
    ]
  ]

  advance_window-Running : (now : ℕ) (w : Window U) → Running now (advance_window f now w).0.current
  unfolding advance_window
  advance_window-Running now w = elim (Option-cases (archive_reset_period f w)) [
    | inl e ↦
        let same : (advance_window f now w).0 ≡ (end_period f now w).0 =
          rw (e, advance_window) refl in
        rw same (end_period-Running now w)
    | inr (archived, e) ↦
        let same : (advance_window f now w).0 ≡ (end_period f now archived).0 =
          rw (e, advance_window) refl in
        rw same (end_period-Running now archived)
  ]

  advance_windows-Running :
      (now : ℕ) (windows : List (Text × Window U))
      → All (λ e. Running now e.1.current) (advance_windows f now windows).0
  unfolding advance_windows
  advance_windows-Running now [] = tt
  advance_windows-Running now ((key, w) ∷ rest) =
      (advance_window-Running now w, advance_windows-Running now rest)

  -- After advanceQuotaCyclesLocked the current period of every window, where it has one, ends after
  -- the instant of the call.
  pub advance_quota_cycles-Running :
      (now : ℕ) (q : QuotaState U)
      → All (λ e. Running now e.1.current) (advance_quota_cycles f now q).windows
  unfolding advance_quota_cycles
  advance_quota_cycles-Running now q = elim (Bool-cases (advance_windows f now q.windows).1) [
    | inl e ↦ rw e (advance_windows-Running now q.windows)
    | inr e ↦ rw e (advance_windows-Running now q.windows)
  ]
