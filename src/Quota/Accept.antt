-- ===== src/Quota/Accept.antt =====
-- go/quota_cycles.go, applyQuotaObservationLocked: any observation and a window's invariant.
use cpa_usage_plugin.Common.{
  if◌then◌else◌, ℕ, ◌-◌, ◌≡◌, refl, Bool, true, false, Option, some, none, ◌==◌, arith, Bool-cases,
  Option-cases, inl, inr,
}
use cpa_usage_plugin.Quota.{Observation, Window, UsageFloat, zero_time, seconds}
use cpa_usage_plugin.Quota.Observe.{
  window_observed_at, new_window, revoked_window, is_late, revoke, apply_late,
}
use cpa_usage_plugin.Quota.Apply.{
  is_some, restart, roll_over, align, place, apply_current, commit, committed, behind_revocation,
  apply_usage, or_new, apply_observation,
}
use cpa_usage_plugin.Quota.Invariant.{PeriodsOk, WindowOk}
use cpa_usage_plugin.Quota.Preserve.{commit-WindowOk}
use cpa_usage_plugin.Quota.Late.{apply_late-WindowOk}
use cpa_usage_plugin.Quota.Keep.{
  align-PeriodsOk, roll_over-PeriodsOk, place-Placed, Placed-PeriodsOk,
}

module _ {U : Type 0} (P : Observation U → Type 0) (f : UsageFloat U) where
  restart-PeriodsOk :
      (exists : Bool) (w : Window U) (o : Observation U)
      → (exists ≡ false → w.seconds ≡ o.seconds)
      → WindowOk P w
      → PeriodsOk P o.seconds (restart exists w o)
  restart-PeriodsOk false w o new ok = rw (new refl) at ok
  restart-PeriodsOk true w o new ok = elim (Bool-cases (w.seconds == o.seconds)) [
    | inl e ↦ let same : w.seconds ≡ o.seconds = ground (arith, e) in rw e (rw same at ok)
    | inr e ↦ rw e (tt, tt)
  ]

  apply_current-WindowOk :
      (exists : Bool) (w v : Window U) (o : Observation U)
      → apply_current f exists w o (o.reset - seconds o.seconds) ≡ some v
      → (exists ≡ false → w.seconds ≡ o.seconds)
      → P o
      → WindowOk P w
      → WindowOk P v
  unfolding apply_current
  apply_current-WindowOk exists w v o h new po ok =
      let start = o.reset - seconds o.seconds in
      let rolled = roll_over (restart exists w o) o start in
      elim (Option-cases (place f rolled o start)) [
        | inl e ↦ absurd (ground (arith, e, h))
        | inr (u, e) ↦
            let same : record (align u o.seconds) {
              seconds = o.seconds;
              name = o.name;
              model = o.model;
              unmapped = o.unmapped;
              updated_at = o.observed_at;
              hidden = false;
            }
                ≡ v =
              ground (arith, e, h) in
            let fine = align-PeriodsOk P f o.seconds u (
              Placed-PeriodsOk P f o.seconds rolled u o po
                (roll_over-PeriodsOk P f o.seconds (restart exists w o) o start
                  (restart-PeriodsOk exists w o new ok))
                (place-Placed P f rolled u o start e)) in
            rw (← same) fine
      ]

  committed-WindowOk :
      (u : Option (Window U)) (v : Window U) (revoked_at : ℕ)
      → committed f u revoked_at ≡ some v
      → ((w : Window U) → u ≡ some w → WindowOk P w)
      → WindowOk P v
  committed-WindowOk none v revoked_at h ok = absurd (cc)
  committed-WindowOk (some w) v revoked_at h ok =
      let same : commit f w revoked_at ≡ v = cc in
      rw (← same) (commit-WindowOk P f w revoked_at (ok w refl))

  -- The two ways to accept usage.
  step-WindowOk :
      (late exists : Bool) (w v : Window U) (o : Observation U)
      → (if late
          then apply_late f w o
          else apply_current f exists w o (o.reset - seconds o.seconds))
        ≡ some v
      → (exists ≡ false → w.seconds ≡ o.seconds)
      → P o
      → WindowOk P w
      → WindowOk P v
  step-WindowOk true exists w v o h new po ok = apply_late-WindowOk P f w v o h po ok
  step-WindowOk false exists w v o h new po ok = apply_current-WindowOk exists w v o h new po ok

  apply_usage-WindowOk :
      (exists : Bool) (w v : Window U) (o : Observation U)
      → apply_usage f exists w o ≡ some v
      → (exists ≡ false → w.seconds ≡ o.seconds)
      → P o
      → WindowOk P w
      → WindowOk P v
  unfolding apply_usage
  apply_usage-WindowOk exists w v o h new po ok = elim (Bool-cases (behind_revocation f w o)) [
    | inl e ↦
        let before = record w { updated_at = window_observed_at w } in
        committed-WindowOk _ v w.updated_at (rw e at h)
          (λ u k. step-WindowOk (is_late before o) exists before u o k new po ok)
    | inr e ↦
        committed-WindowOk _ v zero_time (rw e at h)
          (λ u k. step-WindowOk (is_late w o) exists w u o k new po ok)
  ]

  -- The invariant of the window of a key, where there is one.
  abbrev pub ExistingOk : Option (Window U) → Type 0
  ExistingOk none = Unit
  ExistingOk (some w) = WindowOk P w

  revoke-WindowOk :
      (existing : Option (Window U)) (v : Window U) (o : Observation U)
      → revoke existing o ≡ some v
      → ExistingOk existing
      → WindowOk P v
  unfolding revoke revoked_window
  revoke-WindowOk none v o h ok =
      let same : record (revoked_window o) { hidden = true; updated_at = o.observed_at } ≡ v = cc in
      rw (← same) (tt, tt)
  revoke-WindowOk (some w) v o h ok = elim (Bool-cases (is_late w o)) [
    | inl e ↦ absurd (ground (arith, e, h))
    | inr e ↦
        let same : record w { hidden = true; updated_at = o.observed_at } ≡ v =
          ground (arith, e, h) in
        rw (← same) ok
  ]

  usage-WindowOk :
      (existing : Option (Window U)) (v : Window U) (o : Observation U)
      → apply_usage f (is_some existing) (or_new f existing o) o ≡ some v
      → P o
      → ExistingOk existing
      → WindowOk P v
  unfolding new_window
  usage-WindowOk none v o h po ok =
      apply_usage-WindowOk false (new_window o) v o h (λ e. refl) po (tt, tt)
  usage-WindowOk (some w) v o h po ok = apply_usage-WindowOk true w v o h (λ e. absurd (cc)) po ok

  -- Where applyQuotaObservationLocked accepts an observation with the property `P`, usage or
  -- revocation, in order or late, the window that it stores has the invariant if the window before,
  -- where there was one, had it: each period holds at most 64 samples, in order and each with `P`;
  -- the current period, and the previous one unless a reset ended it, span the window's length; and
  -- a period that a reset ended is the previous one and is not empty.
  pub apply_observation-WindowOk :
      (existing : Option (Window U)) (v : Window U) (o : Observation U)
      → apply_observation f existing o ≡ some v
      → P o
      → ExistingOk existing
      → WindowOk P v
  unfolding apply_observation
  apply_observation-WindowOk existing v o h po ok = elim (Bool-cases o.revoked) [
    | inl e ↦ revoke-WindowOk existing v o (ground (arith, e, h)) ok
    | inr e ↦ usage-WindowOk existing v o (ground (arith, e, h)) po ok
  ]
