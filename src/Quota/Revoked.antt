-- ===== src/Quota/Revoked.antt =====
-- go/quota_cycles.go, applyQuotaObservationLocked: what was observed before a revocation.
use cpa_usage_plugin.Common.{
  ℕ, ◌≤◌, ◌≡◌, refl, true, false, Option, some, none, arith, Bool-cases, inl, inr,
}
use cpa_usage_plugin.Quota.{Observation, Window, UsageFloat, is_zero}
use cpa_usage_plugin.Quota.Observe.{revoke}
use cpa_usage_plugin.Quota.Apply.{
  commit, committed, behind_revocation, apply_usage, apply_observation,
}

module _ {U : Type 0} (f : UsageFloat U) where
  -- The window is hidden since an instant.
  abbrev pub HiddenSince : ℕ → Window U → Type 0
  HiddenSince t w = (w.hidden ≡ true) × (w.updated_at ≡ t)

  commit-HiddenSince : (w : Window U) (t : ℕ) → is_zero t ≡ false → HiddenSince t (commit f w t)
  unfolding commit
  commit-HiddenSince w t h = rw h (refl, refl)

  committed-HiddenSince :
      (u : Option (Window U)) (v : Window U) (t : ℕ)
      → is_zero t ≡ false
      → committed f u t ≡ some v
      → HiddenSince t v
  committed-HiddenSince none v t z h = absurd (cc)
  committed-HiddenSince (some w) v t z h =
      let same : commit f w t ≡ v = cc in rw (← same) (commit-HiddenSince w t z)

  apply_usage-HiddenSince :
      (w v : Window U) (o : Observation U)
      → behind_revocation f w o ≡ true
      → is_zero w.updated_at ≡ false
      → apply_usage f true w o ≡ some v
      → HiddenSince w.updated_at v
  unfolding apply_usage
  apply_usage-HiddenSince w v o behind z h =
      committed-HiddenSince _ v w.updated_at z (rw behind at h)

  revoke-HiddenSince :
      (w v : Window U) (o : Observation U)
      → w.hidden ≡ true
      → o.observed_at ≤ w.updated_at
      → revoke (some w) o ≡ none
  unfolding revoke
  revoke-HiddenSince w v o hidden before = ground (arith, hidden, before)

  -- A hidden window, revoked at an instant that is not the zero time, stays hidden since then when an
  -- observation that is not after the revocation is accepted.
  pub apply_observation-HiddenSince :
      (w v : Window U) (o : Observation U)
      → w.hidden ≡ true
      → is_zero w.updated_at ≡ false
      → o.observed_at ≤ w.updated_at
      → apply_observation f (some w) o ≡ some v
      → HiddenSince w.updated_at v
  unfolding apply_observation
  apply_observation-HiddenSince w v o hidden z before h = elim (Bool-cases o.revoked) [
    | inl e ↦
        let rejected = revoke-HiddenSince w v o hidden before in
        absurd (ground (arith, e, h, rejected))
    | inr e ↦
        apply_usage-HiddenSince w v o (ground (arith, hidden, before)) z (ground (arith, e, h))
  ]
