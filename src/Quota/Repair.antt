-- ===== src/Quota/Repair.antt =====
-- go/quota_storage.go, repairQuotaPeriods for one window.
use cpa_usage_plugin.Common.{
  ℕ, ◌+◌, ◌*◌, get_elem?, ◌⊎◌, ◌<◌, ◌≤◌, ◌≡◌, true, false, Option, none, some, length,
}
use cpa_usage_plugin.Quota.{Observation, Period, Window, UsageFloat}
use cpa_usage_plugin.Quota.Order.{IsSorted}

module _ {U : Type 0} (f : UsageFloat U) where
  -- At most 64 samples, in order, within a span that is not empty and not longer than the window, and
  -- as long as the window unless a reset ended it.
  abbrev pub Sampled : ℕ → Option (Period U) → Type 0
  Sampled n none = Unit
  Sampled n (some p) =
      (length p.samples ≤ 64)
      × IsSorted p.samples
      × (p.start < p.end)
      × (p.end ≤ p.start + n * 1000000000)
      × ((p.ended_by_reset ≡ true) ⊎ (p.end ≡ p.start + n * 1000000000))

  -- Not an archive that a reset ended without any usage in its samples.
  abbrev pub Used : Option (Period U) → Type 0
  Used none = Unit
  Used (some p) =
      (p.ended_by_reset ≡ false)
      ⊎ ((length p.samples ≡ 0)
          ⊎ ((i : ℕ) × (s : Observation U) × (get_elem? p.samples i ≡ some s)
              × (f.lt f.zero s.used ≡ true)))

  -- Both periods are as they should be, and the previous one is not an empty archive.
  abbrev pub IsWhole : Window U → Type 0
  IsWhole w = Sampled w.seconds w.current × Sampled w.seconds w.previous × Used w.previous
