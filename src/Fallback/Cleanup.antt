-- ===== src/Fallback/Cleanup.antt =====
-- go/response_intercept.go: the steps that the coordinator's operations share.
use cpa_usage_plugin.Common.{
  ℕ, ◌+◌, ◌*◌, Bool, true, false, not, leb, if◌then◌else◌, Option, none, some, List, [], ◌∷◌,
  get_elem?, set,
}
use cpa_usage_plugin.Common.Instant.{second, time_sub}
use cpa_usage_plugin.Common.Text.{Text, is_empty}
use cpa_usage_plugin.Common.Maps.{delete}
use cpa_usage_plugin.Fallback.{Correlation, PendingFallback, Occurrence, Coordinator}
use cpa_usage_plugin.Fallback.Select.{ids_at, remove_at, remove_all, clean_index, correlated_of}

-- usageFallbackNativeRecentWindow, 750 ms
abbrev pub native_recent_window : ℕ
native_recent_window = 750000000

-- usageFallbackCorrelationRetentionGrace
abbrev pub retention_grace : ℕ
retention_grace = second

-- usageFallbackLateNativeWindow
abbrev pub late_native_window : ℕ
late_native_window = 30 * second

module _ {U : Type 0} where
  -- newUsageFallbackCoordinator
  abbrev pub new_coordinator : Coordinator U
  new_coordinator = record {
    items = [];
    occurrences = [];
    pending = [];
    pending_correlated = [];
    native_recent = [];
    native_recent_correlated = [];
    fallback_recent = [];
    fallback_recent_correlated = [];
    closed = false;
  }

  abbrev pub is_live : Option (PendingFallback U) → Bool
  is_live none = false
  is_live (some p) = not p.cancelled

  abbrev pub live_at : List (PendingFallback U) → ℕ → Bool
  live_at items id = is_live (get_elem? items id)

  -- `pending.cancelled = true`
  unfoldable pub cancel : Coordinator U → ℕ → Coordinator U
  cancel c id = elim (get_elem? c.items id) [
    | none ↦ c
    | some p ↦ record c { items = set c.items id (record p { cancelled = true }) }
  ]

  -- removePendingLocked
  unfoldable pub remove_pending : Coordinator U → ℕ → Coordinator U
  remove_pending c id = elim (get_elem? c.items id) [
    | none ↦ c
    | some p ↦ record c {
      pending = remove_at c.pending p.key id;
      pending_correlated = remove_all c.pending_correlated p.correlation_keys id;
    }
  ]

  unfoldable pub first_live : List (PendingFallback U) → List ℕ → Option ℕ
  first_live items [] = none
  first_live items (id ∷ rest) =
      let later = first_live items rest in if live_at items id then some id else later

  -- popPendingLocked
  unfoldable pub pop_pending : Coordinator U → Text → Coordinator U × Option ℕ
  pop_pending c key = elim (first_live c.items (ids_at c.pending key)) [
    | some id ↦ (remove_pending c id, some id)
    | none ↦ elim (ids_at c.pending key) [
      | [] ↦ (record c { pending = delete c.pending key }, none)
      | x ∷ xs ↦ (c, none)
    ]
  ]

  module _ (f : Correlation U) where
    -- nativeRecentRetention
    unfoldable pub native_retention : Occurrence U → ℕ
    native_retention o =
        if is_empty o.correlation_key
        then native_recent_window
        else f.tolerance o.usage + retention_grace

    abbrev pub native_reachable : Coordinator U → ℕ → ℕ → Bool
    native_reachable c now id = elim (get_elem? c.occurrences id) [
      | none ↦ false
      | some o ↦ leb (time_sub now o.observed_at) (native_retention o)
    ]

    abbrev pub fallback_reachable : Coordinator U → ℕ → ℕ → Bool
    fallback_reachable c now id = elim (get_elem? c.occurrences id) [
      | none ↦ false
      | some o ↦ leb (time_sub now o.observed_at) late_native_window
    ]

    abbrev pub occurrence_keys : Coordinator U → ℕ → List Text
    occurrence_keys c id = elim (get_elem? c.occurrences id) [
      | none ↦ []
      | some o ↦ o.correlation_keys
    ]

    abbrev pub pending_keys : Coordinator U → ℕ → List Text
    pending_keys c id = elim (get_elem? c.items id) [ none ↦ [] | some p ↦ p.correlation_keys ]

    -- cleanupLocked
    unfoldable pub cleanup : Coordinator U → ℕ → Coordinator U
    cleanup c now =
        let native = clean_index (native_reachable c now) c.native_recent in
        let fallback = clean_index (fallback_reachable c now) c.fallback_recent in
        let pending = clean_index (live_at c.items) c.pending in
        record c {
          native_recent = native;
          native_recent_correlated = correlated_of (occurrence_keys c) native [];
          fallback_recent = fallback;
          fallback_recent_correlated = correlated_of (occurrence_keys c) fallback [];
          pending = pending;
          pending_correlated = correlated_of (pending_keys c) pending [];
        }
