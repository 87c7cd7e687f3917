-- ===== src/Fallback/Operations.antt =====
-- go/response_intercept.go: the operations of the coordinator. The clock and the calls of the
-- statistics stand in the arguments and the results.
use cpa_usage_plugin.Common.{
  ℕ, Bool, false, ◌||◌, if◌then◌else◌, Option, none, some, List, [], ◌∷◌, ◌++◌, length, get_elem?,
}
use cpa_usage_plugin.Common.Instant.{is_zero}
use cpa_usage_plugin.Common.Text.{Text, is_empty}
use cpa_usage_plugin.Fallback.{Edge, Correlation, Coordinator}
use cpa_usage_plugin.Fallback.Select.{
  ids_at, remove_at, push_id, push_all, remove_all, first_non_empty, select_best, unseen, ids_of,
}
use cpa_usage_plugin.Fallback.Cleanup.{
  remove_pending, live_at, cleanup, native_reachable, fallback_reachable,
}

-- What HandleNative returns: the record, whether it is accepted, and the fallback that it replaced
-- before that was recorded.
pub record Handled (U : Type 0) : Type 0 where
  pub coordinator : Coordinator U
  pub usage : U
  pub accepted : Bool
  pub replaced : Option ℕ

-- What Schedule does: the native and the fallback record of a call of EnrichRecordedUsage.
pub record Scheduled (U : Type 0) : Type 0 where
  pub coordinator : Coordinator U
  pub enriched : Option (U × U)

module _ {U : Type 0} (f : Correlation U) where
  abbrev pub pending_less : Coordinator U → ℕ → ℕ → Bool
  pending_less c a b = elim (get_elem? c.items a) [
    | none ↦ false
    | some p ↦ elim (get_elem? c.items b) [ none ↦ false | some q ↦ f.stable_less p.usage q.usage ]
  ]

  abbrev pub occurrence_less : Coordinator U → ℕ → ℕ → Bool
  occurrence_less c a b = elim (get_elem? c.occurrences a) [
    | none ↦ false
    | some p ↦ elim (get_elem? c.occurrences b) [
      | none ↦ false
      | some q ↦ f.stable_less p.usage q.usage
    ]
  ]

  -- The edge of a pending fallback that is not cancelled.
  abbrev pub pending_edge : Coordinator U → (U → Option Edge) → ℕ → Option Edge
  pending_edge c edge id = elim (get_elem? c.items id) [
    | none ↦ none
    | some p ↦ if p.cancelled then none else edge p.usage
  ]

  -- The edge of an occurrence that is still reachable.
  abbrev pub occurrence_edge : Coordinator U → (ℕ → Bool) → (U → Option Edge) → ℕ → Option Edge
  occurrence_edge c reachable edge id = elim (get_elem? c.occurrences id) [
    | none ↦ none
    | some o ↦ if reachable id then edge o.usage else none
  ]

  abbrev pub remove_selected : Coordinator U → Option (ℕ × Edge) → Coordinator U × Option ℕ
  remove_selected c none = (c, none)
  remove_selected c (some s) = (remove_pending c s.0, some s.0)

  -- popPendingForNativeLocked
  unfoldable pub pop_for_native : Coordinator U → Text → U → Coordinator U × Option ℕ
  pop_for_native c key native = remove_selected c (
      select_best (pending_edge c (λ u. f.live_edge u native)) (pending_less c)
        (ids_at c.pending key) none)

  -- popCorrelatedPendingLocked
  unfoldable pub pop_correlated : Coordinator U → List Text → U → Coordinator U × Option ℕ
  pop_correlated c keys native = remove_selected c (
      select_best (pending_edge c (λ u. f.key_edge u native)) (pending_less c)
        (unseen (live_at c.items) [] (ids_of c.pending_correlated keys)) none)

  -- removeNativeRecentLocked
  unfoldable pub remove_native : Coordinator U → ℕ → Coordinator U
  remove_native c id = elim (get_elem? c.occurrences id) [
    | none ↦ c
    | some o ↦ record c {
      native_recent = remove_at c.native_recent o.key id;
      native_recent_correlated = remove_all c.native_recent_correlated o.correlation_keys id;
    }
  ]

  -- removeFallbackRecentLocked
  unfoldable pub remove_fallback : Coordinator U → ℕ → Coordinator U
  remove_fallback c id = elim (get_elem? c.occurrences id) [
    | none ↦ c
    | some o ↦ record c {
      fallback_recent = remove_at c.fallback_recent o.key id;
      fallback_recent_correlated = remove_all c.fallback_recent_correlated o.correlation_keys id;
    }
  ]

  abbrev pub usage_of : Coordinator U → ℕ → Option U
  usage_of c id = elim (get_elem? c.occurrences id) [ none ↦ none | some o ↦ some o.usage ]

  abbrev pub consume :
      (Coordinator U → ℕ → Coordinator U)
      → Coordinator U
      → Option (ℕ × Edge)
      → Coordinator U × Option U
  consume remove c none = (c, none)
  consume remove c (some s) = (remove c s.0, usage_of c s.0)

  -- consumeNativeRecentLocked
  unfoldable pub consume_native : Coordinator U → Text → ℕ → U → Coordinator U × Option U
  consume_native c key now fallback = consume remove_native c (
      select_best (occurrence_edge c (native_reachable f c now) (λ u. f.live_edge fallback u))
        (occurrence_less c) (ids_at c.native_recent key) none)

  -- consumeCorrelatedNativeRecentLocked
  unfoldable pub consume_correlated_native :
      Coordinator U → List Text → U → ℕ → Coordinator U × Option U
  consume_correlated_native c keys fallback now = consume remove_native c (
      select_best (occurrence_edge c (native_reachable f c now) (λ u. f.key_edge fallback u))
        (occurrence_less c)
        (unseen (native_reachable f c now) [] (ids_of c.native_recent_correlated keys)) none)

  -- consumeFallbackRecentLocked
  unfoldable pub consume_fallback : Coordinator U → Text → ℕ → U → Coordinator U × Option U
  consume_fallback c key now native = consume remove_fallback c (
      select_best (occurrence_edge c (fallback_reachable f c now) (λ u. f.live_edge u native))
        (occurrence_less c) (ids_at c.fallback_recent key) none)

  -- consumeCorrelatedFallbackRecentLocked
  unfoldable pub consume_correlated_fallback :
      Coordinator U → List Text → U → ℕ → Coordinator U × Option U
  consume_correlated_fallback c keys native now = consume remove_fallback c (
      select_best (occurrence_edge c (fallback_reachable f c now) (λ u. f.key_edge u native))
        (occurrence_less c)
        (unseen (fallback_reachable f c now) [] (ids_of c.fallback_recent_correlated keys)) none)

  -- A record without an instant gets that of the call.
  abbrev pub dated : U → ℕ → U
  dated u clock = if is_zero (f.requested_at u) then f.with_requested_at u clock else u

  abbrev pub add_pending : Coordinator U → Text → List Text → U → Coordinator U
  add_pending c key keys u =
      let id = length c.items in
      record c {
        items =
            c.items
            ++ (record {
              key = key;
              correlation_key = first_non_empty keys;
              correlation_keys = keys;
              usage = u;
              request_at = f.requested_at u;
              cancelled = false;
            }
                ∷ []);
        pending = push_id c.pending key id;
        pending_correlated = push_all c.pending_correlated keys id;
      }

  -- The last two steps of Schedule: a native record that is there takes the fallback's fields, or
  -- the fallback waits.
  abbrev pub schedule_correlated : Coordinator U → Text → List Text → U → ℕ → Scheduled U
  schedule_correlated c key keys u now =
      let (after, found) = consume_correlated_native c keys u now in
      elim found [
        | some native ↦ record { coordinator = after; enriched = some (native, u) }
        | none ↦ record { coordinator = add_pending after key keys u; enriched = none }
      ]

  abbrev pub schedule_native : Coordinator U → Text → List Text → U → ℕ → Scheduled U
  schedule_native c key keys u now =
      let (after, found) = consume_native c key now u in
      elim found [
        | some native ↦ record { coordinator = after; enriched = some (native, u) }
        | none ↦ schedule_correlated after key keys u now
      ]

  -- Schedule; `clock` is the reading for a record without an instant, `now` the one under the lock.
  unfoldable pub schedule : Coordinator U → U → ℕ → ℕ → Scheduled U
  schedule c u clock now =
      let key = f.fingerprint u in
      let v = dated u clock in
      if is_empty key || c.closed
      then record { coordinator = c; enriched = none }
      else schedule_native (cleanup f c now) key (f.fallback_keys v) v now
