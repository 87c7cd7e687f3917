-- ===== src/Fallback/Handlers.antt =====
-- go/response_intercept.go: HandleNative, Supersede, commit and Flush of the coordinator. A call of
-- Record of the statistics is a record in the result; a commit records before Flush goes on, since
-- Flush waits for the commits that have begun.
use cpa_usage_plugin.Common.{
  ℕ, true, false, ◌||◌, if◌then◌else◌, Option, none, some, List, [], ◌∷◌, ◌++◌, length, get_elem?,
}
use cpa_usage_plugin.Common.Text.{Text, is_empty}
use cpa_usage_plugin.Fallback.{Correlation, PendingFallback, Occurrence, Coordinator}
use cpa_usage_plugin.Fallback.Select.{push_id, push_all, first_non_empty}
use cpa_usage_plugin.Fallback.Cleanup.{cancel, remove_pending, pop_pending, cleanup}
use cpa_usage_plugin.Fallback.Operations.{
  Handled, dated, pop_for_native, pop_correlated, consume_fallback, consume_correlated_fallback,
}

-- The pointers of a list of pending fallbacks, one after the other.
unfoldable pub all_ids : List (Text × List ℕ) → List ℕ
all_ids [] = []
all_ids ((key, l) ∷ rest) = l ++ all_ids rest

module _ {U : Type 0} where
  abbrev pub native_occurrence : Text → List Text → ℕ → ℕ → U → Occurrence U
  native_occurrence key keys request_at now u = record {
    key = key;
    correlation_key = first_non_empty keys;
    correlation_keys = keys;
    request_at = request_at;
    observed_at = now;
    usage = u;
  }

  abbrev pub fallback_occurrence : PendingFallback U → ℕ → Occurrence U
  fallback_occurrence p now = record {
    key = p.key;
    correlation_key = p.correlation_key;
    correlation_keys = p.correlation_keys;
    request_at = p.request_at;
    observed_at = now;
    usage = p.usage;
  }

  -- Supersede: the fallbacks that are cancelled, one for each key that has one
  unfoldable pub supersede_keys : Coordinator U → List Text → Coordinator U × List ℕ
  supersede_keys c [] = (c, [])
  supersede_keys c (key ∷ keys) =
      let (popped, found) = pop_pending c key in
      let skipped = supersede_keys c keys in
      let kept = supersede_keys popped keys in
      if is_empty key then skipped else elim found [
        | none ↦ kept
        | some id ↦ let (after, ids) = supersede_keys (cancel popped id) keys in (after, id ∷ ids)
      ]

  unfoldable pub supersede : Coordinator U → List Text → Coordinator U × List ℕ
  supersede c keys = if c.closed then (c, []) else supersede_keys c keys

  -- The loop of Flush: each fallback that is not cancelled is cancelled, and recorded afterwards.
  unfoldable pub flush_ids : Coordinator U → List ℕ → Coordinator U × List (ℕ × U)
  flush_ids c [] = (c, [])
  flush_ids c (id ∷ ids) = elim (get_elem? c.items id) [
    | none ↦ flush_ids c ids
    | some p ↦
        let skipped = flush_ids c ids in
        let (after, records) = flush_ids (cancel c id) ids in
        if p.cancelled then skipped else (after, (id, p.usage) ∷ records)
  ]

  -- Flush
  unfoldable pub flush : Coordinator U → Coordinator U × List (ℕ × U)
  flush c =
      let (after, records) = flush_ids (record c { closed = true }) (all_ids c.pending) in
      (record after { pending = []; pending_correlated = [] }, records)

  module _ (f : Correlation U) where
    abbrev pub remember_native : Coordinator U → Text → List Text → U → ℕ → Coordinator U
    remember_native c key keys u now =
        let id = length c.occurrences in
        record c {
          occurrences = c.occurrences ++ (native_occurrence key keys (f.requested_at u) now u ∷ []);
          native_recent = push_id c.native_recent key id;
          native_recent_correlated = push_all c.native_recent_correlated keys id;
        }

    abbrev pub passed : Coordinator U → U → Handled U
    passed c u = record { coordinator = c; usage = u; accepted = true; replaced = none }

    -- A fallback that is pending is cancelled, and the native record takes its fields.
    abbrev pub replace_pending : Coordinator U → ℕ → U → Handled U
    replace_pending c id u = elim (get_elem? c.items id) [
      | none ↦ passed c u
      | some p ↦ record {
        coordinator = cancel c id;
        usage = f.enrich u p.usage;
        accepted = true;
        replaced = some id;
      }
    ]

    -- A fallback that was recorded is replaced where the statistics still have it.
    abbrev pub replace_recorded : Coordinator U → U → U → Handled U
    replace_recorded c old u =
        if f.is_recorded old
        then record { coordinator = c; usage = f.enrich u old; accepted = true; replaced = none }
        else record { coordinator = c; usage = u; accepted = false; replaced = none }

    abbrev pub native_late_correlated : Coordinator U → Text → List Text → U → ℕ → Handled U
    native_late_correlated c key keys u now =
        let (after, found) = consume_correlated_fallback f c keys u now in
        elim found [
          | some old ↦ replace_recorded after old u
          | none ↦ passed (remember_native after key keys u now) u
        ]

    abbrev pub native_late : Coordinator U → Text → List Text → U → ℕ → Handled U
    native_late c key keys u now =
        let (after, found) = consume_fallback f c key now u in
        elim found [
          | some old ↦ replace_recorded after old u
          | none ↦ native_late_correlated after key keys u now
        ]

    abbrev pub native_correlated : Coordinator U → Text → List Text → U → ℕ → Handled U
    native_correlated c key keys u now =
        let (after, found) = pop_correlated f c keys u in
        elim found [
          | some id ↦ replace_pending after id u
          | none ↦ native_late after key keys u now
        ]

    abbrev pub native_pending : Coordinator U → Text → List Text → U → ℕ → Handled U
    native_pending c key keys u now =
        let (after, found) = pop_for_native f c key u in
        elim found [
          | some id ↦ replace_pending after id u
          | none ↦ native_correlated after key keys u now
        ]

    -- HandleNative; `clock` is the reading for a record without an instant.
    unfoldable pub handle_native : Coordinator U → U → ℕ → ℕ → Handled U
    handle_native c u clock now =
        let key = f.fingerprint u in
        let v = dated f u clock in
        if is_empty key
        then passed c u
        else native_pending (cleanup f c now) key (f.native_keys v) v now

    abbrev pub remember_fallback : Coordinator U → PendingFallback U → ℕ → Coordinator U
    remember_fallback c p now =
        let id = length c.occurrences in
        record c {
          occurrences = c.occurrences ++ (fallback_occurrence p now ∷ []);
          fallback_recent = push_id c.fallback_recent p.key id;
          fallback_recent_correlated = push_all c.fallback_recent_correlated p.correlation_keys id;
        }

    -- commit: the record that the statistics get
    unfoldable pub commit : Coordinator U → ℕ → ℕ → Coordinator U × Option (ℕ × U)
    commit c id now = elim (get_elem? c.items id) [
      | none ↦ (c, none)
      | some p ↦ if c.closed || p.cancelled then (remove_pending c id, none) else (
        cleanup f (remember_fallback (remove_pending (cancel c id) id) p now) now,
        some (id, f.learned p.usage),
      )
    ]
