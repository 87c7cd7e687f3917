-- ===== src/Fallback/Tests.antt =====
-- A concrete coordinator, and the theorems of this part at it.
use cpa_usage_plugin.Common.{
  ℕ, zero, suc, ◌+◌, ◌*◌, ◌≡◌, ◌≤◌, ◌<◌, refl, true, ◌==◌, ltb, if◌then◌else◌, Option, none, some,
  List, [], ◌∷◌, length, arith,
}
use cpa_usage_plugin.Common.Instant.{zero_time, second}
use cpa_usage_plugin.Fallback.{Edge, Correlation}
use cpa_usage_plugin.Common.Maps.{lookup, insert, delete}
use cpa_usage_plugin.Fallback.Select.{
  ids_at, contains, remove_id, store_ids, remove_at, push_id, push_all, remove_all, first_non_empty,
  better_candidate, select_best, unseen, ids_of, kept_ids, clean_index, push_each, correlated_of,
}
use cpa_usage_plugin.Fallback.Cleanup.{
  cancel, remove_pending, first_live, pop_pending, cleanup, native_retention,
}
use cpa_usage_plugin.Fallback.Operations.{
  pop_for_native, pop_correlated, remove_native, remove_fallback, consume_native,
  consume_correlated_native, consume_fallback, consume_correlated_fallback, schedule,
}
use cpa_usage_plugin.Fallback.Handlers.{
  handle_native, supersede, supersede_keys, commit, flush, flush_ids, all_ids,
}
use cpa_usage_plugin.Fallback.Run.{log_all}
use cpa_usage_plugin.Fallback.Accounted.{recorded, replaced, superseded, ends}
use cpa_usage_plugin.Fallback.Run.{
  Event, schedule_event, native_event, supersede_event, commit_event, flush_event, on_event, run,
  at_start,
}
use cpa_usage_plugin.Fallback.Best.{AsGood, Comes, select_best-AsGood}
use cpa_usage_plugin.Fallback.Delivery.{run-once, flush_complete}

-- A record is its number: records with one number are of one request.
abbrev by_number : Correlation ℕ
by_number = record {
  requested_at = λ u. zero_time + second;
  with_requested_at = λ u t. u;
  fingerprint = λ u. u ∷ [];
  fallback_keys = λ u. [];
  native_keys = λ u. [];
  live_edge = λ a b. if a == b then some (record { strength = 1; distance = 0 }) else none;
  key_edge = λ a b. none;
  stable_less = λ a b. ltb a b;
  tolerance = λ u. second;
  enrich = λ u v. u;
  learned = λ u. u;
  is_recorded = λ u. true;
}

abbrev now : ℕ
now = zero_time + 9 * second

-- One fallback is recorded by its timer, whose call comes twice, one is replaced by its native
-- record, one is superseded and one waits.
abbrev events : List (Event ℕ)
events =
    schedule_event 1 now now
    ∷ (schedule_event 2 now now
        ∷ (schedule_event 3 now now
            ∷ (schedule_event 4 now now
                ∷ (commit_event 0 now
                    ∷ (native_event 2 now now
                        ∷ (supersede_event ((3 ∷ []) ∷ [])
                            ∷ (commit_event 0 now ∷ (commit_event 1 now ∷ []))))))))

run-once_example : ends (run by_number (at_start by_number) events).log 0 ≤ 1
run-once_example = run-once by_number events 0

events_log :
    (run by_number (at_start by_number) events).log
    ≡ ((2, superseded) ∷ ((1, replaced) ∷ ((0, recorded) ∷ [])))
unfolding run on_event schedule handle_native supersede supersede_keys commit flush flush_ids
    all_ids cancel remove_pending first_live pop_pending cleanup native_retention pop_for_native
    pop_correlated remove_native remove_fallback consume_native consume_correlated_native
    consume_fallback consume_correlated_fallback log_all ids_at contains remove_id store_ids
    remove_at push_id push_all remove_all first_non_empty better_candidate select_best unseen ids_of
    kept_ids clean_index push_each correlated_of lookup insert delete
events_log = refl

four_items :
    3
    < length
        (on_event by_number
          (run by_number (at_start by_number) events)
          flush_event).coordinator.items
unfolding run on_event schedule handle_native supersede supersede_keys commit flush flush_ids
    all_ids cancel remove_pending first_live pop_pending cleanup native_retention pop_for_native
    pop_correlated remove_native remove_fallback consume_native consume_correlated_native
    consume_fallback consume_correlated_fallback log_all ids_at contains remove_id store_ids
    remove_at push_id push_all remove_all first_non_empty better_candidate select_best unseen ids_of
    kept_ids clean_index push_each correlated_of lookup insert delete
four_items = omega arith

flush_complete_example :
    ends (on_event by_number (run by_number (at_start by_number) events) flush_event).log 3 ≡ 1
flush_complete_example = flush_complete by_number events 3 four_items

-- Three candidates, two of them of one strength.
abbrev candidates : ℕ → Option Edge
candidates zero = some (record { strength = 5; distance = 9 })
candidates (suc zero) = some (record { strength = 8; distance = 4 })
candidates (suc (suc n)) = some (record { strength = 8; distance = 2 })

middle_inside : contains (0 ∷ (1 ∷ (2 ∷ []))) 1 ≡ true
unfolding contains
middle_inside = refl

select_best-AsGood_example :
    (s : ℕ × Edge) × (select_best candidates (λ a b. ltb a b) (0 ∷ (1 ∷ (2 ∷ []))) none ≡ some s)
    × Comes candidates (λ a b. ltb a b) (0 ∷ (1 ∷ (2 ∷ []))) none s
    × AsGood s.1 (record { strength = 8; distance = 4 })
select_best-AsGood_example =
    select_best-AsGood candidates (λ a b. ltb a b) (0 ∷ (1 ∷ (2 ∷ []))) none 1
      (record { strength = 8; distance = 4 }) middle_inside refl
