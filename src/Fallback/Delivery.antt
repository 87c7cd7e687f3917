-- ===== src/Fallback/Delivery.antt =====
-- go/response_intercept.go: the ends of the fallbacks over any sequence of calls.
use cpa_usage_plugin.Common.{
  ℕ, ◌≤◌, ◌<◌, ◌≡◌, refl, ◌∙◌, ltb, List, [], ◌∷◌, length, arith, Bool-cases, inl, inr,
  get_elem?-in,
}
use cpa_usage_plugin.Fallback.{Correlation}
use cpa_usage_plugin.Fallback.Handlers.{flush}
use cpa_usage_plugin.Fallback.Accounted.{ends, Accounted}
use cpa_usage_plugin.Fallback.Once.{schedule-Accounted, handle_native-HandledOk, commit-Accounted}
use cpa_usage_plugin.Fallback.Flushed.{supersede-Accounted, flush-Accounted}
use cpa_usage_plugin.Fallback.Run.{
  Event, schedule_event, native_event, supersede_event, commit_event, flush_event, Running,
  on_event, run, at_start,
}

module _ {U : Type 0} (f : Correlation U) where
  on_event-Accounted :
      (s : Running U) (e : Event U)
      → Accounted s.coordinator s.log
      → Accounted (on_event f s e).coordinator (on_event f s e).log
  unfolding on_event
  on_event-Accounted s (schedule_event u clock now) ok =
      schedule-Accounted f s.coordinator u clock now s.log ok
  on_event-Accounted s (native_event u clock now) ok =
      handle_native-HandledOk f s.coordinator u clock now s.log ok
  on_event-Accounted s (supersede_event keys) ok = supersede-Accounted s.coordinator keys s.log ok
  on_event-Accounted s (commit_event id now) ok = commit-Accounted f s.coordinator id now s.log ok
  on_event-Accounted s flush_event ok = (flush-Accounted s.coordinator s.log ok).0

  run-Accounted :
      (s : Running U) (events : List (Event U))
      → Accounted s.coordinator s.log
      → Accounted (run f s events).coordinator (run f s events).log
  unfolding run
  run-Accounted s [] ok = ok
  run-Accounted s (e ∷ events) ok =
      run-Accounted (on_event f s e) events (on_event-Accounted s e ok)

  start-Accounted : Accounted (at_start f).coordinator (at_start f).log
  unfolding ends
  start-Accounted = record {
    logged = record { ended = λ id p h. absurd (cc); unknown = λ id past. refl };
    held = λ id p h live. absurd (cc);
    shut = λ h. absurd (cc);
  }

  -- For any calls of Schedule, HandleNative, Supersede, Flush and commit in any order, commit for
  -- any fallback at any time and as often as one likes: no fallback ends more than once, be it by a
  -- record, by a native record that replaces it while it is pending, or by a fresher one.
  pub run-once : (events : List (Event U)) (id : ℕ) → ends (run f (at_start f) events).log id ≤ 1
  run-once events id =
      let s = run f (at_start f) events in
      let ok = run-Accounted (at_start f) events start-Accounted in
      elim (Bool-cases (ltb id (length s.coordinator.items))) [
        | inl lt ↦
            let (p, here) = get_elem?-in s.coordinator.items id (ground (arith, lt)) in
            ground (arith, ok.logged.ended id p here)
        | inr ge ↦ omega (arith, ok.logged.unknown id (ground (arith, ge)))
      ]

  -- After any such calls and then a Flush, each fallback that a call has scheduled has ended exactly
  -- once: none is lost, and none is recorded twice.
  pub flush_complete :
      (events : List (Event U)) (id : ℕ)
      → id < length (on_event f (run f (at_start f) events) flush_event).coordinator.items
      → ends (on_event f (run f (at_start f) events) flush_event).log id ≡ 1
  unfolding on_event
  flush_complete events id inside =
      let s = run f (at_start f) events in
      let ok = run-Accounted (at_start f) events start-Accounted in
      let (done, dead) = flush-Accounted s.coordinator s.log ok in
      let (p, here) = get_elem?-in (flush s.coordinator).0.items id inside in
      done.logged.ended id p here ∙ ground (arith, dead id p here)
