-- ===== src/Fallback/Run.antt =====
-- go/response_intercept.go: the calls of the coordinator in any order, with the log of how the
-- pending fallbacks end. A timer's call of commit stands at any place, also after the timer was
-- stopped, and more than once.
use cpa_usage_plugin.Common.{ℕ, Option, none, some, List, [], ◌∷◌, map}
use cpa_usage_plugin.Common.Text.{Text}
use cpa_usage_plugin.Fallback.{Correlation, Coordinator}
use cpa_usage_plugin.Fallback.Cleanup.{new_coordinator}
use cpa_usage_plugin.Fallback.Operations.{schedule}
use cpa_usage_plugin.Fallback.Handlers.{handle_native, supersede, commit, flush}
use cpa_usage_plugin.Fallback.Accounted.{Fate, recorded, replaced, superseded}

-- A call: the record, the clock for a record without an instant and the clock under the lock.
pub data Event (U : Type 0) : Type 0 where
  schedule_event : U → ℕ → ℕ → Event U
  native_event : U → ℕ → ℕ → Event U
  supersede_event : List Text → Event U
  commit_event : ℕ → ℕ → Event U
  flush_event : Event U

pub record Running (U : Type 0) : Type 0 where
  pub coordinator : Coordinator U
  pub log : List (ℕ × Fate)

abbrev pub log_one : Fate → Option ℕ → List (ℕ × Fate) → List (ℕ × Fate)
log_one fate none log = log
log_one fate (some id) log = (id, fate) ∷ log

unfoldable pub log_all : Fate → List ℕ → List (ℕ × Fate) → List (ℕ × Fate)
log_all fate [] log = log
log_all fate (id ∷ ids) log = log_all fate ids ((id, fate) ∷ log)

abbrev pub committed : {U : Type 0} → Option (ℕ × U) → Option ℕ
committed none = none
committed (some r) = some r.0

abbrev pub first_of : {U : Type 0} → ℕ × U → ℕ
first_of r = r.0

module _ {U : Type 0} (f : Correlation U) where
  unfoldable pub on_event : Running U → Event U → Running U
  on_event s (schedule_event u clock now) = record s {
    coordinator = (schedule f s.coordinator u clock now).coordinator;
  }
  on_event s (native_event u clock now) =
      let h = handle_native f s.coordinator u clock now in
      record { coordinator = h.coordinator; log = log_one replaced h.replaced s.log }
  on_event s (supersede_event keys) =
      let r = supersede s.coordinator keys in
      record { coordinator = r.0; log = log_all superseded r.1 s.log }
  on_event s (commit_event id now) =
      let r = commit f s.coordinator id now in
      record { coordinator = r.0; log = log_one recorded (committed r.1) s.log }
  on_event s flush_event =
      let r = flush s.coordinator in
      record { coordinator = r.0; log = log_all recorded (map first_of r.1) s.log }

  unfoldable pub run : Running U → List (Event U) → Running U
  run s [] = s
  run s (e ∷ events) = run (on_event s e) events

  abbrev pub at_start : Running U
  at_start = record { coordinator = new_coordinator; log = [] }
