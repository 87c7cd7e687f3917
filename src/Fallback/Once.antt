-- ===== src/Fallback/Once.antt =====
-- go/response_intercept.go: the operations of the coordinator, and the account of the pending
-- fallbacks.
use cpa_usage_plugin.Common.{
  ℕ, ◌≡◌, refl, ◌∙◌, ap, true, false, ◌||◌, List, [], ◌∷◌, length, get_elem?, arith, Bool-cases,
  Option-cases, inl, inr, append-cases, length-append,
}
use cpa_usage_plugin.Common.Text.{Text, is_empty}
use cpa_usage_plugin.Fallback.{Correlation, PendingFallback, Coordinator}
use cpa_usage_plugin.Fallback.Select.{first_non_empty}
use cpa_usage_plugin.Fallback.Cleanup.{cancel, remove_pending, cleanup}
use cpa_usage_plugin.Fallback.Operations.{
  pop_for_native, pop_correlated, add_pending, consume_native, consume_correlated_native,
  consume_fallback, consume_correlated_fallback, Handled, schedule, schedule_native,
  schedule_correlated, dated,
}
use cpa_usage_plugin.Fallback.Handlers.{
  replace_pending, replace_recorded, native_late_correlated, native_late, native_correlated,
  native_pending, handle_native, remember_fallback, commit,
}
use cpa_usage_plugin.Fallback.Indexes.{push_id-Holds, push_id-new}
use cpa_usage_plugin.Fallback.Accounted.{
  Fate, recorded, replaced, At, Accounted, Popped, Moved, Moved-Accounted, Popped-Accounted,
  remove_pending-Moved, cancel-At,
}
use cpa_usage_plugin.Fallback.Steps.{
  pop_for_native-Pop, pop_correlated-Pop, consume_native-Moved, consume_correlated_native-Moved,
  consume_fallback-Moved, consume_correlated_fallback-Moved, cleanup-Moved,
}
use cpa_usage_plugin.Fallback.Run.{log_one, committed}

module _ {U : Type 0} (f : Correlation U) where
  add_pending-Accounted :
      (c : Coordinator U) (key : Text) (keys : List Text) (u : U) (log : List (ℕ × Fate))
      → c.closed ≡ false
      → Accounted c log
      → Accounted (add_pending f c key keys u) log
  add_pending-Accounted c key keys u log open_now ok =
      let added : PendingFallback U = record {
        key = key;
        correlation_key = first_non_empty keys;
        correlation_keys = keys;
        usage = u;
        request_at = f.requested_at u;
        cancelled = false;
      } in
      let id = length c.items in
      record {
        logged = record {
          ended = λ other p h. elim (append-cases c.items added other p h) [
            | inl (e, same) ↦
                let alive : p.cancelled ≡ false = ap (λ x. x.cancelled) same in
                rw (e, alive) (ok.logged.unknown id (omega arith))
            | inr (_, old) ↦ ok.logged.ended other p old
          ];
          unknown = λ other past.
              ok.logged.unknown other (omega (arith, past, length-append c.items (added ∷ [])));
        };
        held = λ other p h live. elim (append-cases c.items added other p h) [
          | inl (e, same) ↦ rw (e, ap (λ x. x.key) same) (push_id-new c.pending key id)
          | inr (_, old) ↦ push_id-Holds c.pending key p.key id other (ok.held other p old live)
        ];
        shut = λ h. absurd (ground (arith, h, open_now));
      }

  schedule_correlated-Accounted :
      (c : Coordinator U) (key : Text) (keys : List Text) (u : U) (now : ℕ) (log : List (ℕ × Fate))
      → c.closed ≡ false
      → Accounted c log
      → Accounted (schedule_correlated f c key keys u now).coordinator log
  schedule_correlated-Accounted c key keys u now log open_now ok =
      let r = consume_correlated_native f c keys u now in
      let step : Moved c r.0 = consume_correlated_native-Moved f c keys u now in
      let moved : Accounted r.0 log = Moved-Accounted c r.0 log step ok in
      elim (Option-cases r.1) [
        | inl missing ↦
            rw (schedule_correlated, missing)
              (add_pending-Accounted r.0 key keys u log (step.open_to ∙ open_now) moved)
        | inr (native, found) ↦ rw (schedule_correlated, found) moved
      ]

  pub schedule-Accounted :
      (c : Coordinator U) (u : U) (clock now : ℕ) (log : List (ℕ × Fate))
      → Accounted c log
      → Accounted (schedule f c u clock now).coordinator log
  unfolding schedule
  schedule-Accounted c u clock now log ok =
      elim (Bool-cases (is_empty (f.fingerprint u) || c.closed)) [
        | inl e ↦ rw (schedule, e) ok
        | inr e ↦
            let v = dated f u clock in
            let clean = cleanup f c now in
            let r = consume_native f clean (f.fingerprint u) now v in
            let cleaned = Moved-Accounted c clean log (cleanup-Moved f c now) ok in
            let step : Moved clean r.0 = consume_native-Moved f clean (f.fingerprint u) now v in
            let moved = Moved-Accounted clean r.0 log step cleaned in
            let open_now : c.closed ≡ false = ground (arith, e) in
            let still : r.0.closed ≡ false =
              step.open_to ∙ (cleanup-Moved f c now).open_to ∙ open_now in
            elim (Option-cases r.1) [
              | inl missing ↦
                  rw (schedule, e, schedule_native, missing)
                    (schedule_correlated-Accounted r.0 (f.fingerprint u) (f.fallback_keys v) v now
                      log still moved)
              | inr (native, found) ↦ rw (schedule, e, schedule_native, found) moved
            ]
      ]

  -- What HandleNative returns keeps the account, with the fallback that it replaced logged.
  abbrev pub HandledOk : Handled U → List (ℕ × Fate) → Type 0
  HandledOk h log = Accounted h.coordinator (log_one replaced h.replaced log)

  replace_pending-HandledOk :
      (c c' : Coordinator U) (id : ℕ) (u : U) (log : List (ℕ × Fate))
      → Popped c c' id
      → Accounted c log
      → HandledOk (replace_pending f c' id u) log
  replace_pending-HandledOk c c' id u log pop ok =
      let here : At c' id pop.found = ap (λ x. get_elem? x id) pop.same_items ∙ pop.here in
      rw (replace_pending, here) (Popped-Accounted c c' id log replaced pop ok)

  replace_recorded-HandledOk :
      (c : Coordinator U) (old u : U) (log : List (ℕ × Fate))
      → Accounted c log
      → HandledOk (replace_recorded f c old u) log
  replace_recorded-HandledOk c old u log ok = elim (Bool-cases (f.is_recorded old)) [
    | inl e ↦ rw (replace_recorded, e) ok
    | inr e ↦ rw (replace_recorded, e) ok
  ]

  native_late_correlated-HandledOk :
      (c : Coordinator U) (key : Text) (keys : List Text) (u : U) (now : ℕ) (log : List (ℕ × Fate))
      → Accounted c log
      → HandledOk (native_late_correlated f c key keys u now) log
  native_late_correlated-HandledOk c key keys u now log ok =
      let r = consume_correlated_fallback f c keys u now in
      let moved = Moved-Accounted c r.0 log (consume_correlated_fallback-Moved f c keys u now) ok in
      elim (Option-cases r.1) [
        | inl missing ↦
            rw (native_late_correlated, missing)
              (record { logged = moved.logged; held = moved.held; shut = moved.shut })
        | inr (old, found) ↦
            rw (native_late_correlated, found) (replace_recorded-HandledOk r.0 old u log moved)
      ]

  native_late-HandledOk :
      (c : Coordinator U) (key : Text) (keys : List Text) (u : U) (now : ℕ) (log : List (ℕ × Fate))
      → Accounted c log
      → HandledOk (native_late f c key keys u now) log
  native_late-HandledOk c key keys u now log ok =
      let r = consume_fallback f c key now u in
      let moved = Moved-Accounted c r.0 log (consume_fallback-Moved f c key now u) ok in
      elim (Option-cases r.1) [
        | inl missing ↦
            rw (native_late, missing)
              (native_late_correlated-HandledOk r.0 key keys u now log moved)
        | inr (old, found) ↦
            rw (native_late, found) (replace_recorded-HandledOk r.0 old u log moved)
      ]

  native_correlated-HandledOk :
      (c : Coordinator U) (key : Text) (keys : List Text) (u : U) (now : ℕ) (log : List (ℕ × Fate))
      → Accounted c log
      → HandledOk (native_correlated f c key keys u now) log
  native_correlated-HandledOk c key keys u now log ok =
      let r = pop_correlated f c keys u in
      elim (pop_correlated-Pop f c keys u ok.held) [
        | inl (moved, missing) ↦
            rw (native_correlated, missing)
              (native_late-HandledOk r.0 key keys u now log (Moved-Accounted c r.0 log moved ok))
        | inr (id, found, pop) ↦
            rw (native_correlated, found) (replace_pending-HandledOk c r.0 id u log pop ok)
      ]

  pub handle_native-HandledOk :
      (c : Coordinator U) (u : U) (clock now : ℕ) (log : List (ℕ × Fate))
      → Accounted c log
      → HandledOk (handle_native f c u clock now) log
  unfolding handle_native
  handle_native-HandledOk c u clock now log ok = elim (Bool-cases (is_empty (f.fingerprint u))) [
    | inl e ↦ rw (handle_native, e) ok
    | inr e ↦
        let v = dated f u clock in
        let key = f.fingerprint u in
        let clean = cleanup f c now in
        let cleaned = Moved-Accounted c clean log (cleanup-Moved f c now) ok in
        let r = pop_for_native f clean key v in
        elim (pop_for_native-Pop f clean key v cleaned.held) [
          | inl (moved, missing) ↦
              rw (handle_native, e, native_pending, missing)
                (native_correlated-HandledOk r.0 key (f.native_keys v) v now log
                  (Moved-Accounted clean r.0 log moved cleaned))
          | inr (id, found, pop) ↦
              rw (handle_native, e, native_pending, found)
                (replace_pending-HandledOk clean r.0 id v log pop cleaned)
        ]
  ]

  committed-Accounted :
      (c : Coordinator U) (id now : ℕ) (p : PendingFallback U) (log : List (ℕ × Fate))
      → At c id p
      → p.cancelled ≡ false
      → Accounted c log
      → Accounted
          (cleanup f (remember_fallback f (remove_pending (cancel c id) id) p now) now)
          ((id, recorded) ∷ log)
  committed-Accounted c id now p log here live ok =
      let popped : Popped c c id = record {
        same_items = refl;
        open_to = refl;
        found = p;
        here = here;
        live = live;
        held = λ other q there l ne. ok.held other q there l;
      } in
      let gone = Popped-Accounted c c id log recorded popped ok in
      let removed =
        Moved-Accounted (cancel c id) (remove_pending (cancel c id) id) ((id, recorded) ∷ log)
          (remove_pending-Moved (cancel c id) id (record p { cancelled = true })
            (cancel-At c id p here) refl)
          gone in
      let kept = remember_fallback f (remove_pending (cancel c id) id) p now in
      Moved-Accounted kept (cleanup f kept now) ((id, recorded) ∷ log) (cleanup-Moved f kept now)
        (record { logged = removed.logged; held = removed.held; shut = removed.shut })

  pub commit-Accounted :
      (c : Coordinator U) (id now : ℕ) (log : List (ℕ × Fate))
      → Accounted c log
      → Accounted (commit f c id now).0 (log_one recorded (committed (commit f c id now).1) log)
  unfolding commit
  commit-Accounted c id now log ok = elim (Option-cases (get_elem? c.items id)) [
    | inl gone ↦ rw (commit, gone) ok
    | inr (p, here) ↦ elim (Bool-cases (c.closed || p.cancelled)) [
      | inl e ↦
          let dead : p.cancelled ≡ true = elim (Bool-cases c.closed) [
            | inl closed ↦ ok.shut closed id p here
            | inr open_now ↦ ground (arith, e, open_now)
          ] in
          rw (commit, here, e)
            (Moved-Accounted c (remove_pending c id) log (remove_pending-Moved c id p here dead) ok)
      | inr e ↦
          rw (commit, here, e) (committed-Accounted c id now p log here (ground (arith, e)) ok)
    ]
  ]
