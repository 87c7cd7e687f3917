-- ===== src/Fallback/Flushed.antt =====
-- go/response_intercept.go: Supersede and Flush, and the account of the pending fallbacks.
use cpa_usage_plugin.Common.{
  ℕ, ◌<◌, ◌≡◌, refl, sym, ◌∙◌, ap, Bool, true, false, ◌==◌, if◌then◌else◌, List, [], ◌∷◌, length,
  get_elem?, map, arith, Bool-cases, Option-cases, inl, inr, ◌⊎◌, get_elem?-lt, get_elem?-in,
}
use cpa_usage_plugin.Common.Text.{Text, text_eq, is_empty}
use cpa_usage_plugin.Common.Maps.{lookup}
use mathlib.Core.Path.{subst}
use cpa_usage_plugin.Fallback.{PendingFallback, Coordinator}
use cpa_usage_plugin.Fallback.Select.{ids_at, contains}
use cpa_usage_plugin.Fallback.Cleanup.{cancel, pop_pending}
use cpa_usage_plugin.Fallback.Handlers.{supersede_keys, supersede, flush_ids, flush, all_ids}
use cpa_usage_plugin.Fallback.Indexes.{Holds, ids_at-front, contains-append, contains-none}
use cpa_usage_plugin.Fallback.Accounted.{
  Fate, recorded, superseded, At, Logged, Accounted, Moved-Accounted, Popped-Accounted,
  cancel-Logged, cancel-At, cancel-At_other, cancel-length,
}
use cpa_usage_plugin.Fallback.Steps.{pop_pending-Pop}
use cpa_usage_plugin.Fallback.Run.{log_all, first_of}

contains-all_ids :
    (index : List (Text × List ℕ)) (key : Text) (id : ℕ)
    → Holds index key id
    → contains (all_ids index) id ≡ true
unfolding all_ids ids_at lookup
contains-all_ids [] key id h = absurd (contains-none id h)
contains-all_ids ((other, l) ∷ rest) key id h =
    let split : (if text_eq other key then contains l id else contains (ids_at rest key) id)
        ≡ true =
      ground (arith, ap (λ m. contains m id) (ids_at-front other key l rest id), h) in
    elim (Bool-cases (text_eq other key)) [
      | inl e ↦ contains-append l (all_ids rest) id ∙ ground (arith, split, e)
      | inr e ↦
          contains-append l (all_ids rest) id
          ∙ ground (arith, contains-all_ids rest key id (ground (arith, split, e)))
    ]

if-cases :
    {A : Type 0} (b : Bool) (x y : A) → ((if b then x else y) ≡ x) ⊎ ((if b then x else y) ≡ y)
if-cases true x y = inl refl
if-cases false x y = inr refl

module _ {U : Type 0} where
  supersede_keys-Accounted :
      (c : Coordinator U) (keys : List Text) (log : List (ℕ × Fate))
      → Accounted c log
      → Accounted (supersede_keys c keys).0 (log_all superseded (supersede_keys c keys).1 log)
  unfolding supersede_keys log_all
  supersede_keys-Accounted c [] log ok = ok
  supersede_keys-Accounted c (key ∷ keys) log ok = elim (Bool-cases (is_empty key)) [
    | inl e ↦ rw e (supersede_keys-Accounted c keys log ok)
    | inr e ↦
        let r = pop_pending c key in
        elim (pop_pending-Pop c key ok.held) [
          | inl (moved, missing) ↦
              rw (e, missing)
                (supersede_keys-Accounted r.0 keys log (Moved-Accounted c r.0 log moved ok))
          | inr (id, found, pop) ↦
              rw (e, found)
                (supersede_keys-Accounted (cancel r.0 id) keys ((id, superseded) ∷ log)
                  (Popped-Accounted c r.0 id log superseded pop ok))
        ]
  ]

  pub supersede-Accounted :
      (c : Coordinator U) (keys : List Text) (log : List (ℕ × Fate))
      → Accounted c log
      → Accounted (supersede c keys).0 (log_all superseded (supersede c keys).1 log)
  unfolding supersede log_all
  supersede-Accounted c keys log ok = elim (if-cases c.closed (c, []) (supersede_keys c keys)) [
    | inl e ↦ rw (supersede, e) ok
    | inr e ↦ rw (supersede, e) (supersede_keys-Accounted c keys log ok)
  ]

  -- After the loop of Flush over some pointers, each of them is cancelled.
  record Drained (c r : Coordinator U) (l : List ℕ) (log : List (ℕ × Fate)) : Type 0 where
    logged : Logged r.items log
    dead : (id : ℕ) (q : PendingFallback U) → contains l id ≡ true → At r id q → q.cancelled ≡ true
    stays :
        (id : ℕ) (p q : PendingFallback U)
        → At c id p
        → p.cancelled ≡ true
        → At r id q
        → q.cancelled ≡ true
    size : length r.items ≡ length c.items

  flush_ids-Drained :
      (c : Coordinator U) (l : List ℕ) (log : List (ℕ × Fate))
      → Logged c.items log
      → Drained c (flush_ids c l).0 l (log_all recorded (map first_of (flush_ids c l).1) log)
  unfolding flush_ids log_all contains
  flush_ids-Drained c [] log ok = record {
    logged = ok;
    dead = λ id q h at. absurd (ground (arith, h));
    stays = λ id p q here gone there.
        let same : p ≡ q = ground (arith, sym here, there) in
        ap (λ x. x.cancelled) (sym same) ∙ gone;
    size = refl;
  }
  flush_ids-Drained c (x ∷ xs) log ok = elim (Option-cases (get_elem? c.items x)) [
    | inl missing ↦
        let rest = flush_ids-Drained c xs log ok in
        rw (flush_ids, missing)
          (record {
            logged = rest.logged;
            dead = λ id q h at. elim (Bool-cases (x == id)) [
              | inl e ↦
                  let same : x ≡ id = ground (arith, e) in
                  let low : id < length (flush_ids c xs).0.items =
                    get_elem?-lt (flush_ids c xs).0.items id q at in
                  let (p, there) = get_elem?-in c.items x (omega (arith, low, rest.size, same)) in
                  absurd (ground (arith, sym missing, there))
              | inr ne ↦ rest.dead id q (ground (arith, h, ne)) at
            ];
            stays = rest.stays;
            size = rest.size;
          })
    | inr (p, here) ↦ elim (Bool-cases p.cancelled) [
      | inl gone ↦
          let rest = flush_ids-Drained c xs log ok in
          rw (flush_ids, here, gone)
            (record {
              logged = rest.logged;
              dead = λ id q h at. elim (Bool-cases (x == id)) [
                | inl e ↦
                    let same : x ≡ id = ground (arith, e) in rest.stays x p q here gone (rw same at)
                | inr ne ↦ rest.dead id q (ground (arith, h, ne)) at
              ];
              stays = rest.stays;
              size = rest.size;
            })
      | inr live ↦
          let ended = cancel-Logged c x p log recorded here live ok in
          let rest = flush_ids-Drained (cancel c x) xs ((x, recorded) ∷ log) ended in
          rw (flush_ids, here, live)
            (record {
              logged = rest.logged;
              dead = λ id q h at. elim (Bool-cases (x == id)) [
                | inl e ↦
                    let same : x ≡ id = ground (arith, e) in
                    rest.stays x (record p { cancelled = true }) q (cancel-At c x p here) refl
                      (subst (λ i. At (flush_ids (cancel c x) xs).0 i q) (sym same) at)
                | inr ne ↦ rest.dead id q (ground (arith, h, ne)) at
              ];
              stays = λ id other q there gone at.
                  let apart : (id == x) ≡ false = elim (Bool-cases (id == x)) [
                    | inl e ↦
                        let same : id ≡ x = ground (arith, e) in
                        let one : other ≡ p =
                          ground (arith, sym there, ap (get_elem? c.items) same, here) in
                        absurd (ground (arith, ap (λ y. y.cancelled) one, gone, live))
                    | inr ne ↦ ne
                  ] in
                  rest.stays id other q (cancel-At_other c x p id here apart ∙ there) gone at;
              size = rest.size ∙ cancel-length c x p here;
            })
    ]
  ]

  -- After Flush every fallback is cancelled.
  pub flush-Accounted :
      (c : Coordinator U) (log : List (ℕ × Fate))
      → Accounted c log
      → Accounted (flush c).0 (log_all recorded (map first_of (flush c).1) log)
        × ((id : ℕ) (p : PendingFallback U) → At (flush c).0 id p → p.cancelled ≡ true)
  unfolding flush
  flush-Accounted c log ok =
      let start : Coordinator U = record c { closed = true } in
      let done = flush_ids-Drained start (all_ids c.pending) log ok.logged in
      let r = (flush_ids start (all_ids c.pending)).0 in
      let all_dead : (id : ℕ) (p : PendingFallback U) → At r id p → p.cancelled ≡ true = λ id q at.
        let low = get_elem?-lt r.items id q at in
        let (p, was) = get_elem?-in c.items id (omega (arith, low, done.size)) in
        elim (Bool-cases p.cancelled) [
          | inl gone ↦ done.stays id p q was gone at
          | inr live ↦
              done.dead id q (contains-all_ids c.pending p.key id (ok.held id p was live)) at
        ] in
      (
        record {
          logged = done.logged;
          held = λ id p at live. absurd (ground (arith, all_dead id p at, live));
          shut = λ h. all_dead;
        },
        all_dead,
      )
