-- ===== src/Fallback/Steps.antt =====
-- What the steps of the operations do to the pending fallbacks.
use cpa_usage_plugin.Common.{
  ℕ, ◌≡◌, refl, ◌∙◌, ap, Bool, false, Option, none, some, List, [], ◌∷◌, get_elem?, arith,
  Bool-cases, Option-cases, inl, inr, ◌⊎◌,
}
use cpa_usage_plugin.Common.Text.{Text}
use cpa_usage_plugin.Fallback.{Edge, Correlation, PendingFallback, Coordinator}
use cpa_usage_plugin.Fallback.Select.{ids_at, select_best, better_candidate, ids_of, unseen}
use cpa_usage_plugin.Fallback.Cleanup.{first_live, pop_pending, live_at, is_live, cleanup}
use cpa_usage_plugin.Fallback.Operations.{
  pending_edge, pending_less, remove_selected, pop_for_native, pop_correlated, consume,
  remove_native, remove_fallback, consume_native, consume_correlated_native, consume_fallback,
  consume_correlated_fallback,
}
use cpa_usage_plugin.Fallback.Indexes.{clean_index-Holds, delete-Holds}
use cpa_usage_plugin.Fallback.Accounted.{
  At, Held, Popped, Moved, Moved-refl, remove_pending-Popped, first_live-live, live_at-At,
}

-- A pointer that a selection returns has an edge.
select_best-edge :
    (edge : ℕ → Option Edge) (less : ℕ → ℕ → Bool) (l : List ℕ) (start : Option (ℕ × Edge))
    → ((s : ℕ × Edge) → start ≡ some s → edge s.0 ≡ some s.1)
    → (s : ℕ × Edge) → select_best edge less l start ≡ some s
    → edge s.0 ≡ some s.1
unfolding select_best
select_best-edge edge less [] start known s h = known s h
select_best-edge edge less (id ∷ rest) start known s h = elim (Option-cases (edge id)) [
  | inl gone ↦ select_best-edge edge less rest start known s (rw gone at h)
  | inr (e, here) ↦ elim (Option-cases start) [
    | inl first ↦
        select_best-edge edge less rest (some (id, e))
          (λ t eq. let same : (id, e) ≡ t = cc in rw (← same) here) s (rw (here, first) at h)
    | inr (t, chosen) ↦ elim (Bool-cases (better_candidate e t.1 (less id t.0))) [
      | inl better ↦
          select_best-edge edge less rest (some (id, e))
            (λ u eq. let same : (id, e) ≡ u = cc in rw (← same) here) s
            (rw (here, chosen, better) at h)
      | inr worse ↦
          select_best-edge edge less rest (some t)
            (λ u eq. let same : t ≡ u = cc in rw (← same) (known t chosen)) s
            (rw (here, chosen, worse) at h)
    ]
  ]
]

module _ {U : Type 0} where
  -- What a pop gives: nothing moved out, or a fallback that was not cancelled.
  abbrev pub Pop : Coordinator U → Coordinator U × Option ℕ → Type 0
  Pop c r = (Moved c r.0 × (r.1 ≡ none)) ⊎ ((id : ℕ) × (r.1 ≡ some id) × Popped c r.0 id)

  pub pop_pending-Pop : (c : Coordinator U) (key : Text) → Held c → Pop c (pop_pending c key)
  unfolding pop_pending
  pop_pending-Pop c key held = elim (Option-cases (first_live c.items (ids_at c.pending key))) [
    | inr (id, found) ↦
        let (p, here, live) =
          live_at-At c id (first_live-live c.items (ids_at c.pending key) id found) in
        rw (pop_pending, found) (inr (id, refl, remove_pending-Popped c id p here live held))
    | inl none_live ↦ elim (list-cases (ids_at c.pending key)) [
      | inl empty ↦
          rw (pop_pending, none_live, empty)
            (inl (
              record {
                same_items = refl;
                open_to = refl;
                held = λ h id p there live.
                    delete-Holds c.pending key p.key id empty (h id p there live);
              },
              refl,
            ))
      | inr (x, xs, some_left) ↦ rw (pop_pending, none_live, some_left) (inl (Moved-refl c, refl))
    ]
  ]
    where
      list-cases : (l : List ℕ) → (l ≡ []) ⊎ ((x : ℕ) × (xs : List ℕ) × (l ≡ x ∷ xs))
      list-cases [] = inl refl
      list-cases (x ∷ xs) = inr (x, xs, refl)

  module _ (f : Correlation U) where
    pending_edge-At :
        (c : Coordinator U) (edge : U → Option Edge) (id : ℕ) (e : Edge)
        → pending_edge f c edge id ≡ some e
        → (p : PendingFallback U) × At c id p × (p.cancelled ≡ false)
    pending_edge-At c edge id e h = elim (Option-cases (get_elem? c.items id)) [
      | inl gone ↦ let no : none ≡ some e = rw (pending_edge, gone) at h in absurd (cc)
      | inr (p, here) ↦ elim (Bool-cases p.cancelled) [
        | inl dead ↦ let no : none ≡ some e = rw (pending_edge, here, dead) at h in absurd (cc)
        | inr live ↦ (p, here, live)
      ]
    ]

    remove_selected-Pop :
        (c : Coordinator U) (edge : U → Option Edge) (l : List ℕ)
        → Held c
        → Pop c
            (remove_selected f c (select_best (pending_edge f c edge) (pending_less f c) l none))
    remove_selected-Pop c edge l held =
        let chosen = select_best (pending_edge f c edge) (pending_less f c) l none in
        elim (Option-cases chosen) [
          | inl nothing ↦ rw nothing (inl (Moved-refl c, refl))
          | inr (s, here) ↦
              let edge_of =
                select_best-edge (pending_edge f c edge) (pending_less f c) l none
                  (λ t no. absurd (cc)) s here in
              let (p, at, live) = pending_edge-At c edge s.0 s.1 edge_of in
              rw here (inr (s.0, refl, remove_pending-Popped c s.0 p at live held))
        ]

    pub pop_for_native-Pop :
        (c : Coordinator U) (key : Text) (native : U)
        → Held c
        → Pop c (pop_for_native f c key native)
    unfolding pop_for_native
    pop_for_native-Pop c key native held =
        remove_selected-Pop c (λ u. f.live_edge u native) (ids_at c.pending key) held

    pub pop_correlated-Pop :
        (c : Coordinator U) (keys : List Text) (native : U)
        → Held c
        → Pop c (pop_correlated f c keys native)
    unfolding pop_correlated
    pop_correlated-Pop c keys native held =
        remove_selected-Pop c (λ u. f.key_edge u native)
          (unseen (live_at c.items) [] (ids_of c.pending_correlated keys)) held

    remove_native-Moved : (c : Coordinator U) (id : ℕ) → Moved c (remove_native f c id)
    unfolding remove_native
    remove_native-Moved c id = elim (Option-cases (get_elem? c.occurrences id)) [
      | inl gone ↦ rw (remove_native, gone) (Moved-refl c)
      | inr (o, here) ↦
          rw (remove_native, here) (record { same_items = refl; open_to = refl; held = λ h. h })
    ]

    remove_fallback-Moved : (c : Coordinator U) (id : ℕ) → Moved c (remove_fallback f c id)
    unfolding remove_fallback
    remove_fallback-Moved c id = elim (Option-cases (get_elem? c.occurrences id)) [
      | inl gone ↦ rw (remove_fallback, gone) (Moved-refl c)
      | inr (o, here) ↦
          rw (remove_fallback, here) (record { same_items = refl; open_to = refl; held = λ h. h })
    ]

    consume-Moved :
        (remove : Coordinator U → ℕ → Coordinator U) (c : Coordinator U) (s : Option (ℕ × Edge))
        → ((id : ℕ) → Moved c (remove c id))
        → Moved c (consume f remove c s).0
    consume-Moved remove c none m = Moved-refl c
    consume-Moved remove c (some s) m = m s.0

    pub consume_native-Moved :
        (c : Coordinator U) (key : Text) (now : ℕ) (u : U)
        → Moved c (consume_native f c key now u).0
    unfolding consume_native
    consume_native-Moved c key now u = consume-Moved (remove_native f) c _ (remove_native-Moved c)

    pub consume_correlated_native-Moved :
        (c : Coordinator U) (keys : List Text) (u : U) (now : ℕ)
        → Moved c (consume_correlated_native f c keys u now).0
    unfolding consume_correlated_native
    consume_correlated_native-Moved c keys u now =
        consume-Moved (remove_native f) c _ (remove_native-Moved c)

    pub consume_fallback-Moved :
        (c : Coordinator U) (key : Text) (now : ℕ) (u : U)
        → Moved c (consume_fallback f c key now u).0
    unfolding consume_fallback
    consume_fallback-Moved c key now u =
        consume-Moved (remove_fallback f) c _ (remove_fallback-Moved c)

    pub consume_correlated_fallback-Moved :
        (c : Coordinator U) (keys : List Text) (u : U) (now : ℕ)
        → Moved c (consume_correlated_fallback f c keys u now).0
    unfolding consume_correlated_fallback
    consume_correlated_fallback-Moved c keys u now =
        consume-Moved (remove_fallback f) c _ (remove_fallback-Moved c)

    pub cleanup-Moved : (c : Coordinator U) (now : ℕ) → Moved c (cleanup f c now)
    unfolding cleanup
    cleanup-Moved c now = record {
      same_items = refl;
      open_to = refl;
      held = λ h id p there live.
          clean_index-Holds (live_at c.items) c.pending p.key id
            (ap is_live there ∙ ground (arith, live)) (h id p there live);
    }
