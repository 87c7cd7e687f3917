-- ===== src/Fallback/Accounted.antt =====
-- go/response_intercept.go: the account of the pending fallbacks, their ends and their places in an
-- index.
use cpa_usage_plugin.Common.{
  ℕ, suc, ◌≤◌, ◌≡◌, refl, sym, ◌∙◌, ap, true, false, ◌==◌, if◌then◌else◌, some, List, [], ◌∷◌,
  length, get_elem?, set, arith, Bool-cases, Option-cases, inl, inr, set-cases, get_elem?-lt,
  length-set, get_elem?-set,
}
use cpa_usage_plugin.Fallback.{PendingFallback, Coordinator}
use cpa_usage_plugin.Fallback.Cleanup.{cancel, remove_pending, first_live, live_at, is_live}
use cpa_usage_plugin.Fallback.Indexes.{Holds, remove_at-Holds}

-- How a fallback ends: it is recorded, a native record replaces it, or a fresher one supersedes it.
pub data Fate : Type 0 where
  recorded : Fate
  replaced : Fate
  superseded : Fate

-- How many ends the log has for a fallback.
unfoldable pub ends : List (ℕ × Fate) → ℕ → ℕ
ends [] id = 0
ends ((other, fate) ∷ rest) id = if other == id then suc (ends rest id) else ends rest id

module _ {U : Type 0} where
  abbrev pub At : Coordinator U → ℕ → PendingFallback U → Type 0
  At c id p = get_elem? c.items id ≡ some p

  -- The log has one end of each fallback that is cancelled and none of the others.
  pub record Logged (items : List (PendingFallback U)) (log : List (ℕ × Fate)) : Type 0 where
    pub ended :
        (id : ℕ) (p : PendingFallback U)
        → get_elem? items id ≡ some p
        → ends log id ≡ (if p.cancelled then 1 else 0)
    pub unknown : (id : ℕ) → length items ≤ id → ends log id ≡ 0

  -- Each fallback that is not cancelled is pending under its key; `but` one that is on its way out.
  abbrev pub Held : Coordinator U → Type 0
  Held c =
      (id : ℕ) (p : PendingFallback U) → At c id p → p.cancelled ≡ false → Holds c.pending p.key id

  abbrev pub HeldBut : Coordinator U → ℕ → Type 0
  HeldBut c but =
      (id : ℕ) (p : PendingFallback U)
      → At c id p
      → p.cancelled ≡ false
      → (id == but) ≡ false
      → Holds c.pending p.key id

  pub record Accounted (c : Coordinator U) (log : List (ℕ × Fate)) : Type 0 where
    pub logged : Logged c.items log
    pub held : Held c
    pub shut : c.closed ≡ true → (id : ℕ) (p : PendingFallback U) → At c id p → p.cancelled ≡ true

  -- The steps below leave the items; `id` is not cancelled, and no longer needs to be pending.
  pub record Popped (c c' : Coordinator U) (id : ℕ) : Type 0 where
    pub same_items : c'.items ≡ c.items
    pub open_to : c'.closed ≡ c.closed
    pub found : PendingFallback U
    pub here : At c id found
    pub live : found.cancelled ≡ false
    pub held : HeldBut c' id

  -- The steps below leave the items, and keep the others pending.
  pub record Moved (c c' : Coordinator U) : Type 0 where
    pub same_items : c'.items ≡ c.items
    pub open_to : c'.closed ≡ c.closed
    pub held : Held c → Held c'

  pub Moved-Accounted :
      (c c' : Coordinator U) (log : List (ℕ × Fate))
      → Moved c c'
      → Accounted c log
      → Accounted c' log
  Moved-Accounted c c' log m ok = record {
    logged = rw (m.same_items) ok.logged;
    held = m.held ok.held;
    shut = λ h id p at.
        ok.shut (sym m.open_to ∙ h) id p (ap (λ x. get_elem? x id) (sym m.same_items) ∙ at);
  }

  pub Moved-refl : (c : Coordinator U) → Moved c c
  Moved-refl c = record { same_items = refl; open_to = refl; held = λ h. h }

  cancel-here :
      (c : Coordinator U) (id : ℕ) (p : PendingFallback U)
      → At c id p
      → cancel c id ≡ record c { items = set c.items id (record p { cancelled = true }) }
  unfolding cancel
  cancel-here c id p h = rw (cancel, h) refl

  cancel-closed :
      (c : Coordinator U) (id : ℕ) (p : PendingFallback U)
      → At c id p
      → (cancel c id).closed ≡ c.closed
  cancel-closed c id p h = rw (cancel-here c id p h) refl

  pub cancel-At :
      (c : Coordinator U) (id : ℕ) (p : PendingFallback U)
      → At c id p
      → At (cancel c id) id (record p { cancelled = true })
  cancel-At c id p h = rw (cancel-here c id p h) (
      get_elem?-set c.items id (record p { cancelled = true }) id
      ∙ ground (arith, get_elem?-lt c.items id p h))

  pub cancel-At_other :
      (c : Coordinator U) (id : ℕ) (p : PendingFallback U) (other : ℕ)
      → At c id p
      → (other == id) ≡ false
      → get_elem? (cancel c id).items other ≡ get_elem? c.items other
  cancel-At_other c id p other h ne =
      rw (cancel-here c id p h)
        (get_elem?-set c.items id (record p { cancelled = true }) other ∙ ground (arith, ne))

  pub cancel-length :
      (c : Coordinator U) (id : ℕ) (p : PendingFallback U)
      → At c id p
      → length (cancel c id).items ≡ length c.items
  cancel-length c id p h =
      rw (cancel-here c id p h) (length-set c.items id (record p { cancelled = true }))

  pub cancel-Held :
      (c : Coordinator U) (id : ℕ) (p : PendingFallback U)
      → At c id p
      → HeldBut c id
      → Held (cancel c id)
  cancel-Held c id p h held = rw (cancel-here c id p h) (λ other q there live.
      elim (set-cases c.items id (record p { cancelled = true }) other q there) [
        | inl (_, same) ↦ absurd (ground (arith, ap (λ x. x.cancelled) same, live))
        | inr (ne, old) ↦ held other q old live ne
      ])

  pub cancel-Logged :
      (c : Coordinator U) (id : ℕ) (p : PendingFallback U) (log : List (ℕ × Fate)) (fate : Fate)
      → At c id p
      → p.cancelled ≡ false
      → Logged c.items log
      → Logged (cancel c id).items ((id, fate) ∷ log)
  unfolding ends
  cancel-Logged c id p log fate h live ok =
      let gone : PendingFallback U = record p { cancelled = true } in
      let before : ends log id ≡ 0 = ok.ended id p h ∙ ground (arith, live) in
      rw (cancel-here c id p h) (record {
        ended = λ other q there. elim (set-cases c.items id gone other q there) [
          | inl (e, same) ↦
              let cancelled : q.cancelled ≡ true = ap (λ x. x.cancelled) same in
              rw (e, cancelled) (ground (arith, before))
          | inr (ne, old) ↦ ground (arith, ok.ended other q old, ne)
        ];
        unknown = λ other past.
            let inside = get_elem?-lt c.items id p h in
            let size = length-set c.items id gone in
            ground (arith, ok.unknown other (omega (arith, past, size)), past, size, inside);
      })

  -- The end of a fallback that has been taken out of the pending ones.
  pub Popped-Accounted :
      (c c' : Coordinator U) (id : ℕ) (log : List (ℕ × Fate)) (fate : Fate)
      → Popped c c' id
      → Accounted c log
      → Accounted (cancel c' id) ((id, fate) ∷ log)
  Popped-Accounted c c' id log fate pop ok =
      let here : At c' id pop.found = ap (λ x. get_elem? x id) pop.same_items ∙ pop.here in
      record {
        logged =
            cancel-Logged c' id pop.found log fate here pop.live (rw (pop.same_items) ok.logged);
        held = cancel-Held c' id pop.found here pop.held;
        shut = λ h other p at.
            let was_shut : c.closed ≡ true =
              sym pop.open_to ∙ sym (cancel-closed c' id pop.found here) ∙ h in
            absurd (ground (arith, ok.shut was_shut id pop.found pop.here, pop.live));
      }

  pub remove_pending-Popped :
      (c : Coordinator U) (id : ℕ) (p : PendingFallback U)
      → At c id p
      → p.cancelled ≡ false
      → Held c
      → Popped c (remove_pending c id) id
  unfolding remove_pending
  remove_pending-Popped c id p h live held =
      rw (remove_pending, h)
        (record {
          same_items = refl;
          open_to = refl;
          found = p;
          here = h;
          live = live;
          held = λ other q there l ne.
              remove_at-Holds c.pending p.key q.key id other ne (held other q there l);
        })

  pub first_live-live :
      (items : List (PendingFallback U)) (l : List ℕ) (id : ℕ)
      → first_live items l ≡ some id
      → live_at items id ≡ true
  unfolding first_live
  first_live-live items [] id h = absurd (cc)
  first_live-live items (x ∷ xs) id h = elim (Bool-cases (live_at items x)) [
    | inl e ↦ let found : some x ≡ some id = rw e at h in let same : x ≡ id = cc in rw (← same) e
    | inr e ↦
        let later : first_live items xs ≡ some id = rw e at h in first_live-live items xs id later
  ]

  pub live_at-At :
      (c : Coordinator U) (id : ℕ)
      → live_at c.items id ≡ true
      → (p : PendingFallback U) × At c id p × (p.cancelled ≡ false)
  live_at-At c id h = elim (Option-cases (get_elem? c.items id)) [
    | inl gone ↦ absurd (ground (arith, ap is_live (sym gone) ∙ h))
    | inr (p, here) ↦ (p, here, ground (arith, ap is_live (sym here) ∙ h))
  ]

  -- A fallback that is cancelled need not be pending.
  pub remove_pending-Moved :
      (c : Coordinator U) (id : ℕ) (p : PendingFallback U)
      → At c id p
      → p.cancelled ≡ true
      → Moved c (remove_pending c id)
  unfolding remove_pending
  remove_pending-Moved c id p h gone =
      rw (remove_pending, h)
        (record {
          same_items = refl;
          open_to = refl;
          held = λ held other q there live. elim (Bool-cases (other == id)) [
            | inl e ↦
                let same : other ≡ id = ground (arith, e) in
                let one : q ≡ p = ground (arith, sym there, ap (get_elem? c.items) same, h) in
                absurd (ground (arith, ap (λ x. x.cancelled) one, live, gone))
            | inr ne ↦ remove_at-Holds c.pending p.key q.key id other ne (held other q there live)
          ];
        })
