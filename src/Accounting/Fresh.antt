-- ===== src/Accounting/Fresh.antt =====
-- go/range_cache.go: the identity of a group's range block and the group's records, through calls and
-- queries in any order.
use cpa_usage_plugin.Common.{
  ℕ, ◌+◌, ◌-◌, ◌*◌, ◌/◌, ◌<◌, ◌≡◌, refl, ◌∙◌, ap, Bool, true, false, ltb, min, Option, none, some,
  List, [], ◌∷◌, length, arith, get_elem?-past, Bool-cases, inl, inr, ◌⊎◌,
}
use cpa_usage_plugin.Accounting.{Slice, RangeBlock, AccountingBlocks}
use cpa_usage_plugin.Accounting.Blocks.{is_set, at, freeze}
use cpa_usage_plugin.Accounting.Sound.{Sound}
use cpa_usage_plugin.Accounting.Update.{mutable_at-Changed}
use cpa_usage_plugin.Accounting.PutLast.{append-Changed}
use cpa_usage_plugin.Accounting.Shrink.{truncate-Changed, remove-Changed}
use cpa_usage_plugin.Accounting.Freeze.{freeze-Sound}
use cpa_usage_plugin.Accounting.Refinement.{
  Call, append_record, write_record, truncate_to, remove_record, take_snapshot, InBounds, Frozen,
  on_blocks, no_blocks,
}
use cpa_usage_plugin.Accounting.Simulation.{flat, flat-last, no_blocks-Implements}
use cpa_usage_plugin.Accounting.Stale.{HasIdentity, Valid}
use cpa_usage_plugin.Accounting.Coherence.{on_blocks-fresh}
use cpa_usage_plugin.Accounting.Retire.{Retires, Retires-refl, on_blocks-Retires}
use cpa_usage_plugin.Accounting.Identity.{after, ranged, ranged-Retires, ranged-HasIdentity}
use cpa_usage_plugin.Accounting.Events.{
  archived_time, prepare_group, Event, call_event, prepare_event, prepared, on_event, run_events,
  EventInBounds, EventsInBounds,
}

module _ {R : Type 0} where
  -- The invariant does not depend on the range blocks.
  ranges-Sound :
      (l : AccountingBlocks R) (frozen : List Slice) (v : List Bool) (r : List RangeBlock)
      → Sound l frozen
      → Sound (record l { valid = v; range_blocks = r }) frozen
  ranges-Sound l frozen v r ok = record {
    fits = ok.fits;
    apart = ok.apart;
    full = ok.full;
    counted = ok.counted;
    none_counted = ok.none_counted;
    marks = ok.marks;
    there = ok.there;
    kept = ok.kept;
  }

  ranges-at :
      (l : AccountingBlocks R) (v : List Bool) (r : List RangeBlock) (i : ℕ)
      → at (record l { valid = v; range_blocks = r }) i ≡ at l i
  unfolding at
  ranges-at l v r i = refl

  abbrev pub StateSound : Frozen R → Type 0
  StateSound s = Sound s.blocks (flat s.snapshots)

  module _ (zero_record : R) (stamp : R → ℕ) where
    pub on_blocks-Sound :
        (s : Frozen R) (c : Call R)
        → StateSound s
        → InBounds s.blocks.count c
        → StateSound (on_blocks zero_record s c)
    unfolding on_blocks InBounds
    on_blocks-Sound s (append_record r) ok inside =
        (append-Changed (flat s.snapshots) zero_record s.blocks r ok).sound
    on_blocks-Sound s (write_record i r) ok inside =
        (mutable_at-Changed zero_record (flat s.snapshots) s.blocks i r ok inside).sound
    on_blocks-Sound s (truncate_to n) ok inside =
        (truncate-Changed zero_record (flat s.snapshots) s.blocks n ok inside).sound
    on_blocks-Sound s (remove_record i) ok inside =
        (remove-Changed zero_record (flat s.snapshots) s.blocks i ok inside).sound
    on_blocks-Sound s take_snapshot ok inside =
        rw (flat-last s.snapshots (freeze s.blocks).1) (freeze-Sound s.blocks (flat s.snapshots) ok)

    -- What a query's round changes of the blocks.
    prepare_group-cases :
        (l : AccountingBlocks R) (group : ℕ)
        → ((prepare_group stamp l group).0 ≡ l) × ((prepare_group stamp l group).1 ≡ none)
          ⊎ ((first : ℕ) × (end : ℕ) × ((prepare_group stamp l group).0
                ≡ ranged l group first end (archived_time stamp l))
              × ((prepare_group stamp l group).1
                  ≡ some (after l group first end (archived_time stamp l)).1))
    unfolding prepare_group
    prepare_group-cases l group =
        let first = group * 2048 in
        let end = min (first + 2048) l.count in
        elim (Bool-cases (ltb (end - first) 128)) [
          | inl e ↦ rw e (inl (refl, refl))
          | inr e ↦ rw e (inr (first, end, refl, refl))
        ]

    prepare_group-Sound :
        (l : AccountingBlocks R) (frozen : List Slice) (group : ℕ)
        → Sound l frozen
        → Sound (prepare_group stamp l group).0 frozen
    prepare_group-Sound l frozen group ok = elim (prepare_group-cases l group) [
      | inl (same, gone) ↦ rw same ok
      | inr (first, end, same, made) ↦ rw same (ranges-Sound l frozen _ _ ok)
    ]

    prepare_group-at :
        (l : AccountingBlocks R) (group i : ℕ) → at (prepare_group stamp l group).0 i ≡ at l i
    prepare_group-at l group i = elim (prepare_group-cases l group) [
      | inl (same, gone) ↦ rw same refl
      | inr (first, end, same, made) ↦ rw same (ranges-at l _ _ i)
    ]

    prepare_group-Retires :
        (l : AccountingBlocks R) (group : ℕ) → Retires l (prepare_group stamp l group).0
    prepare_group-Retires l group = elim (prepare_group-cases l group) [
      | inl (same, gone) ↦ rw same (Retires-refl l)
      | inr (first, end, same, made) ↦
          rw same (ranged-Retires l group first end (archived_time stamp l))
    ]

    on_event-Sound :
        (s : Frozen R) (e : Event R)
        → StateSound s
        → EventInBounds zero_record stamp s e
        → StateSound (on_event zero_record stamp s e)
    unfolding on_event
    on_event-Sound s (call_event c) ok inside = on_blocks-Sound s c ok inside
    on_event-Sound s (prepare_event group) ok inside =
        prepare_group-Sound s.blocks (flat s.snapshots) group ok

    run_events-Sound :
        (s : Frozen R) (events : List (Event R))
        → StateSound s
        → EventsInBounds zero_record stamp s events
        → StateSound (run_events zero_record stamp s events)
    unfolding run_events EventsInBounds
    run_events-Sound s [] ok inside = ok
    run_events-Sound s (e ∷ events) ok inside =
        run_events-Sound (on_event zero_record stamp s e) events (on_event-Sound s e ok inside.0)
          inside.1

    -- The identity is invalid, or it is the group's and the group reads `reads`.
    Tracked : AccountingBlocks R → ℕ → ℕ → (ℕ → Option R) → Type 0
    Tracked l g id reads =
        (id < length l.valid)
        × ((is_set l.valid id ≡ false)
            ⊎ (HasIdentity l g id × ((p : ℕ) → p / 2048 ≡ g → at l p ≡ reads p)))

    on_event-at :
        (s : Frozen R) (e : Event R) (g id p : ℕ)
        → StateSound s
        → EventInBounds zero_record stamp s e
        → HasIdentity s.blocks g id
        → Valid (on_event zero_record stamp s e).blocks id
        → p / 2048 ≡ g
        → at (on_event zero_record stamp s e).blocks p ≡ at s.blocks p
    unfolding on_event
    on_event-at s (call_event c) g id p ok inside has valid e =
        on_blocks-fresh zero_record (flat s.snapshots) s c g id p ok inside has valid e
    on_event-at s (prepare_event group) g id p ok inside has valid e =
        prepare_group-at s.blocks group p

    on_event-Retires :
        (s : Frozen R) (e : Event R) → Retires s.blocks (on_event zero_record stamp s e).blocks
    unfolding on_event
    on_event-Retires s (call_event c) = on_blocks-Retires zero_record s c
    on_event-Retires s (prepare_event group) = prepare_group-Retires s.blocks group

    on_event-Tracked :
        (s : Frozen R) (e : Event R) (g id : ℕ) (reads : ℕ → Option R)
        → StateSound s
        → EventInBounds zero_record stamp s e
        → Tracked s.blocks g id reads
        → Tracked (on_event zero_record stamp s e).blocks g id reads
    unfolding Tracked
    on_event-Tracked s e g id reads ok inside (known, inl gone) =
        let r = on_event-Retires s e in (omega (arith, r.grows, known), inl (r.dead id known gone))
    on_event-Tracked s e g id reads ok inside (known, inr (has, same)) =
        let r = on_event-Retires s e in
        let l = (on_event zero_record stamp s e).blocks in
        (
          omega (arith, r.grows, known),
          elim (Bool-cases (is_set l.valid id)) [
            | inr gone ↦ inl gone
            | inl valid ↦ elim (r.kept g id known has) [
              | inl gone ↦ inl gone
              | inr still ↦
                  inr
                    (still, λ p at_p. on_event-at s e g id p ok inside has valid at_p ∙ same p at_p)
            ]
          ],
        )

    run_events-Tracked :
        (s : Frozen R) (events : List (Event R)) (g id : ℕ) (reads : ℕ → Option R)
        → StateSound s
        → EventsInBounds zero_record stamp s events
        → Tracked s.blocks g id reads
        → Tracked (run_events zero_record stamp s events).blocks g id reads
    unfolding run_events EventsInBounds
    run_events-Tracked s [] g id reads ok inside tracked = tracked
    run_events-Tracked s (e ∷ events) g id reads ok inside tracked =
        run_events-Tracked (on_event zero_record stamp s e) events g id reads
          (on_event-Sound s e ok inside.0) inside.1
          (on_event-Tracked s e g id reads ok inside.0 tracked)

    is_set-lt : (bits : List Bool) (i : ℕ) → is_set bits i ≡ true → i < length bits
    is_set-lt bits i h = elim (Bool-cases (ltb i (length bits))) [
      | inl lt ↦ ground (arith, lt)
      | inr ge ↦ absurd (ground (arith, h, get_elem?-past bits i (ground (arith, ge))))
    ]

    prepare_group-Tracked :
        (l : AccountingBlocks R) (g id : ℕ) (b : RangeBlock)
        → (prepare_group stamp l g).1 ≡ some b
        → b.identity ≡ some id
        → Tracked (prepare_group stamp l g).0 g id (at l)
    unfolding Tracked
    prepare_group-Tracked l g id b made known = elim (prepare_group-cases l g) [
      | inl (same, gone) ↦ absurd (cc)
      | inr (first, end, same, returned) ↦
          let time = archived_time stamp l in
          let one : (after l g first end time).1 ≡ b = cc in
          let (has, valid) =
            ranged-HasIdentity l g first end time id (ap (λ x. x.identity) one ∙ known) in
          rw same (
            is_set-lt (ranged l g first end time).valid id valid,
            inr (has, λ p e. ranges-at l _ _ p),
          )
    ]

    pub no_blocks-Sound : StateSound no_blocks
    unfolding flat
    no_blocks-Sound = no_blocks-Implements.sound

    -- Start from no blocks and let calls and queries happen in any order, the calls within the bounds
    -- that the program checks. Then a query prepares the range block of a group of 2,048 records and
    -- gets a block with an identity. Then let more calls and queries happen: if the identity is still
    -- valid, every index of the group reads what it read when the block was prepared.
    pub run_events-fresh :
        (before later : List (Event R)) (g id p : ℕ) (b : RangeBlock)
        → EventsInBounds zero_record stamp no_blocks before
        → (prepare_group stamp (run_events zero_record stamp no_blocks before).blocks g).1 ≡ some b
        → b.identity ≡ some id
        → EventsInBounds zero_record stamp
            (prepared zero_record stamp (run_events zero_record stamp no_blocks before) g)
            later
        → Valid
            (run_events zero_record stamp
              (prepared zero_record stamp (run_events zero_record stamp no_blocks before) g)
              later).blocks
            id
        → p / 2048 ≡ g
        → at
            (run_events zero_record stamp
              (prepared zero_record stamp (run_events zero_record stamp no_blocks before) g)
              later).blocks
            p
          ≡ at (run_events zero_record stamp no_blocks before).blocks p
    unfolding Tracked
    run_events-fresh before later g id p b inside made known inside' valid e =
        let s = run_events zero_record stamp no_blocks before in
        let ok = run_events-Sound no_blocks before no_blocks-Sound inside in
        let start = prepare_group-Tracked s.blocks g id b made known in
        let ok' = prepare_group-Sound s.blocks (flat s.snapshots) g ok in
        let end =
          run_events-Tracked (prepared zero_record stamp s g) later g id (at s.blocks) ok' inside'
            start in
        elim (end.1) [ inl gone ↦ absurd (cc) | inr (has, same) ↦ same p e ]
