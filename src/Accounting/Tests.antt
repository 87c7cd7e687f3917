-- ===== src/Accounting/Tests.antt =====
-- Concrete blocks of records, and the theorems of this part at them.
use cpa_usage_plugin.Common.{
  zero, suc, ◌+◌, ◌-◌, ◌*◌, min, ltb, if◌then◌else◌, replicate, Bool, Option, ◌/◌, ◌∙◌, ap,
  get_elem?, none, true, some, ℕ, ◌≡◌, refl, List, [], ◌∷◌, length, arith,
}
use cpa_usage_plugin.Accounting.Refinement.{
  Call, append_record, write_record, truncate_to, remove_record, take_snapshot, on_lists, InBounds,
  run_lists, AllInBounds, Frozen, on_blocks, run_blocks, read_all, no_blocks, no_histories,
}
use cpa_usage_plugin.Accounting.Simulation.{flat, run_blocks-refines}
use cpa_usage_plugin.Common.Instant.{zero_time, second}
use cpa_usage_plugin.Accounting.{RangeBlock, AccountingBlocks}
use cpa_usage_plugin.Accounting.Blocks.{no_range_block, is_set, at, append, invalidate_group}
use cpa_usage_plugin.Accounting.Stale.{Valid, append-ranges}
use cpa_usage_plugin.Accounting.PutLast.{append-Changed}
use cpa_usage_plugin.Accounting.Retire.{freeze-Untouched}
use cpa_usage_plugin.Accounting.Identity.{time_bounds-identity}
use native.Mathlib.Nat.{zero-add}
use cpa_usage_plugin.Accounting.RangeSummary.{new_range_block, prepare_range_block}
use cpa_usage_plugin.Accounting.Events.{
  archived_time, prepare_group, Event, call_event, prepared, on_event, run_events, EventsInBounds,
}
use cpa_usage_plugin.Accounting.Fresh.{
  StateSound, on_blocks-Sound, no_blocks-Sound, run_events-fresh,
}

-- A snapshot before and after a write to a record that it shares, then a removal.
abbrev calls : List (Call ℕ)
calls =
    append_record 5
    ∷ (append_record 6
        ∷ (append_record 7
            ∷ (take_snapshot
                ∷ (write_record 1 9 ∷ (take_snapshot ∷ (remove_record 0 ∷ (truncate_to 1 ∷ [])))))))

calls-AllInBounds : AllInBounds no_histories calls
unfolding AllInBounds on_lists InBounds
calls-AllInBounds = (tt, (tt, (tt, (tt, (omega arith, (tt, (omega arith, (omega arith, tt))))))))

run_blocks-refines_example :
    (read_all (run_blocks 0 no_blocks calls) ≡ run_lists no_histories calls)
    × ((run_blocks 0 no_blocks calls).blocks.count ≡ length (run_lists no_histories calls).retained)
run_blocks-refines_example = run_blocks-refines 0 calls calls-AllInBounds

calls_end :
    run_lists no_histories calls
    ≡ record { retained = 9 ∷ []; snapshots = (5 ∷ (6 ∷ (7 ∷ []))) ∷ ((5 ∷ (9 ∷ (7 ∷ []))) ∷ []) }
unfolding run_lists on_lists
calls_end = refl

-- A record a second for each number below `n`, the greatest first.
abbrev appends : ℕ → List (Event ℕ)
appends zero = []
appends (suc n) = call_event (append_record (zero_time + suc n * second)) ∷ appends n

appends-InBounds : (n : ℕ) (s : Frozen ℕ) → EventsInBounds 0 (λ r. r) s (appends n)
unfolding EventsInBounds InBounds
appends-InBounds zero s = tt
appends-InBounds (suc n) s = (tt, appends-InBounds n _)

-- Blocks without range blocks.
abbrev Plain : AccountingBlocks ℕ → ℕ → Type 0
Plain l n = (l.valid ≡ []) × (l.range_blocks ≡ []) × (l.count ≡ n)

invalidate_group-Plain :
    (l : AccountingBlocks ℕ) (n g : ℕ) → Plain l n → Plain (invalidate_group l g) n
unfolding invalidate_group
invalidate_group-Plain l n g (v, r, c) =
    let gone : get_elem? l.range_blocks g ≡ none = ap (λ x. get_elem? x g) r in
    rw (invalidate_group, gone) (v, r, c)

append-Plain :
    (s : Frozen ℕ) (r n : ℕ) → StateSound s → Plain s.blocks n → Plain (append 0 s.blocks r) (suc n)
append-Plain s r n ok plain =
    let same = append-ranges 0 s.blocks r in
    let (v, g, c) = invalidate_group-Plain s.blocks n (s.blocks.count / 2048) plain in
    let size = (append-Changed (flat s.snapshots) 0 s.blocks r ok).size in
    (same.valid ∙ v, same.ranges ∙ g, omega (arith, size, plain))

appends-Plain :
    (k : ℕ) (s : Frozen ℕ) (n : ℕ)
    → StateSound s
    → Plain s.blocks n
    → Plain (run_events 0 (λ r. r) s (appends k)).blocks (k + n)
unfolding run_events on_event on_blocks InBounds
appends-Plain zero s n ok plain = rw zero-add plain
appends-Plain (suc k) s n ok plain =
    let r = zero_time + suc k * second in
    let rest =
      appends-Plain k (record s { blocks = append 0 s.blocks r }) (suc n)
        (on_blocks-Sound 0 (λ x. x) s (append_record r) ok tt) (append-Plain s r n ok plain) in
    (rest.0, rest.1, omega (arith, rest))

-- Enough records for a range block.
abbrev filled : Frozen ℕ
filled = run_events 0 (λ r. r) no_blocks (appends 130)

filled-Plain : Plain filled.blocks 130
filled-Plain = appends-Plain 130 no_blocks 0 (no_blocks-Sound 0 (λ r. r)) (refl, refl, refl)

abbrev query_block : AccountingBlocks ℕ → RangeBlock
query_block l = new_range_block no_range_block 0 0 130 (archived_time (λ r. r) l)

-- The round of a query for the parts of such blocks.
plain_round :
    (l : AccountingBlocks ℕ) (v : List Bool) (r : List RangeBlock) (n : ℕ)
    → v ≡ []
    → r ≡ []
    → n ≡ 130
    → let end = min (0 * 2048 + 2048) n in
      let (s, b) =
        prepare_range_block
          (record { valid = v; blocks = r })
          0
          (0 * 2048)
          end
          (archived_time (λ r. r) l) in
      let q : AccountingBlocks ℕ × Option RangeBlock =
        if ltb (end - 0 * 2048) 128
        then (l, none)
        else (record l { valid = s.valid; range_blocks = s.blocks }, some b) in
      (q.1 ≡ some (query_block l)) × (q.0.valid ≡ true ∷ [])
unfolding prepare_range_block replicate
plain_round l v r n ev er en = rw (ev, er, en) (refl, refl)

prepare_group-Plain :
    (l : AccountingBlocks ℕ)
    → Plain l 130
    → ((prepare_group (λ r. r) l 0).1 ≡ some (query_block l))
      × ((prepare_group (λ r. r) l 0).0.valid ≡ true ∷ [])
unfolding prepare_group
prepare_group-Plain l (v, r, c) = plain_round l l.valid l.range_blocks l.count v r c

query_block-identity : (l : AccountingBlocks ℕ) → (query_block l).identity ≡ some 0
unfolding new_range_block
query_block-identity l = time_bounds-identity (archived_time (λ r. r) l) 0 130 _

-- A snapshot of the records.
abbrev later_events : List (Event ℕ)
later_events = call_event take_snapshot ∷ []

later-InBounds : EventsInBounds 0 (λ r. r) (prepared 0 (λ r. r) filled 0) later_events
unfolding EventsInBounds InBounds
later-InBounds = (tt, tt)

still-Valid :
    (s : Frozen ℕ)
    → Plain s.blocks 130
    → Valid (run_events 0 (λ r. r) (prepared 0 (λ r. r) s 0) later_events).blocks 0
unfolding run_events on_event on_blocks
still-Valid s plain =
    let same = (freeze-Untouched 0 (prepare_group (λ r. r) s.blocks 0).0).valid in
    ap (λ v. is_set v 0) (same ∙ (prepare_group-Plain s.blocks plain).1)

run_events-fresh_example :
    at (run_events 0 (λ r. r) (prepared 0 (λ r. r) filled 0) later_events).blocks 7
    ≡ at filled.blocks 7
run_events-fresh_example =
    run_events-fresh 0 (λ r. r) (appends 130) later_events 0 0 7 (query_block filled.blocks)
      (appends-InBounds 130 no_blocks) ((prepare_group-Plain filled.blocks filled-Plain).0)
      (query_block-identity filled.blocks) later-InBounds (still-Valid filled filled-Plain) refl
