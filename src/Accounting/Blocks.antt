-- ===== src/Accounting/Blocks.antt =====
-- go/accounting_blocks.go: the operations on the blocks, with the copy of a shared array on write,
-- and go/range_cache.go: how a write makes the range block around it invalid.
use cpa_usage_plugin.Common.{
  ℕ, zero, suc, ◌+◌, ◌-◌, ◌*◌, ◌/◌, ◌%◌, min, max, Bool, true, false, ltb, ◌==◌, if◌then◌else◌,
  Option, none, some, List, [], ◌∷◌, ◌++◌, length, get_elem?, take, drop, set, replicate,
}
use cpa_usage_plugin.Common.Instant.{zero_time}
use cpa_usage_plugin.Accounting.{Slice, RangeBlock, AccountingBlocks}

-- accountingBlockRecords
abbrev pub block_records : ℕ
block_records = 256

-- rangeAggregateBlockRecords
abbrev pub range_block_records : ℕ
range_block_records = 2048

-- rangeAggregateBlock{}
abbrev pub no_range_block : RangeBlock
no_range_block = record {
  identity = none;
  first = 0;
  end = 0;
  minimum = zero_time;
  maximum = zero_time;
  all_non_zero = false;
  summary_bytes = 0;
  detail_bytes = 0;
}

-- invalidate, what it does to the block
abbrev pub invalidated : RangeBlock → RangeBlock
invalidated b = elim b.identity [ none ↦ b | some id ↦ no_range_block ]

-- invalidate, what it does to the identity
abbrev pub retire : List Bool → RangeBlock → List Bool
retire valid b = elim b.identity [ none ↦ valid | some id ↦ set valid id false ]

abbrev pub is_set : List Bool → ℕ → Bool
is_set bits i = elim (get_elem? bits i) [ none ↦ false | some b ↦ b ]

module _ {ℓ} {R : Type ℓ} where
  -- `b.rangeBlocks[group].invalidate()` where the group is there
  unfoldable pub invalidate_group : AccountingBlocks R → ℕ → AccountingBlocks R
  invalidate_group l group = elim (get_elem? l.range_blocks group) [
    | none ↦ l
    | some b ↦ record l {
      valid = retire l.valid b;
      range_blocks = set l.range_blocks group (invalidated b);
    }
  ]

  abbrev pub invalidate_groups : AccountingBlocks R → ℕ → ℕ → AccountingBlocks R
  invalidate_groups l group zero = l
  invalidate_groups l group (suc n) = invalidate_groups (invalidate_group l group) (suc group) n

  -- invalidateRangeBlocksFrom on the range blocks
  unfoldable pub invalidate_from : AccountingBlocks R → ℕ → AccountingBlocks R
  invalidate_from l first =
      let group = first / range_block_records in
      invalidate_groups l group (length l.range_blocks - group)

  -- The array at a place in memory.
  abbrev pub array_at : List (List R) → ℕ → List R
  array_at arrays a = elim (get_elem? arrays a) [ none ↦ [] | some x ↦ x ]

  -- at, none where Go panics
  unfoldable pub at : AccountingBlocks R → ℕ → Option R
  at l i = elim (get_elem? l.blocks (i / block_records)) [
    | none ↦ none
    | some s ↦
        if ltb (i % block_records) s.len
        then get_elem? (array_at l.arrays s.array) (i % block_records)
        else none
  ]

  -- What a slice reads.
  unfoldable pub view : List (List R) → Slice → List R
  view arrays s = take s.len (array_at arrays s.array)

  -- records, in the order of the iteration
  unfoldable pub records_of : List (List R) → List Slice → List R
  records_of arrays [] = []
  records_of arrays (s ∷ blocks) = let rest = records_of arrays blocks in view arrays s ++ rest

  -- `block[j] = r` on a block of the list
  abbrev pub write : AccountingBlocks R → ℕ → ℕ → R → AccountingBlocks R
  write l index j r = elim (get_elem? l.blocks index) [
    | none ↦ l
    | some s ↦ record l { arrays = set l.arrays s.array (set (array_at l.arrays s.array) j r) }
  ]

  -- `b.blocks[last] = append(block, record)` and the count, where the array has room
  unfoldable pub put_last : AccountingBlocks R → R → AccountingBlocks R
  put_last l r =
      let last = length l.blocks - 1 in
      elim (get_elem? l.blocks last) [
        | none ↦ l
        | some s ↦ record (write l last s.len r) {
          blocks = set l.blocks last (record s { len = s.len + 1 });
          count = l.count + 1;
        }
      ]

  -- freeze: the slices of the snapshot, and every block shared
  unfoldable pub freeze : AccountingBlocks R → AccountingBlocks R × List Slice
  freeze l = if l.count == 0 then (l, []) else (
    record l { shared = replicate (length l.blocks) true ++ drop (length l.blocks) l.shared },
    l.blocks,
  )

  -- The rest of the operations fill new arrays with `zero_record`, accountingRecord{}.
  module _ (zero_record : R) where
    -- A slice's array moves to a new one of the given capacity, with the slice's records.
    unfoldable pub copied : List (List R) → Slice → ℕ → List R
    copied arrays s capacity = view arrays s ++ replicate (capacity - s.len) zero_record

    abbrev pub move : AccountingBlocks R → ℕ → Slice → ℕ → AccountingBlocks R
    move l index s capacity = record l {
      arrays = l.arrays ++ (copied l.arrays s capacity ∷ []);
      blocks = set l.blocks index (record { array = length l.arrays; len = s.len });
      shared = set l.shared index false;
    }

    -- writableBlock
    unfoldable pub writable_block : AccountingBlocks R → ℕ → AccountingBlocks R
    writable_block l index = elim (get_elem? l.blocks index) [
      | none ↦ l
      | some s ↦
          if is_set l.shared index then move l index s (length (array_at l.arrays s.array)) else l
    ]

    -- `*b.mutableAt(i) = r`
    unfoldable pub mutable_at : AccountingBlocks R → ℕ → R → AccountingBlocks R
    mutable_at l i r =
        write (writable_block (invalidate_group l (i / range_block_records)) (i / block_records))
          (i / block_records) (i % block_records) r

    abbrev pub add_block : AccountingBlocks R → ℕ → AccountingBlocks R
    add_block l capacity = record l {
      arrays = l.arrays ++ (replicate capacity zero_record ∷ []);
      blocks = l.blocks ++ (record { array = length l.arrays; len = 0 } ∷ []);
    }

    abbrev pub first_block : AccountingBlocks R → AccountingBlocks R
    first_block l = if length l.blocks == 0 then add_block l 1 else l

    -- The last block gets room for a record: a new block, or the same in an array twice as large.
    unfoldable pub make_room : AccountingBlocks R → AccountingBlocks R
    make_room l =
        let last = length l.blocks - 1 in
        elim (get_elem? l.blocks last) [
          | none ↦ l
          | some s ↦
              let capacity = length (array_at l.arrays s.array) in
              if s.len == block_records
              then add_block l block_records
              else if s.len == capacity
              then move l last s (min block_records (max 1 (capacity * 2)))
              else l
        ]

    -- append
    unfoldable pub append : AccountingBlocks R → R → AccountingBlocks R
    append l r =
        put_last (make_room (first_block (invalidate_group l (l.count / range_block_records)))) r

    -- clear(last[end:]) and last[:end]
    abbrev pub cut_block : AccountingBlocks R → ℕ → ℕ → AccountingBlocks R
    cut_block l last end = elim (get_elem? l.blocks last) [
      | none ↦ l
      | some s ↦
          let a = array_at l.arrays s.array in
          record l {
            arrays =
                set l.arrays s.array
                  (take end a ++ (replicate (s.len - end) zero_record ++ drop s.len a));
            blocks = set l.blocks last (record s { len = end });
          }
    ]

    -- truncate; the array of the headers, which nothing shares, is not modelled.
    unfoldable pub truncate : AccountingBlocks R → ℕ → AccountingBlocks R
    truncate l count =
        let l1 = invalidate_from l count in
        if count == 0
        then record l1 { range_blocks = []; blocks = []; shared = []; count = 0 }
        else let blocks = (count + block_records - 1) / block_records in
          let l2 =
            cut_block (writable_block l1 (blocks - 1)) (blocks - 1)
              (count - (blocks - 1) * block_records) in
          record l2 {
            blocks = take blocks l2.blocks;
            shared = take blocks l2.shared;
            count = count;
            range_blocks =
                take ((count + range_block_records - 1) / range_block_records) l2.range_blocks;
          }

    abbrev pub shift_down : AccountingBlocks R → ℕ → ℕ → AccountingBlocks R
    shift_down l i zero = l
    shift_down l i (suc n) = elim (at l (suc i)) [
      | none ↦ l
      | some r ↦ shift_down (mutable_at l i r) (suc i) n
    ]

    -- remove
    unfoldable pub remove : AccountingBlocks R → ℕ → AccountingBlocks R
    remove l i = let l1 = shift_down l i (l.count - (i + 1)) in truncate l1 (l1.count - 1)
