-- ===== src/Accounting/Refinement.antt =====
-- go/accounting_blocks.go: the accounting blocks with their snapshots, and as their specification a
-- list of records with copies of that list.
use cpa_usage_plugin.Common.{ℕ, suc, ◌≤◌, ◌<◌, List, [], ◌∷◌, ◌++◌, length, take, drop, set, map}
use cpa_usage_plugin.Accounting.{Slice, AccountingBlocks}
use cpa_usage_plugin.Accounting.Blocks.{records_of, append, mutable_at, truncate, remove, freeze}

-- A call of the operations: an append, a write through mutableAt, a truncation, a removal or a
-- snapshot.
pub data Call (R : Type 0) : Type 0 where
  append_record : R → Call R
  write_record : ℕ → R → Call R
  truncate_to : ℕ → Call R
  remove_record : ℕ → Call R
  take_snapshot : Call R

-- Lists of records: the retained ones, and those of each snapshot, the oldest first.
pub record Histories (R : Type 0) : Type 0 where
  pub retained : List R
  pub snapshots : List (List R)

module _ {R : Type 0} where
  unfoldable pub on_lists : Histories R → Call R → Histories R
  on_lists h (append_record r) = record h { retained = h.retained ++ (r ∷ []) }
  on_lists h (write_record i r) = record h { retained = set h.retained i r }
  on_lists h (truncate_to n) = record h { retained = take n h.retained }
  on_lists h (remove_record i) = record h {
    retained = take i h.retained ++ drop (suc i) h.retained;
  }
  on_lists h take_snapshot = record h { snapshots = h.snapshots ++ (h.retained ∷ []) }

  -- The call is within the bounds that the program checks: elsewhere it panics.
  unfoldable pub InBounds : ℕ → Call R → Type 0
  InBounds count (append_record r) = Unit
  InBounds count (write_record i r) = i < count
  InBounds count (truncate_to n) = n ≤ count
  InBounds count (remove_record i) = i < count
  InBounds count take_snapshot = Unit

  unfoldable pub run_lists : Histories R → List (Call R) → Histories R
  run_lists h [] = h
  run_lists h (c ∷ calls) = run_lists (on_lists h c) calls

  unfoldable pub AllInBounds : Histories R → List (Call R) → Type 0
  AllInBounds h [] = Unit
  AllInBounds h (c ∷ calls) = InBounds (length h.retained) c × AllInBounds (on_lists h c) calls

-- The blocks and the slices of each snapshot.
pub record Frozen (R : Type 0) : Type 0 where
  pub blocks : AccountingBlocks R
  pub snapshots : List (List Slice)

module _ {R : Type 0} (zero_record : R) where
  unfoldable pub on_blocks : Frozen R → Call R → Frozen R
  on_blocks s (append_record r) = record s { blocks = append zero_record s.blocks r }
  on_blocks s (write_record i r) = record s { blocks = mutable_at zero_record s.blocks i r }
  on_blocks s (truncate_to n) = record s { blocks = truncate zero_record s.blocks n }
  on_blocks s (remove_record i) = record s { blocks = remove zero_record s.blocks i }
  on_blocks s take_snapshot = record {
    blocks = (freeze s.blocks).0;
    snapshots = s.snapshots ++ ((freeze s.blocks).1 ∷ []);
  }

  unfoldable pub run_blocks : Frozen R → List (Call R) → Frozen R
  run_blocks s [] = s
  run_blocks s (c ∷ calls) = run_blocks (on_blocks s c) calls

module _ {R : Type 0} where
  -- What the blocks and the snapshots read now.
  unfoldable pub read_all : Frozen R → Histories R
  read_all s = record {
    retained = records_of s.blocks.arrays s.blocks.blocks;
    snapshots = map (records_of s.blocks.arrays) s.snapshots;
  }

  -- accountingBlocks{} before the first call
  abbrev pub no_blocks : Frozen R
  no_blocks = record {
    blocks = record {
      arrays = [];
      valid = [];
      range_blocks = [];
      blocks = [];
      shared = [];
      count = 0;
    };
    snapshots = [];
  }

  abbrev pub no_histories : Histories R
  no_histories = record { retained = []; snapshots = [] }
