-- ===== src/Accounting.antt =====
-- go/accounting_blocks.go and go/range_cache.go: the retained accounting records of one model in
-- blocks of arrays, the frozen snapshots that share these arrays, and the cache of range summaries.
pub mod Blocks
pub mod Memory
pub mod Sound
pub mod Preserve
pub mod Reads
pub mod Prepare
pub mod Update
pub mod Append
pub mod PutLast
pub mod Truncate
pub mod Shrink
pub mod Freeze
pub mod Refinement
pub mod Simulation
pub mod Stale
pub mod Coherence
pub mod Retire
pub mod Events
pub mod Identity
pub mod Fresh
pub mod RangeCache
pub mod Budget
pub mod RangeSummary
pub mod MergeBlock
mod Tests
mod Queries
use cpa_usage_plugin.Common.{ℕ, Bool, Option, List}

-- A Go slice that starts where its array does: the array by its place in memory, and the length.
pub record Slice : Type 0 where
  pub array : ℕ
  pub len : ℕ

-- rangeAggregateBlock, its identity by its place in memory
pub record RangeBlock : Type 0 where
  pub identity : Option ℕ
  pub first : ℕ
  pub end : ℕ
  pub minimum : ℕ
  pub maximum : ℕ
  pub all_non_zero : Bool
  pub summary_bytes : ℕ
  pub detail_bytes : ℕ

-- accountingBlocks, with the memory around it: the arrays of records, as long as their capacity,
-- and whether each identity of a range block is valid.
pub record AccountingBlocks {ℓ} (R : Type ℓ) : Type ℓ where
  pub arrays : List (List R)
  pub valid : List Bool
  pub range_blocks : List RangeBlock
  pub blocks : List Slice
  pub shared : List Bool
  pub count : ℕ
