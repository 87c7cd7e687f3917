-- ===== src/Accounting/Queries.antt =====
-- Concrete queries through the cache of range summaries, and the theorems of this part at them.
use cpa_usage_plugin.Common.{
  ℕ, ◌+◌, ◌-◌, ◌*◌, ◌≡◌, refl, true, false, ◌⊎◌, List, [], ◌∷◌, ◌++◌, some, length, arith,
}
use cpa_usage_plugin.Common.Instant.{zero_time, second}
use cpa_usage_plugin.Accounting.{RangeBlock}
use cpa_usage_plugin.Accounting.Blocks.{no_range_block}
use cpa_usage_plugin.Accounting.RangeCache.{RangeEntry, RangeCache, find_entry, retain_entry}
use cpa_usage_plugin.Accounting.Budget.{InBudget, total_bytes, retain_entry-InBudget}
use cpa_usage_plugin.Accounting.RangeSummary.{
  Summary, time_bounds, new_range_block, scan_range_summary, merge_range_block,
}
use cpa_usage_plugin.Accounting.MergeBlock.{
  Bounded, new_range_block-Bounded, merge_range_block-scan,
}

-- The details are their instants, and a summary lists them.
abbrev listing : Summary ℕ (List ℕ)
listing = record {
  start = [];
  add = λ r x. r ++ (x ∷ []);
  merge = λ r s. r ++ s;
  estimated_bytes = length;
  timestamp = λ x. x;
  matches = λ client x. true;
}

abbrev instants : ℕ → ℕ
instants i = zero_time + 5 * second + i

abbrev block : RangeBlock
block = new_range_block no_range_block 0 0 3 instants

abbrev no_cache : RangeCache (List ℕ)
no_cache = record {
  entries = [];
  bytes = 0;
  price_version = 0;
  hits = 0;
  misses = 0;
  evictions = 0;
  scanned_rows = 0;
  sweeps = 0;
  swept = false;
}

block-Bounded : Bounded instants block block.first block.end
unfolding new_range_block time_bounds
block-Bounded = new_range_block-Bounded instants no_range_block 0 0 3 (omega arith)

no_entry :
    (e : RangeEntry (List ℕ))
    → find_entry no_cache.entries (record { block = 0; client_api = []; api_detail = false })
      ≡ some e
    → e.data_of
      ≡ scan_range_summary listing listing.start instants block.first
          (block.end - block.first)
          zero_time
          []
unfolding find_entry
no_entry e h = absurd (cc)

merge_range_block-scan_example :
    ((merge_range_block listing
        (true ∷ [])
        no_cache
        0
        block
        (4 ∷ [])
        instants
        (zero_time + second)
        []).0
      ≡ scan_range_summary listing
          (4 ∷ [])
          instants
          block.first
          (block.end - block.first)
          (zero_time + second)
          [])
    ⊎ ((merge_range_block listing
          (true ∷ [])
          no_cache
          0
          block
          (4 ∷ [])
          instants
          (zero_time + second)
          []).0
        ≡ listing.merge (4 ∷ []) (
            scan_range_summary listing [] instants block.first
              (block.end - block.first)
              (zero_time + second)
              []))
merge_range_block-scan_example =
    merge_range_block-scan listing instants block (zero_time + second) block-Bounded (true ∷ [])
      no_cache 0 (4 ∷ []) [] no_entry

no_cache-InBudget : InBudget no_cache
unfolding total_bytes
no_cache-InBudget = record { counted = refl; few_bytes = omega arith; few_entries = omega arith }

retain_entry-InBudget_example :
    InBudget
      (retain_entry
        (true ∷ [])
        no_cache
        (record { block = 0; client_api = []; api_detail = false })
        (7 ∷ [])
        400).0
retain_entry-InBudget_example =
    retain_entry-InBudget (true ∷ []) no_cache
      (record { block = 0; client_api = []; api_detail = false }) (7 ∷ []) 400 no_cache-InBudget
