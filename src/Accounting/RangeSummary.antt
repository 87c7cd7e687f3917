-- ===== src/Accounting/RangeSummary.antt =====
-- go/range_cache.go: the range blocks over the details of one model, and how a query adds a block to
-- its summary, from the cache, from a scan that the cache keeps, or from a scan with the cutoff.
use cpa_usage_plugin.Common.{
  ℕ, zero, suc, ◌+◌, ◌-◌, Bool, true, false, ◌&&◌, ◌||◌, not, ltb, ◌==◌, if◌then◌else◌, Option,
  none, some, List, [], ◌∷◌, ◌++◌, length, get_elem?, set, replicate,
}
use cpa_usage_plugin.Common.Instant.{zero_time, is_zero}
use cpa_usage_plugin.Common.Text.{Text, is_empty, byte_length}
use cpa_usage_plugin.Accounting.{RangeBlock}
use cpa_usage_plugin.Accounting.Blocks.{no_range_block, invalidated, retire, is_set}
use cpa_usage_plugin.Accounting.RangeCache.{
  RangeKey, RangeCache, find_entry, can_retain, retain_entry,
}

-- What the queries use of a summary, rangeSummaryAccumulator for one API and model: the start, `add`
-- of a detail, `merge` and estimatedBytes, and of a detail its instant and whether a client's
-- selector takes it.
pub record Summary (R S : Type 0) : Type 0 where
  pub start : S
  pub add : S → R → S
  pub merge : S → S → S
  pub estimated_bytes : S → ℕ
  pub timestamp : R → ℕ
  pub matches : Text → R → Bool

-- The range blocks of a model with the identities in memory.
pub record RangeBlocks : Type 0 where
  pub valid : List Bool
  pub blocks : List RangeBlock

abbrev pub earlier : ℕ → RangeBlock → Bool
earlier t b = ltb t b.minimum

abbrev pub later : ℕ → RangeBlock → Bool
later t b = ltb b.maximum t

-- The loop of prepareRangeBlock over the instants from `i` on.
unfoldable pub time_bounds : (ℕ → ℕ) → RangeBlock → ℕ → ℕ → RangeBlock
time_bounds timestamp b i zero = b
time_bounds timestamp b i (suc n) =
    let t = timestamp i in
    time_bounds timestamp
      (record b {
        all_non_zero = if is_zero t then false else b.all_non_zero;
        minimum = if i == b.first || earlier t b then t else b.minimum;
        maximum = if i == b.first || later t b then t else b.maximum;
      })
      (suc i) n

-- The block that prepareRangeBlock makes, with its new identity.
unfoldable pub new_range_block : RangeBlock → ℕ → ℕ → ℕ → (ℕ → ℕ) → RangeBlock
new_range_block b id first end timestamp =
    time_bounds timestamp
      (record (invalidated b) { identity = some id; first = first; end = end; all_non_zero = true })
      first (end - first)

abbrev pub or_zero : Option RangeBlock → RangeBlock
or_zero none = no_range_block
or_zero (some b) = b

abbrev pub is_valid : List Bool → Option ℕ → Bool
is_valid valid none = false
is_valid valid (some id) = is_set valid id

-- prepareRangeBlock: the block at `index`, as it is or made anew
unfoldable pub prepare_range_block : RangeBlocks → ℕ → ℕ → ℕ → (ℕ → ℕ) → RangeBlocks × RangeBlock
prepare_range_block s index first end timestamp =
    let blocks = s.blocks ++ replicate (suc index - length s.blocks) no_range_block in
    let b = or_zero (get_elem? blocks index) in
    if is_valid s.valid b.identity && b.first == first && b.end == end
    then (record s { blocks = blocks }, b)
    else let valid = retire s.valid b in
      let made = new_range_block b (length valid) first end timestamp in
      (record { valid = valid ++ (true ∷ []); blocks = set blocks index made }, made)

module _ {R S : Type 0} (f : Summary R S) where
  -- scanRangeSummary over `n` rows from `first` on
  unfoldable pub scan_range_summary : S → (ℕ → R) → ℕ → ℕ → ℕ → Text → S
  scan_range_summary result read first zero cutoff client_api = result
  scan_range_summary result read first (suc n) cutoff client_api =
      let detail = read first in
      let t = f.timestamp detail in
      scan_range_summary
        (if not (is_zero cutoff) && (is_zero t || ltb t cutoff)
          then result
          else if f.matches client_api detail
          then f.add result detail
          else result)
        read (suc first) n cutoff client_api

  abbrev pub scanned : RangeCache S → RangeBlock → RangeCache S
  scanned c b = record c { scanned_rows = c.scanned_rows + (b.end - b.first) }

  -- mergeRangeBlock for the block with the identity `id`: the result, the cache and the block after
  -- it
  unfoldable pub merge_range_block :
      List Bool
      → RangeCache S
      → ℕ
      → RangeBlock
      → S
      → (ℕ → R)
      → ℕ
      → Text
      → S × RangeCache S × RangeBlock
  merge_range_block valid c id b result read cutoff client_api =
      let complete = is_zero cutoff || (b.all_non_zero && not (ltb b.minimum cutoff)) in
      let key : RangeKey = record { block = id; client_api = client_api; api_detail = false } in
      let direct = scan_range_summary result read b.first (b.end - b.first) cutoff client_api in
      let whole = scan_range_summary f.start read b.first (b.end - b.first) zero_time client_api in
      let estimated = f.estimated_bytes whole in
      let missed = record c { misses = c.misses + 1 } in
      let (asked, room) = can_retain valid missed (b.summary_bytes + 128) in
      let known = is_empty client_api && ltb 0 b.summary_bytes in
      let kept = if known then asked else missed in
      if not (is_zero cutoff) && ltb b.maximum cutoff
      then (result, c, b)
      else if not complete || ltb 4096 (byte_length client_api)
      then (direct, scanned c b, b)
      else elim (find_entry c.entries key) [
        | some e ↦ (f.merge result e.data_of, record c { hits = c.hits + 1 }, b)
        | none ↦ if known && not room then (direct, scanned kept b, b) else (
          f.merge result whole,
          (retain_entry valid (scanned kept b) key whole estimated).0,
          if is_empty client_api then record b { summary_bytes = estimated } else b,
        )
      ]
