-- ===== src/Accounting/Events.antt =====
-- go/range_cache.go, forEachRangeBlockLocked over the retained records: a query prepares the range
-- block of each group of 2,048 records that is large enough, between the writes of the records.
use cpa_usage_plugin.Common.{
  ℕ, ◌+◌, ◌-◌, ◌*◌, min, ltb, if◌then◌else◌, Option, none, some, List, [], ◌∷◌,
}
use cpa_usage_plugin.Common.Instant.{zero_time}
use cpa_usage_plugin.Accounting.{RangeBlock, AccountingBlocks}
use cpa_usage_plugin.Accounting.Blocks.{range_block_records, at}
use cpa_usage_plugin.Accounting.Refinement.{Call, InBounds, Frozen, on_blocks}
use cpa_usage_plugin.Accounting.RangeSummary.{prepare_range_block}

-- rangeAggregateMinRecords
abbrev pub range_min_records : ℕ
range_min_records = 128

module _ {R : Type 0} (stamp : R → ℕ) where
  -- archivedTime
  abbrev pub archived_time : AccountingBlocks R → ℕ → ℕ
  archived_time l i = elim (at l i) [ none ↦ zero_time | some r ↦ stamp r ]

  -- One round of the loop, for the group from `from` on, and the block that it visits.
  unfoldable pub prepare_group : AccountingBlocks R → ℕ → AccountingBlocks R × Option RangeBlock
  unfolding prepare_range_block
  prepare_group l group =
      let from = group * range_block_records in
      let end = min (from + range_block_records) l.count in
      if ltb (end - from) range_min_records
      then (l, none)
      else let (s, b) =
          prepare_range_block (record { valid = l.valid; blocks = l.range_blocks }) group from end
            (archived_time l) in
        (record l { valid = s.valid; range_blocks = s.blocks }, some b)

-- What happens to the blocks: a call, or a query that comes to a group.
pub data Event (R : Type 0) : Type 0 where
  call_event : Call R → Event R
  prepare_event : ℕ → Event R

module _ {R : Type 0} (zero_record : R) (stamp : R → ℕ) where
  abbrev pub prepared : Frozen R → ℕ → Frozen R
  prepared s group = record s { blocks = (prepare_group stamp s.blocks group).0 }

  unfoldable pub on_event : Frozen R → Event R → Frozen R
  on_event s (call_event c) = on_blocks zero_record s c
  on_event s (prepare_event group) = prepared s group

  unfoldable pub run_events : Frozen R → List (Event R) → Frozen R
  run_events s [] = s
  run_events s (e ∷ events) = run_events (on_event s e) events

  abbrev pub EventInBounds : Frozen R → Event R → Type 0
  EventInBounds s (call_event c) = InBounds s.blocks.count c
  EventInBounds s (prepare_event group) = Unit

  -- Each call is within the bounds that the program checks.
  unfoldable pub EventsInBounds : Frozen R → List (Event R) → Type 0
  EventsInBounds s [] = Unit
  EventsInBounds s (e ∷ events) = EventInBounds s e × EventsInBounds (on_event s e) events
