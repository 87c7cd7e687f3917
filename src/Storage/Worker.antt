-- ===== src/Storage/Worker.antt =====
-- go/stats.go, what the worker does: flush, sync, snapshot, the change of shard, a batch of records
-- and a round of its loop. The file system and the clock are parameters: each call takes whether it
-- succeeded and what the clock read then. What `report` copies to the statistics is not modelled.
use cpa_usage_plugin.Common.{
  ℕ, ◌+◌, Bool, true, false, ◌&&◌, ◌||◌, not, ltb, ◌==◌, if◌then◌else◌, [],
}
use cpa_usage_plugin.Common.Instant.{zero_time, is_zero}
use cpa_usage_plugin.Common.Text.{Text, text_eq, trim_space, is_empty}
use cpa_usage_plugin.Storage.{StorageWorker}
use cpa_usage_plugin.Storage.Deadline.{flush_due, sync_due, snapshot_due}

-- storageRetryDelay, 100 ms
abbrev pub storage_retry_delay : ℕ
storage_retry_delay = 100000000

-- The outcome of a call of the file system: whether it succeeded, and the clock after it.
pub record Outcome : Type 0 where
  pub ok : Bool
  pub at : ℕ

-- flush
unfoldable pub flush : StorageWorker → ℕ → Outcome → StorageWorker × Bool
flush w now flushed =
    if not w.writer || w.buffered == 0
    then (w, true)
    else if flushed.ok
    then (record w { buffered = 0; flush_retry_at = zero_time; last_flush = now }, true)
    else (record w { flush_retry_at = flushed.at + storage_retry_delay }, false)

abbrev pub finish_sync : StorageWorker × Bool → ℕ → Outcome → StorageWorker × Bool
finish_sync (w, flushed) now synced =
    if flushed && synced.ok
    then (record w { unsynced_records = 0; sync_retry_at = zero_time; last_sync = now }, true)
    else (record w { sync_retry_at = synced.at + storage_retry_delay }, false)

-- sync, which flushes first; `synced.at` is the clock's reading on either failure.
unfoldable pub sync : StorageWorker → ℕ → Outcome → Outcome → StorageWorker × Bool
sync w now flushed synced =
    if not w.file || w.unsynced_records == 0
    then (w, true)
    else finish_sync (flush w now flushed) now synced

-- writeSnapshot; the compaction of older shards after it changes only the statistics.
unfoldable pub write_snapshot : StorageWorker → ℕ → ℕ → Outcome → StorageWorker × Bool
write_snapshot w now clock written =
    if is_empty (trim_space w.cfg.dir)
    then (w, true)
    else if written.ok
    then (
      record w {
        last_snapshot = if is_zero now then clock else now;
        snapshot_retry_at = zero_time;
        snapshot_records = 0;
      },
      true,
    )
    else (record w { snapshot_retry_at = written.at + storage_retry_delay }, false)

-- closeFile; whether the file's Close fails changes nothing of the worker.
abbrev close_writer : StorageWorker → ℕ → Bool → StorageWorker
close_writer w now flushed =
    if w.writer
    then if flushed
      then record w { buffered = 0; last_flush = now; writer = false }
      else record w { writer = false }
    else w

unfoldable pub close_file : StorageWorker → ℕ → Bool → Bool → Bool → StorageWorker
close_file w now sync_file flushed synced =
    let v = close_writer w now flushed in
    let closed =
      if v.file
      then if sync_file && synced
        then record v { unsynced_records = 0; last_sync = now; file = false }
        else record v { file = false }
      else v in
    record closed { loaded_path = []; active_date = [] }

-- close
unfoldable pub close : StorageWorker → ℕ → Bool → Bool → Outcome → StorageWorker
close w now flushed synced written =
    let closed = close_file w now true flushed synced in
    if is_empty (trim_space w.cfg.dir) then closed else (write_snapshot closed now now written).0

-- What `open` meets: the day and the path of its shard, the calls on the shard that is open, and
-- whether the directory and the file can be opened.
pub record Opening : Type 0 where
  pub date : Text
  pub path : Text
  pub flushed : Bool
  pub synced : Bool
  pub written : Outcome
  pub opened : Bool

-- The part of `open` for a shard of another day.
abbrev leave_shard : StorageWorker → ℕ → Opening → StorageWorker
leave_shard w now o =
    let closed = close_file w now true o.flushed o.synced in
    let saved =
      if ltb 0 closed.snapshot_records
      then (write_snapshot closed now now o.written).0
      else closed in
    if w.file then saved else w

unfoldable pub open_shard : StorageWorker → ℕ → Opening → StorageWorker × Bool
open_shard w now o =
    if w.file && text_eq w.loaded_path o.path
    then (w, true)
    else let left = leave_shard w now o in
      if o.opened
      then (
        record left { file = true; writer = true; loaded_path = o.path; active_date = o.date },
        true,
      )
      else (left, false)

-- What the calls of one round of the loop meet.
pub record Round : Type 0 where
  pub flushed : Outcome
  pub sync_flushed : Outcome
  pub synced : Outcome
  pub written : Outcome

abbrev pub tick_flush : StorageWorker → ℕ → Round → StorageWorker
tick_flush w now r = if flush_due w now then (flush w now r.flushed).0 else w

abbrev pub tick_sync : StorageWorker → ℕ → Round → StorageWorker
tick_sync w now r = if sync_due w now then (sync w now r.sync_flushed r.synced).0 else w

abbrev pub tick_snapshot : StorageWorker → ℕ → Round → StorageWorker
tick_snapshot w now r = if snapshot_due w now then (write_snapshot w now now r.written).0 else w

-- The three tests when the timer fires, and after a batch.
unfoldable pub tick : StorageWorker → ℕ → Round → StorageWorker
tick w now r = tick_snapshot (tick_sync (tick_flush w now r) now r) now r

-- The counters after `records` records were encoded.
abbrev pub count_records : StorageWorker → ℕ → ℕ → StorageWorker
count_records w records started = record w {
  buffered = w.buffered + records;
  first_snapshot_record = if w.snapshot_records == 0 then started else w.first_snapshot_record;
  first_unsynced_record = if w.unsynced_records == 0 then started else w.first_unsynced_record;
  snapshot_records = w.snapshot_records + records;
  unsynced_records = w.unsynced_records + records;
}

abbrev pub append_opened : StorageWorker × Bool → ℕ → ℕ → ℕ → Round → StorageWorker
append_opened (w, false) encoded started finished r = w
append_opened (w, true) encoded started finished r =
    if encoded == 0 then w else tick (count_records w encoded started) finished r

-- appendBatch of `batch` records, of which `encoded` could be encoded.
unfoldable pub append_batch : StorageWorker → ℕ → ℕ → ℕ → ℕ → Opening → Round → StorageWorker
append_batch w batch encoded started finished o r =
    if batch == 0 then w else append_opened (open_shard w started o) encoded started finished r
