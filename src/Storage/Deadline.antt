-- ===== src/Storage/Deadline.antt =====
-- go/stats.go, the tests for work that is due, and go/storage_schedule.go, nextDeadline.
use cpa_usage_plugin.Common.{
  ℕ, ◌+◌, ◌-◌, Bool, true, false, ◌&&◌, ◌||◌, not, ltb, leb, ◌==◌, if◌then◌else◌,
}
use cpa_usage_plugin.Common.Instant.{zero_time, is_zero}
use cpa_usage_plugin.Storage.{StorageWorker}

-- `now.Sub(base) >= interval` for an interval above 0; a Sub that saturates is no less than any
-- interval.
abbrev pub elapsed : ℕ → ℕ → ℕ → Bool
elapsed now base interval = leb interval (now - base)

-- The instant of the last run, or of the first record since.
abbrev pub base_of : ℕ → ℕ → ℕ
base_of last first = if is_zero last then first else last

-- flushDue
unfoldable pub flush_due : StorageWorker → ℕ → Bool
flush_due w now =
    if not w.writer || (w.buffered == 0 || ltb now w.flush_retry_at)
    then false
    else w.cfg.flush_interval == 0
      || (is_zero w.last_flush || elapsed now w.last_flush w.cfg.flush_interval)

-- The two tests that syncDue and snapshotDue share: enough records, or a period since the base.
unfoldable pub records_due : ℕ → ℕ → ℕ → ℕ → ℕ → Bool
records_due records limit interval base now =
    if ltb 0 limit && leb limit records
    then true
    else if interval == 0
    then false
    else not (is_zero base) && elapsed now base interval

-- syncDue
unfoldable pub sync_due : StorageWorker → ℕ → Bool
sync_due w now =
    if not w.file || (w.unsynced_records == 0 || ltb now w.sync_retry_at)
    then false
    else records_due w.unsynced_records w.cfg.sync_record_interval w.cfg.sync_interval
        (base_of w.last_sync w.first_unsynced_record) now

-- snapshotDue
unfoldable pub snapshot_due : StorageWorker → ℕ → Bool
snapshot_due w now =
    if w.snapshot_records == 0 || ltb now w.snapshot_retry_at
    then false
    else records_due w.snapshot_records w.cfg.snapshot_record_interval w.cfg.snapshot_interval
        (base_of w.last_snapshot w.first_snapshot_record) now

-- The closure `add`, with the deadline so far, zero for none.
unfoldable pub add_deadline : ℕ → ℕ → ℕ → ℕ → ℕ
add_deadline now due retry next =
    if is_zero due
    then next
    else let from_now = if ltb due now then now else due in
      let allowed = if ltb from_now retry then retry else from_now in
      if is_zero next || ltb allowed next then allowed else next

unfoldable pub flush_deadline : StorageWorker → ℕ → ℕ → ℕ
flush_deadline w now next =
    if w.writer && ltb 0 w.buffered
    then add_deadline now
        (if ltb 0 w.cfg.flush_interval && not (is_zero w.last_flush)
          then w.last_flush + w.cfg.flush_interval
          else now)
        w.flush_retry_at next
    else next

-- The shape that the sync and the snapshot branches share.
unfoldable pub records_deadline : ℕ → ℕ → ℕ → ℕ → ℕ → ℕ → ℕ → ℕ
records_deadline records limit interval base retry now next =
    if ltb 0 limit && leb limit records
    then add_deadline now now retry next
    else if ltb 0 interval && not (is_zero base)
    then add_deadline now (base + interval) retry next
    else next

unfoldable pub sync_deadline : StorageWorker → ℕ → ℕ → ℕ
sync_deadline w now next =
    if w.file && ltb 0 w.unsynced_records
    then records_deadline w.unsynced_records w.cfg.sync_record_interval w.cfg.sync_interval
        (base_of w.last_sync w.first_unsynced_record) w.sync_retry_at now next
    else next

unfoldable pub snapshot_deadline : StorageWorker → ℕ → ℕ → ℕ
snapshot_deadline w now next =
    if ltb 0 w.snapshot_records
    then records_deadline w.snapshot_records w.cfg.snapshot_record_interval w.cfg.snapshot_interval
        (base_of w.last_snapshot w.first_snapshot_record) w.snapshot_retry_at now next
    else next

-- nextDeadline: the zero time for no deadline.
unfoldable pub next_deadline : StorageWorker → ℕ → ℕ
next_deadline w now = snapshot_deadline w now (sync_deadline w now (flush_deadline w now zero_time))
