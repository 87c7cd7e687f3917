-- ===== src/Storage.antt =====
-- go/stats.go and go/storage_schedule.go: the worker that appends accounting records to the day's
-- shard, flushes and syncs it, and writes snapshots. The counters are int64 and never below 0; an
-- interval that is not above 0 is 0, as the code only asks whether it is above 0.
pub mod Deadline
pub mod Worker
pub mod Wake
pub mod Rest
pub mod Idle
pub mod Tests
use cpa_usage_plugin.Common.{ℕ, Bool}
use cpa_usage_plugin.Common.Text.{Text}

-- storageWorkerConfig, less the last snapshot, which only starts the worker's own.
pub record StorageWorkerConfig : Type 0 where
  pub dir : Text
  pub flush_interval : ℕ
  pub snapshot_interval : ℕ
  pub snapshot_record_interval : ℕ
  pub sync_interval : ℕ
  pub sync_record_interval : ℕ

-- storageWorkerState. The file and the writer, with its encoder, are there or not.
pub record StorageWorker : Type 0 where
  pub cfg : StorageWorkerConfig
  pub file : Bool
  pub writer : Bool
  pub loaded_path : Text
  pub active_date : Text
  pub last_flush : ℕ
  pub last_snapshot : ℕ
  pub last_sync : ℕ
  pub first_snapshot_record : ℕ
  pub first_unsynced_record : ℕ
  pub buffered : ℕ
  pub snapshot_records : ℕ
  pub unsynced_records : ℕ
  pub flush_retry_at : ℕ
  pub sync_retry_at : ℕ
  pub snapshot_retry_at : ℕ
