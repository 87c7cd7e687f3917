-- ===== src/Storage/Tests.antt =====
-- A concrete worker, and the theorems of this part at it.
use cpa_usage_plugin.Common.{ℕ, ◌+◌, ◌*◌, ◌≡◌, refl, true, false, [], ◌∷◌, arith}
use cpa_usage_plugin.Common.Instant.{zero_time, second}
use cpa_usage_plugin.Common.Text.{trim_space}
use cpa_usage_plugin.Storage.{StorageWorker}
use cpa_usage_plugin.Storage.Deadline.{
  add_deadline, flush_deadline, records_deadline, sync_deadline, snapshot_deadline, next_deadline,
}
use cpa_usage_plugin.Storage.Wake.{work_due, IsDeadline, next_deadline-IsDeadline}
use cpa_usage_plugin.Storage.Worker.{Outcome, Round, tick}
use cpa_usage_plugin.Storage.Rest.{Rests}
use cpa_usage_plugin.Storage.Idle.{tick-idle}

abbrev clock : ℕ → ℕ
clock n = zero_time + n * second

-- Two records since the flush at 10, with a flush each 5 seconds and a sync each 60.
abbrev worker : StorageWorker
worker = record {
  cfg = record {
    dir = b'd' ∷ [];
    flush_interval = 5 * second;
    snapshot_interval = 3600 * second;
    snapshot_record_interval = 1000;
    sync_interval = 60 * second;
    sync_record_interval = 0;
  };
  file = true;
  writer = true;
  loaded_path = [];
  active_date = [];
  last_flush = clock 10;
  last_snapshot = clock 1;
  last_sync = zero_time;
  first_snapshot_record = clock 11;
  first_unsynced_record = clock 11;
  buffered = 2;
  snapshot_records = 2;
  unsynced_records = 2;
  flush_retry_at = zero_time;
  sync_retry_at = zero_time;
  snapshot_retry_at = zero_time;
}

flush_first : next_deadline worker (clock 12) ≡ clock 15
unfolding next_deadline snapshot_deadline sync_deadline flush_deadline records_deadline add_deadline
flush_first = refl

next_deadline-IsDeadline_example :
    IsDeadline (clock 12) (work_due worker) (next_deadline worker (clock 12))
next_deadline-IsDeadline_example =
    next_deadline-IsDeadline worker (clock 12) (omega arith) (record {
      flushed = omega arith;
      synced = omega arith;
      snapshot = omega arith;
      unsynced = omega arith;
      unsaved = omega arith;
    })

abbrev failing : Outcome
failing = record { ok = false; at = clock 16 }

abbrev all_fail : Round
all_fail = record { flushed = failing; sync_flushed = failing; synced = failing; written = failing }

tick-idle_example :
    (work_due (tick worker (clock 15) all_fail) (clock 15) ≡ false)
    × Rests worker (tick worker (clock 15) all_fail) (clock 15) (clock 15 + 99999999)
unfolding trim_space
tick-idle_example =
    tick-idle worker (clock 15) (clock 15 + 99999999) all_fail refl (omega arith) (omega arith)
      (omega arith) (omega arith) (omega arith)
