-- ===== src/Storage/Idle.antt =====
-- go/stats.go: what is due after a round of the worker's loop.
use cpa_usage_plugin.Common.{
  ap, ◌∙◌, ℕ, ◌+◌, ◌<◌, ◌≤◌, ◌≡◌, Bool, false, ◌&&◌, ◌||◌, not, ◌==◌, arith, Bool-cases, inl, inr,
}
use cpa_usage_plugin.Common.Text.{trim_space, is_empty}
use cpa_usage_plugin.Storage.{StorageWorker}
use cpa_usage_plugin.Storage.Deadline.{flush_due, sync_due, snapshot_due}
use cpa_usage_plugin.Storage.Worker.{
  Outcome, flush, finish_sync, sync, Round, tick_flush, tick_sync, tick_snapshot, tick,
}
use cpa_usage_plugin.Storage.Wake.{work_due}
use cpa_usage_plugin.Storage.Rest.{
  Rests, flush-flush_due, write_snapshot-due, write_snapshot-snapshot_due, steps-Rests,
}

tick_flush-idle :
    (w : StorageWorker) (now : ℕ) (r : Round)
    → now ≤ r.flushed.at
    → flush_due (tick_flush w now r) now ≡ false
tick_flush-idle w now r h = elim (Bool-cases (flush_due w now)) [
  | inl e ↦ rw e (flush-flush_due w now now r.flushed (omega (arith, h)))
  | inr e ↦ rw e e
]

abbrev Idle : StorageWorker → ℕ → Type 0
Idle w now = (flush_due w now ≡ false) × (sync_due w now ≡ false)

finish_sync-Idle :
    (p : StorageWorker × Bool) (now : ℕ) (s : Outcome)
    → now ≤ s.at
    → flush_due p.0 now ≡ false
    → Idle (finish_sync p now s).0 now
unfolding sync_due flush_due
finish_sync-Idle (v, b) now s h idle = elim (Bool-cases (b && s.ok)) [
  | inl e ↦ rw e (idle, ground arith)
  | inr e ↦ rw e (idle, ground (arith, h))
]

sync-Idle :
    (w : StorageWorker) (now : ℕ) (o s : Outcome)
    → now ≤ o.at
    → now ≤ s.at
    → flush_due w now ≡ false
    → Idle (sync w now o s).0 now
unfolding sync sync_due
sync-Idle w now o s ho hs idle = elim (Bool-cases (not w.file || w.unsynced_records == 0)) [
  | inl e ↦ rw e (idle, ground (arith, e))
  | inr e ↦
      rw e (
        finish_sync-Idle (flush w now o) now s hs (flush-flush_due w now now o (omega (arith, ho))))
]

tick_sync-Idle :
    (w : StorageWorker) (now : ℕ) (r : Round)
    → now ≤ r.sync_flushed.at
    → now ≤ r.synced.at
    → flush_due w now ≡ false
    → Idle (tick_sync w now r) now
tick_sync-Idle w now r ho hs idle = elim (Bool-cases (sync_due w now)) [
  | inl e ↦ rw e (sync-Idle w now r.sync_flushed r.synced ho hs idle)
  | inr e ↦ rw e (idle, e)
]

flush-cfg : (w : StorageWorker) (now : ℕ) (o : Outcome) → (flush w now o).0.cfg ≡ w.cfg
unfolding flush
flush-cfg w now o = ground arith

finish_sync-cfg :
    (p : StorageWorker × Bool) (now : ℕ) (s : Outcome) → (finish_sync p now s).0.cfg ≡ p.0.cfg
finish_sync-cfg (v, b) now s = ground arith

sync-cfg : (w : StorageWorker) (now : ℕ) (o s : Outcome) → (sync w now o s).0.cfg ≡ w.cfg
unfolding sync
sync-cfg w now o s = elim (Bool-cases (not w.file || w.unsynced_records == 0)) [
  | inl e ↦ rw e
  | inr e ↦ rw e (finish_sync-cfg (flush w now o) now s ∙ flush-cfg w now o)
]

tick_flush-cfg : (w : StorageWorker) (now : ℕ) (r : Round) → (tick_flush w now r).cfg ≡ w.cfg
tick_flush-cfg w now r = elim (Bool-cases (flush_due w now)) [
  | inl e ↦ rw e (flush-cfg w now r.flushed)
  | inr e ↦ rw e
]

tick_sync-cfg : (w : StorageWorker) (now : ℕ) (r : Round) → (tick_sync w now r).cfg ≡ w.cfg
tick_sync-cfg w now r = elim (Bool-cases (sync_due w now)) [
  | inl e ↦ rw e (sync-cfg w now r.sync_flushed r.synced)
  | inr e ↦ rw e
]

tick_snapshot-Idle :
    (w : StorageWorker) (now : ℕ) (r : Round)
    → now ≤ r.written.at
    → is_empty (trim_space w.cfg.dir) ≡ false
    → Idle w now
    → work_due (tick_snapshot w now r) now ≡ false
tick_snapshot-Idle w now r h dir idle = elim (Bool-cases (snapshot_due w now)) [
  | inl e ↦
      let due = write_snapshot-due w now now r.written in
      rw (
        e,
        due.0,
        due.1,
        idle.0,
        idle.1,
        write_snapshot-snapshot_due w now now r.written (omega (arith, h)) dir,
      )
  | inr e ↦ rw (e, idle.0, idle.1) e
]

-- For a directory that is set and a clock that reads no earlier after a call than at the start of the
-- round: whichever calls of the file system fail, a round of the loop leaves no flush, sync or snapshot
-- due at its instant. And a flush, a sync or a snapshot that was due at that instant is not due in the
-- state after the round at any instant less than 100 ms later.
pub tick-idle :
    (w : StorageWorker) (now t : ℕ) (r : Round)
    → is_empty (trim_space w.cfg.dir) ≡ false
    → now ≤ r.flushed.at
    → now ≤ r.sync_flushed.at
    → now ≤ r.synced.at
    → now ≤ r.written.at
    → t < now + 100000000
    → (work_due (tick w now r) now ≡ false) × Rests w (tick w now r) now t
unfolding tick
tick-idle w now t r dir hf hsf hs hw early =
    let same = tick_sync-cfg (tick_flush w now r) now r ∙ tick_flush-cfg w now r in
    let kept = ap (λ c. is_empty (trim_space c.dir)) same ∙ dir in
    (
      tick_snapshot-Idle (tick_sync (tick_flush w now r) now r) now r hw kept
          (tick_sync-Idle (tick_flush w now r) now r hsf hs (tick_flush-idle w now r hf)),
      steps-Rests w now t r kept hf hsf hs hw early,
    )
