-- ===== src/Storage/Rest.antt =====
-- go/stats.go: what a round of the worker's loop puts off after a call of the file system.
use cpa_usage_plugin.Common.{
  ℕ, ◌+◌, ◌≤◌, ◌<◌, ◌≡◌, refl, sym, ap, ◌∙◌, Bool, false, ◌&&◌, ◌||◌, not, ◌==◌, arith, Bool-cases,
  inl, inr,
}
use cpa_usage_plugin.Common.Text.{trim_space, is_empty}
use cpa_usage_plugin.Storage.{StorageWorker}
use cpa_usage_plugin.Storage.Deadline.{flush_due, sync_due, snapshot_due}
use cpa_usage_plugin.Storage.Worker.{
  Outcome, flush, finish_sync, sync, write_snapshot, Round, tick_flush, tick_sync, tick_snapshot,
}

-- What was due at the start of a round is not due before `now` and the retry delay of 100 ms.
abbrev pub Early : ℕ → ℕ → Type 0
Early now t = t < now + 100000000

pub flush-flush_due :
    (w : StorageWorker) (now t : ℕ) (o : Outcome)
    → Early o.at t
    → flush_due (flush w now o).0 t ≡ false
unfolding flush flush_due
flush-flush_due w now t o h = ground arith

pub Early-later : (now at t : ℕ) → now ≤ at → Early now t → Early at t
Early-later now at t h k = omega (arith, h, k)

tick_flush-rests :
    (w : StorageWorker) (now t : ℕ) (r : Round)
    → now ≤ r.flushed.at
    → Early now t
    → (flush_due w now && flush_due (tick_flush w now r) t) ≡ false
tick_flush-rests w now t r h early = elim (Bool-cases (flush_due w now)) [
  | inl e ↦
      let off = flush-flush_due w now t r.flushed (Early-later now r.flushed.at t h early) in
      rw (e, off)
  | inr e ↦ rw e
]

flush-sync_due :
    (w : StorageWorker) (now t : ℕ) (o : Outcome)
    → (sync_due (flush w now o).0 t ≡ sync_due w t)
      × (snapshot_due (flush w now o).0 t ≡ snapshot_due w t)
unfolding flush sync_due snapshot_due
flush-sync_due w now t o = ground arith

tick_flush-others :
    (w : StorageWorker) (now t : ℕ) (r : Round)
    → (sync_due (tick_flush w now r) t ≡ sync_due w t)
      × (snapshot_due (tick_flush w now r) t ≡ snapshot_due w t)
tick_flush-others w now t r = elim (Bool-cases (flush_due w now)) [
  | inl e ↦ rw e (flush-sync_due w now t r.flushed)
  | inr e ↦ rw e (refl, refl)
]

finish_sync-others :
    (p : StorageWorker × Bool) (now t : ℕ) (s : Outcome)
    → (flush_due (finish_sync p now s).0 t ≡ flush_due p.0 t)
      × (snapshot_due (finish_sync p now s).0 t ≡ snapshot_due p.0 t)
unfolding flush_due snapshot_due
finish_sync-others (v, b) now t s = elim (Bool-cases (b && s.ok)) [
  | inl e ↦ rw e (refl, refl)
  | inr e ↦ rw e (refl, refl)
]

finish_sync-sync_due :
    (p : StorageWorker × Bool) (now t : ℕ) (s : Outcome)
    → Early s.at t
    → sync_due (finish_sync p now s).0 t ≡ false
unfolding sync_due
finish_sync-sync_due (v, b) now t s h = elim (Bool-cases (b && s.ok)) [
  | inl e ↦ rw e (ground arith)
  | inr e ↦ rw e (ground (arith, h))
]

sync-sync_due :
    (w : StorageWorker) (now t : ℕ) (o s : Outcome)
    → Early s.at t
    → sync_due (sync w now o s).0 t ≡ false
unfolding sync sync_due
sync-sync_due w now t o s h = elim (Bool-cases (not w.file || w.unsynced_records == 0)) [
  | inl e ↦ rw e (ground (arith, e))
  | inr e ↦ rw e (finish_sync-sync_due (flush w now o) now t s h)
]

-- A flush that rests still rests after a sync, which flushes again or not at all.
sync-flush_due :
    (w : StorageWorker) (now t : ℕ) (o s : Outcome) (was : Bool)
    → Early o.at t
    → (was && flush_due w t) ≡ false
    → (was && flush_due (sync w now o s).0 t) ≡ false
unfolding sync
sync-flush_due w now t o s was h rests = elim (Bool-cases (not w.file || w.unsynced_records == 0)) [
  | inl e ↦ rw e rests
  | inr e ↦
      let same = (finish_sync-others (flush w now o) now t s).0 in
      let off = flush-flush_due w now t o h in
      rw (e, same, off) (elim (Bool-cases was) [ inl y ↦ rw y refl | inr n ↦ rw n refl ])
]

sync-snapshot_due :
    (w : StorageWorker) (now t : ℕ) (o s : Outcome)
    → snapshot_due (sync w now o s).0 t ≡ snapshot_due w t
unfolding sync
sync-snapshot_due w now t o s = elim (Bool-cases (not w.file || w.unsynced_records == 0)) [
  | inl e ↦ rw e refl
  | inr e ↦ rw e ((finish_sync-others (flush w now o) now t s).1 ∙ (flush-sync_due w now t o).1)
]

tick_sync-snapshot_due :
    (w : StorageWorker) (now t : ℕ) (r : Round)
    → snapshot_due (tick_sync w now r) t ≡ snapshot_due w t
tick_sync-snapshot_due w now t r = elim (Bool-cases (sync_due w now)) [
  | inl e ↦ rw e (sync-snapshot_due w now t r.sync_flushed r.synced)
  | inr e ↦ rw e refl
]

tick_sync-rests :
    (w : StorageWorker) (now t : ℕ) (r : Round) (was : Bool)
    → now ≤ r.sync_flushed.at
    → now ≤ r.synced.at
    → Early now t
    → (was && flush_due w t) ≡ false
    → ((was && flush_due (tick_sync w now r) t) ≡ false)
      × ((sync_due w now && sync_due (tick_sync w now r) t) ≡ false)
tick_sync-rests w now t r was ho hs early rests = elim (Bool-cases (sync_due w now)) [
  | inl e ↦
      let later = Early-later now r.synced.at t hs early in
      let off = sync-sync_due w now t r.sync_flushed r.synced later in
      let flushes = Early-later now r.sync_flushed.at t ho early in
      rw (e, off) (sync-flush_due w now t r.sync_flushed r.synced was flushes rests, refl)
  | inr e ↦ rw e (rests, refl)
]

-- A snapshot changes nothing of the other two.
pub write_snapshot-due :
    (w : StorageWorker) (now t : ℕ) (o : Outcome)
    → (flush_due (write_snapshot w now now o).0 t ≡ flush_due w t)
      × (sync_due (write_snapshot w now now o).0 t ≡ sync_due w t)
unfolding write_snapshot flush_due sync_due
write_snapshot-due w now t o = ground arith

pub write_snapshot-snapshot_due :
    (w : StorageWorker) (now t : ℕ) (o : Outcome)
    → Early o.at t
    → is_empty (trim_space w.cfg.dir) ≡ false
    → snapshot_due (write_snapshot w now now o).0 t ≡ false
unfolding write_snapshot snapshot_due
write_snapshot-snapshot_due w now t o h dir = ground (arith, dir)

tick_snapshot-rests :
    (w : StorageWorker) (now t : ℕ) (r : Round)
    → now ≤ r.written.at
    → Early now t
    → is_empty (trim_space w.cfg.dir) ≡ false
    → (flush_due (tick_snapshot w now r) t ≡ flush_due w t)
      × (sync_due (tick_snapshot w now r) t ≡ sync_due w t)
      × ((snapshot_due w now && snapshot_due (tick_snapshot w now r) t) ≡ false)
tick_snapshot-rests w now t r h early dir = elim (Bool-cases (snapshot_due w now)) [
  | inl e ↦
      let due = write_snapshot-due w now t r.written in
      let later = Early-later now r.written.at t h early in
      rw (e, write_snapshot-snapshot_due w now t r.written later dir) (due.0, due.1, refl)
  | inr e ↦ rw e (refl, refl, refl)
]

-- No kind of work that is due at `now` before the steps is due at `t` after them.
abbrev pub Rests : StorageWorker → StorageWorker → ℕ → ℕ → Type 0
Rests w v now t =
    ((flush_due w now && flush_due v t) ≡ false)
    × ((sync_due w now && sync_due v t) ≡ false)
    × ((snapshot_due w now && snapshot_due v t) ≡ false)

pub steps-Rests :
    (w : StorageWorker) (now t : ℕ) (r : Round)
    → is_empty (trim_space (tick_sync (tick_flush w now r) now r).cfg.dir) ≡ false
    → now ≤ r.flushed.at
    → now ≤ r.sync_flushed.at
    → now ≤ r.synced.at
    → now ≤ r.written.at
    → Early now t
    → Rests w (tick_snapshot (tick_sync (tick_flush w now r) now r) now r) now t
steps-Rests w now t r dir hf hsf hs hw early =
    let v = tick_flush w now r in
    let u = tick_sync v now r in
    let first = tick_flush-others w now now r in
    let flushed = tick_flush-rests w now t r hf early in
    let (flushes, syncs) = tick_sync-rests v now t r (flush_due w now) hsf hs early flushed in
    let snapshot_now = tick_sync-snapshot_due v now now r in
    let (f, s, written) = tick_snapshot-rests u now t r hw early dir in
    (
      ap (λ b. flush_due w now && b) f ∙ flushes,
      ap (λ b. sync_due w now && b) s ∙ ap (λ b. b && sync_due u t) (sym first.0) ∙ syncs,
      ap (λ b. b && snapshot_due (tick_snapshot u now r) t) (sym (snapshot_now ∙ first.1))
          ∙ written,
    )
