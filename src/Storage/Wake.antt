-- ===== src/Storage/Wake.antt =====
-- nextDeadline against the tests that the worker's loop makes when the timer fires.
use cpa_usage_plugin.Common.{
  refl, max, ℕ, ◌+◌, ◌≤◌, ◌<◌, ◌≡◌, ◌⊎◌, inl, inr, Bool, true, false, ◌&&◌, ◌||◌, not, ltb, leb,
  arith, Bool-cases, if◌then◌else◌,
}
use cpa_usage_plugin.Common.Instant.{zero_time, is_zero}
use cpa_usage_plugin.Storage.{StorageWorker}
use cpa_usage_plugin.Storage.Deadline.{
  base_of, flush_due, records_due, sync_due, snapshot_due, add_deadline, flush_deadline,
  records_deadline, sync_deadline, snapshot_deadline, next_deadline,
}

-- From `now` on the test never holds.
abbrev pub Never : ℕ → (ℕ → Bool) → Type 0
Never now due = (t : ℕ) → now ≤ t → due t ≡ false

-- `next` is the first instant from `now` on at which the test holds.
abbrev pub FirstAt : ℕ → (ℕ → Bool) → ℕ → Type 0
FirstAt now due next =
    (zero_time < next)
    × (now ≤ next)
    × (due next ≡ true)
    × ((t : ℕ) → now ≤ t → t < next → due t ≡ false)

-- The deadline of a test: the zero time where it never holds again.
abbrev pub IsDeadline : ℕ → (ℕ → Bool) → ℕ → Type 0
IsDeadline now due next = (next ≡ zero_time) × Never now due ⊎ FirstAt now due next

-- The instant that `add` gives a deadline.
allowed_at : ℕ → ℕ → ℕ → ℕ
allowed_at now due retry = max now (max due retry)

add_deadline-allowed :
    (now due retry next : ℕ)
    → zero_time < due
    → add_deadline now due retry next ≡ (
        if is_zero next || ltb (allowed_at now due retry) next
        then allowed_at now due retry
        else next)
unfolding add_deadline allowed_at
add_deadline-allowed now due retry next h = ground arith

allowed_at-FirstAt :
    (now due retry : ℕ) (q : ℕ → Bool)
    → zero_time < now
    → ((t : ℕ) → now ≤ t → q t ≡ (leb due t && leb retry t))
    → FirstAt now q (allowed_at now due retry)
unfolding allowed_at
allowed_at-FirstAt now due retry q h same = (
  omega arith,
  omega arith,
  ground (arith, same (max now (max due retry)) (omega arith)),
  λ t a b. ground (arith, same t a),
)

-- The first of two deadlines is one of the two tests together.
earlier-IsDeadline :
    (now c next : ℕ) (p q : ℕ → Bool)
    → FirstAt now q c
    → IsDeadline now p next
    → IsDeadline now (λ t. p t || q t) (if is_zero next || ltb c next then c else next)
earlier-IsDeadline now c next p q (zc, nc, at, before) (inl (e, never)) =
    let first : (if is_zero next || ltb c next then c else next) ≡ c = ground arith in
    rw first (inr (zc, nc, ground (arith, at), λ t a b. ground (arith, never t a, before t a b)))
earlier-IsDeadline now c next p q (zc, nc, at, before) (inr (zn, nn, at', before')) =
    elim (Bool-cases (ltb c next)) [
      | inl lt ↦
          let first : (if is_zero next || ltb c next then c else next) ≡ c = ground (arith, lt) in
          let inside : c < next = ground (arith, lt) in
          rw first (
            inr (
              zc,
              nc,
              ground (arith, at),
              λ t a b. ground (arith, before' t a (omega (arith, b, inside)), before t a b),
            ))
      | inr ge ↦
          let last : (if is_zero next || ltb c next then c else next) ≡ next =
            ground (arith, ge, zn) in
          let inside : next ≤ c = ground (arith, ge) in
          rw last (
            inr (
              zn,
              nn,
              ground (arith, at'),
              λ t a b. ground (arith, before' t a b, before t a (omega (arith, b, inside))),
            ))
    ]

-- A test that never holds again leaves the deadline.
skip-IsDeadline :
    (now next : ℕ) (p q : ℕ → Bool)
    → Never now q
    → IsDeadline now p next
    → IsDeadline now (λ t. p t || q t) next
skip-IsDeadline now next p q none_due (inl (e, never)) =
    inl (e, λ t a. ground (arith, never t a, none_due t a))
skip-IsDeadline now next p q none_due (inr (z, n, at, before)) =
    inr (z, n, ground (arith, at), λ t a b. ground (arith, before t a b, none_due t a))

add_deadline-IsDeadline :
    (now due retry next : ℕ) (p q : ℕ → Bool)
    → zero_time < now
    → zero_time < due
    → ((t : ℕ) → now ≤ t → q t ≡ (leb due t && leb retry t))
    → IsDeadline now p next
    → IsDeadline now (λ t. p t || q t) (add_deadline now due retry next)
add_deadline-IsDeadline now due retry next p q hn hd same d =
    rw (add_deadline-allowed now due retry next hd) (
      earlier-IsDeadline now (allowed_at now due retry) next p q
        (allowed_at-FirstAt now due retry q hn same) d)

-- Either the records are too few for ever, or they are due from an instant on.
records_deadline-IsDeadline :
    (records limit interval base retry now next : ℕ) (p q : ℕ → Bool)
    → zero_time < now
    → zero_time ≤ base
    → ((t : ℕ) → q t ≡ (if ltb t retry then false else records_due records limit interval base t))
    → IsDeadline now p next
    → IsDeadline now (λ t. p t || q t) (records_deadline records limit interval base retry now next)
unfolding records_deadline records_due
records_deadline-IsDeadline records limit interval base retry now next p q hn hb same d =
    elim (Bool-cases (ltb 0 limit && leb limit records)) [
      | inl enough ↦ rw enough (
          add_deadline-IsDeadline now now retry next p q hn hn
            (λ t a. ground (arith, same t, enough)) d)
      | inr few ↦ elim (Bool-cases (ltb 0 interval && not (is_zero base))) [
        | inl timed ↦
            rw (few, timed)
              (add_deadline-IsDeadline now (base + interval) retry next p q hn
                (ground (arith, timed)) (λ t a. ground (arith, same t, few, timed)) d)
        | inr untimed ↦
            rw (few, untimed)
              (skip-IsDeadline now next p q (λ t a. ground (arith, same t, few, untimed)) d)
      ]
    ]

-- The instants that the worker has stored are not before the zero time.
pub record Stamped (w : StorageWorker) : Type 0 where
  pub flushed : zero_time ≤ w.last_flush
  pub synced : zero_time ≤ w.last_sync
  pub snapshot : zero_time ≤ w.last_snapshot
  pub unsynced : zero_time ≤ w.first_unsynced_record
  pub unsaved : zero_time ≤ w.first_snapshot_record

base_of-le :
    (last first : ℕ) → zero_time ≤ last → zero_time ≤ first → zero_time ≤ base_of last first
base_of-le last first h k = ground (arith)

flush_deadline-IsDeadline :
    (w : StorageWorker) (now next : ℕ) (p : ℕ → Bool)
    → zero_time < now
    → zero_time ≤ w.last_flush
    → IsDeadline now p next
    → IsDeadline now (λ t. p t || flush_due w t) (flush_deadline w now next)
unfolding flush_deadline flush_due
flush_deadline-IsDeadline w now next p hn hf d = elim (Bool-cases (w.writer && ltb 0 w.buffered)) [
  | inr no_work ↦
      rw no_work (skip-IsDeadline now next p (flush_due w) (λ t a. ground (arith, no_work)) d)
  | inl some_work ↦ elim (Bool-cases (ltb 0 w.cfg.flush_interval && not (is_zero w.last_flush))) [
    | inl timed ↦
        rw (some_work, timed)
          (add_deadline-IsDeadline now (w.last_flush + w.cfg.flush_interval) w.flush_retry_at next p
            (flush_due w) hn (ground (arith, timed)) (λ t a. ground (arith, some_work, timed)) d)
    | inr at_once ↦
        rw (some_work, at_once)
          (add_deadline-IsDeadline now now w.flush_retry_at next p (flush_due w) hn hn
            (λ t a. ground (arith, some_work, at_once)) d)
  ]
]

sync_deadline-IsDeadline :
    (w : StorageWorker) (now next : ℕ) (p : ℕ → Bool)
    → zero_time < now
    → Stamped w
    → IsDeadline now p next
    → IsDeadline now (λ t. p t || sync_due w t) (sync_deadline w now next)
unfolding sync_deadline sync_due
sync_deadline-IsDeadline w now next p hn ok d =
    elim (Bool-cases (w.file && ltb 0 w.unsynced_records)) [
      | inl some_work ↦ rw some_work (
          records_deadline-IsDeadline w.unsynced_records w.cfg.sync_record_interval
            w.cfg.sync_interval (base_of w.last_sync w.first_unsynced_record) w.sync_retry_at now
            next p (sync_due w) hn
            (base_of-le w.last_sync w.first_unsynced_record ok.synced ok.unsynced)
            (λ t. ground (arith, some_work)) d)
      | inr no_work ↦
          rw no_work (skip-IsDeadline now next p (sync_due w) (λ t a. ground (arith, no_work)) d)
    ]

snapshot_deadline-IsDeadline :
    (w : StorageWorker) (now next : ℕ) (p : ℕ → Bool)
    → zero_time < now
    → Stamped w
    → IsDeadline now p next
    → IsDeadline now (λ t. p t || snapshot_due w t) (snapshot_deadline w now next)
unfolding snapshot_deadline snapshot_due
snapshot_deadline-IsDeadline w now next p hn ok d = elim (Bool-cases (ltb 0 w.snapshot_records)) [
  | inl some_work ↦ rw some_work (
      records_deadline-IsDeadline w.snapshot_records w.cfg.snapshot_record_interval
        w.cfg.snapshot_interval (base_of w.last_snapshot w.first_snapshot_record)
        w.snapshot_retry_at now next p (snapshot_due w) hn
        (base_of-le w.last_snapshot w.first_snapshot_record ok.snapshot ok.unsaved)
        (λ t. ground (arith, some_work)) d)
  | inr no_work ↦
      rw no_work (skip-IsDeadline now next p (snapshot_due w) (λ t a. ground (arith, no_work)) d)
]

-- What the loop does when the timer fires: it tests the flush, the sync and the snapshot.
abbrev pub work_due : StorageWorker → ℕ → Bool
work_due w t = (flush_due w t || sync_due w t) || snapshot_due w t

-- For a clock after the zero time and stored instants not before it: nextDeadline returns the first
-- instant, from now on, at which a flush, a sync or a snapshot is due, and the zero time exactly
-- when none of them ever will be. So a worker that sleeps until its deadline neither misses work nor
-- wakes with nothing to do.
pub next_deadline-IsDeadline :
    (w : StorageWorker) (now : ℕ)
    → zero_time < now
    → Stamped w
    → IsDeadline now (work_due w) (next_deadline w now)
unfolding next_deadline
next_deadline-IsDeadline w now hn ok =
    snapshot_deadline-IsDeadline w now _ (λ t. flush_due w t || sync_due w t) hn ok
      (sync_deadline-IsDeadline w now _ (flush_due w) hn ok (
        flush_deadline-IsDeadline w now zero_time (λ t. false) hn ok.flushed
          (inl (refl, λ t a. refl))))
