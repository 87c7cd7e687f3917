-- ===== src/Quota/Keep.antt =====
-- go/quota_cycles.go, applyQuotaObservationLocked: its steps and a window's invariant.
use cpa_usage_plugin.Common.{
  ℕ, ◌-◌, ◌/◌, ◌≡◌, refl, sym, ◌∙◌, ◌⊎◌, false, ◌&&◌, ◌||◌, not, none, some, ltb, leb, ◌==◌, length,
  arith, Bool-cases, Option-cases, inl, inr,
}
use cpa_usage_plugin.Quota.{
  Observation, Period, Window, UsageFloat, seconds, reset_drift_is_small, period_precedes,
}
use cpa_usage_plugin.Quota.Compact.{append_sample}
use cpa_usage_plugin.Quota.Archive.{or_keep}
use cpa_usage_plugin.Quota.Observe.{single}
use cpa_usage_plugin.Quota.Apply.{
  roll_over, moved_end, align_previous, align, install_current, place,
}
use cpa_usage_plugin.Quota.Invariant.{
  Appended, append-PeriodOk, or_keep-PeriodOk, single-SamplesOk, PreviousOk, CurrentOk, PeriodsOk,
}

module _ {U : Type 0} (P : Observation U → Type 0) (f : UsageFloat U) where
  pub Appended-CurrentOk :
      (n : ℕ) (c c' : Period U)
      → Appended P f c c'
      → CurrentOk P n (some c)
      → CurrentOk P n (some c')
  Appended-CurrentOk n c c' (fine, s, e, d) ok = (fine, d ∙ ok.1, rw (s, e) ok.2)

  pub Appended-PreviousOk :
      (n : ℕ) (p p' : Period U)
      → Appended P f p p'
      → PreviousOk P n (some p)
      → PreviousOk P n (some p')
  Appended-PreviousOk n p p' (fine, s, e, d) (h, (archived, whole)) =
      (fine, ((λ r. rw (s, e) (archived (sym d ∙ r))), (λ r. rw (s, e) (whole (sym d ∙ r)))))

  Current-PreviousOk : (n : ℕ) (c : Period U) → CurrentOk P n (some c) → PreviousOk P n (some c)
  Current-PreviousOk n c (fine, ended, span) = (fine, ((λ r. absurd (cc)), (λ r. span)))

  single-CurrentOk :
      (n : ℕ) (o : Observation U) (end : ℕ)
      → P o
      → CurrentOk P n (some (single o (end - seconds n) end))
  single-CurrentOk n o end h = (single-SamplesOk P o h, refl, refl)

  align_previous-cases :
      (n : ℕ) (p c : Period U)
      → (align_previous p c n ≡ some p)
        ⊎ ((p.ended_by_reset ≡ false) × (align_previous p c n ≡ some (moved_end p c.start n)))
        ⊎ (align_previous p c n ≡ none)
  unfolding align_previous
  align_previous-cases n p c = elim (Bool-cases p.ended_by_reset) [
    | inl e ↦ inl (ground (arith, e))
    | inr e ↦ elim (Bool-cases (reset_drift_is_small p.end c.start n)) [
      | inl d ↦ inr (inl (e, ground (arith, e, d)))
      | inr d ↦
          let close =
            ltb c.start p.end && (ltb p.start c.start && leb (p.end - c.start) (seconds n / 4)) in
          elim (Bool-cases close) [
            | inl m ↦ inr (inl (e, ground (arith, e, d, m)))
            | inr m ↦ elim (Bool-cases (period_precedes p.end c.start n)) [
              | inl q ↦ inl (ground (arith, e, d, m, q))
              | inr q ↦ inr (inr (ground (arith, e, d, m, q)))
            ]
          ]
    ]
  ]

  align_previous-PreviousOk :
      (n : ℕ) (p c : Period U) → PreviousOk P n (some p) → PreviousOk P n (align_previous p c n)
  align_previous-PreviousOk n p c ok = elim (align_previous-cases n p c) [
    | inl r ↦ rw r ok
    | inr (inl (e, r)) ↦ rw r (ok.0, ((λ t. absurd (cc)), (λ t. refl)))
    | inr (inr r) ↦ rw r tt
  ]

  align-cases :
      (n : ℕ) (w : Window U)
      → (align w n ≡ w)
        ⊎ ((p : Period U) × (c : Period U) × (w.previous ≡ some p)
            × (align w n ≡ record w { previous = align_previous p c n }))
  unfolding align
  align-cases n w = elim (Option-cases w.current) [
    | inl e ↦ inl (ground (arith, e))
    | inr (c, e) ↦ elim (Option-cases w.previous) [
      | inl g ↦ inl (ground (arith, e, g))
      | inr (p, g) ↦ inr (p, c, g, ground (arith, e, g))
    ]
  ]

  pub align-PeriodsOk : (n : ℕ) (w : Window U) → PeriodsOk P n w → PeriodsOk P n (align w n)
  align-PeriodsOk n w ok = elim (align-cases n w) [
    | inl r ↦ rw r ok
    | inr (p, c, g, r) ↦ rw r (ok.0, align_previous-PreviousOk n p c (rw g at ok.1))
  ]

  roll_over-cases :
      (w : Window U) (o : Observation U) (start : ℕ)
      → (roll_over w o start ≡ w)
        ⊎ ((c : Period U) × (w.current ≡ some c)
            × (roll_over w o start ≡ record w { previous = some c; current = none }))
  unfolding roll_over
  roll_over-cases w o start = elim (Option-cases w.current) [
    | inl e ↦ inl (ground (arith, e))
    | inr (c, e) ↦
        elim (Bool-cases (leb c.end start || reset_drift_is_small c.end start o.seconds)) [
          | inl g ↦ inr (c, e, ground (arith, e, g))
          | inr g ↦ inl (ground (arith, e, g))
        ]
  ]

  pub roll_over-PeriodsOk :
      (n : ℕ) (w : Window U) (o : Observation U) (start : ℕ)
      → PeriodsOk P n w
      → PeriodsOk P n (roll_over w o start)
  roll_over-PeriodsOk n w o start ok = elim (roll_over-cases w o start) [
    | inl r ↦ rw r ok
    | inr (c, e, r) ↦ rw r (tt, Current-PreviousOk n c (rw e at ok.0))
  ]

  abbrev moved : Period U → Observation U → ℕ → Period U
  moved c o start = record c { start = start; end = o.reset }

  -- What `place` can do to a window.
  pub data Placed (w : Window U) (o : Observation U) (start : ℕ) (v : Window U) : Type 0 where
    appended_current :
        (c c' : Period U)
        → w.current ≡ some c
        → append_sample f c o o.collection_started_at ≡ some c'
        → v ≡ record w { current = some c' }
        → Placed w o start v
    appended_previous :
        (p p' : Period U)
        → w.previous ≡ some p
        → append_sample f p o o.collection_started_at ≡ some p'
        → v ≡ record w { previous = some p' }
        → Placed w o start v
    moved_current :
        (c : Period U)
        → w.current ≡ some c
        → v ≡ record w {
          current = some (
              or_keep
                (append_sample f (moved c o start) o o.collection_started_at)
                (moved c o start));
        }
        → Placed w o start v
    replaced :
        (c : Period U)
        → w.current ≡ some c
        → v ≡ record w { previous = some c; current = some (single o start o.reset) }
        → Placed w o start v
    first : v ≡ record w { current = some (single o start o.reset) } → Placed w o start v

  install_current-Placed :
      (w v : Window U) (o : Observation U) (start : ℕ)
      → install_current f w o start ≡ some v
      → Placed w o start v
  unfolding install_current
  install_current-Placed w v o start h = elim (Option-cases w.current) [
    | inl e ↦ first (ground (arith, e))
    | inr (c, e) ↦
        let live =
          w.seconds == o.seconds
          && (ltb o.observed_at c.end && (ltb start c.end && not (length c.samples == 0))) in
        elim (Bool-cases live) [
          | inl g ↦ moved_current c e (ground (arith, e, g))
          | inr g ↦ elim (Bool-cases (leb c.end start)) [
            | inl k ↦ replaced c e (ground (arith, e, g, k))
            | inr k ↦ absurd (ground (arith, e, g, k))
          ]
        ]
  ]

  pub place-Placed :
      (w v : Window U) (o : Observation U) (start : ℕ)
      → place f w o start ≡ some v
      → Placed w o start v
  unfolding place
  place-Placed w v o start h = elim (Option-cases w.current) [
    | inr (c, e) ↦ elim (Bool-cases (c.end == o.reset && w.seconds == o.seconds)) [
      | inl g ↦ elim (Option-cases (append_sample f c o o.collection_started_at)) [
        | inl k ↦ absurd (ground (arith, e, g, k))
        | inr (c', k) ↦ appended_current c c' e k (ground (arith, e, g, k))
      ]
      | inr g ↦ install_current-Placed w v o start (ground (arith, e, g, h))
    ]
    | inl e ↦ elim (Option-cases w.previous) [
      | inl q ↦ install_current-Placed w v o start (ground (arith, e, q, h))
      | inr (p, q) ↦
          elim (Bool-cases
            (reset_drift_is_small p.end o.reset o.seconds && w.seconds == o.seconds)) [
              | inl g ↦ elim (Option-cases (append_sample f p o o.collection_started_at)) [
                | inl k ↦ absurd (ground (arith, e, q, g, k))
                | inr (p', k) ↦ appended_previous p p' q k (ground (arith, e, q, g, k))
              ]
              | inr g ↦ install_current-Placed w v o start (ground (arith, e, q, g, h))
            ]
    ]
  ]

  pub Placed-PeriodsOk :
      (n : ℕ) (w v : Window U) (o : Observation U)
      → P o
      → PeriodsOk P n w
      → Placed w o (o.reset - seconds n) v
      → PeriodsOk P n v
  Placed-PeriodsOk n w v o po ok (appended_current c c' e k r) =
      let was : CurrentOk P n (some c) = rw e at ok.0 in
      rw r (
        Appended-CurrentOk n c c' (append-PeriodOk P f c c' o o.collection_started_at k was.0 po)
            was,
        ok.1,
      )
  Placed-PeriodsOk n w v o po ok (appended_previous p p' e k r) =
      let was : PreviousOk P n (some p) = rw e at ok.1 in
      rw r (
        ok.0,
        Appended-PreviousOk n p p' (append-PeriodOk P f p p' o o.collection_started_at k was.0 po)
            was,
      )
  Placed-PeriodsOk n w v o po ok (moved_current c e r) =
      let was : CurrentOk P n (some c) = rw e at ok.0 in
      let m = moved c o (o.reset - seconds n) in
      rw r (
        Appended-CurrentOk n m (or_keep (append_sample f m o o.collection_started_at) m)
            (or_keep-PeriodOk P f m o o.collection_started_at was.0 po) (was.0, was.1, refl),
        ok.1,
      )
  Placed-PeriodsOk n w v o po ok (replaced c e r) =
      rw r (single-CurrentOk n o o.reset po, Current-PreviousOk n c (rw e at ok.0))
  Placed-PeriodsOk n w v o po ok (first r) = rw r (single-CurrentOk n o o.reset po, ok.1)
