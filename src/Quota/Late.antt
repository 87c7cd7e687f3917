-- ===== src/Quota/Late.antt =====
-- go/quota_cycles.go, applyQuotaObservationLocked: a late observation and a window's invariant.
use cpa_usage_plugin.Common.{
  ℕ, ◌-◌, ◌≡◌, refl, ◌&&◌, Option, some, none, leb, ◌==◌, arith, Bool-cases, Option-cases, inl, inr,
  if◌then◌else◌,
}
use cpa_usage_plugin.Quota.{
  Observation, Period, Window, UsageFloat, seconds, reset_drift_is_small, period_precedes,
}
use cpa_usage_plugin.Quota.Compact.{append_sample}
use cpa_usage_plugin.Quota.Archive.{or_keep}
use cpa_usage_plugin.Quota.Observe.{
  single, is_in_archive, append_current, late_archive, late_into, ends_before, late_previous,
  late_periods, apply_late,
}
use cpa_usage_plugin.Quota.Invariant.{
  append-PeriodOk, or_keep-PeriodOk, single-SamplesOk, PreviousOk, CurrentOk, WindowOk,
}
use cpa_usage_plugin.Quota.Keep.{Appended-CurrentOk, Appended-PreviousOk}

module _ {U : Type 0} (P : Observation U → Type 0) (f : UsageFloat U) where
  append_current-CurrentOk :
      (n : ℕ) (c : Option (Period U)) (p : Period U) (o : Observation U)
      → P o
      → CurrentOk P n c
      → CurrentOk P n (append_current f c p o)
  append_current-CurrentOk n none p o po ok = tt
  append_current-CurrentOk n (some c) p o po ok = elim (Bool-cases (leb c.start p.end)) [
    | inl e ↦ rw e (
        Appended-CurrentOk P f n c (or_keep (append_sample f c o o.collection_started_at) c)
          (or_keep-PeriodOk P f c o o.collection_started_at ok.0 po) ok)
    | inr e ↦ rw e ok
  ]

  late_archive-WindowOk :
      (w v : Window U) (o : Observation U) (p : Period U)
      → late_archive f w o p ≡ some v
      → w.previous ≡ some p
      → P o
      → WindowOk P w
      → WindowOk P v
  unfolding late_archive
  late_archive-WindowOk w v o p h g po ok =
      elim (Option-cases (append_sample f p o o.collection_started_at)) [
        | inl e ↦ absurd (ground (arith, e))
        | inr (p', e) ↦
            let same : v
                ≡ record w { previous = some p'; current = append_current f w.current p o } =
              ground (arith, h, e) in
            let was : PreviousOk P w.seconds (some p) = rw g at ok.1 in
            rw same (
              append_current-CurrentOk w.seconds w.current p o po ok.0,
              Appended-PreviousOk P f w.seconds p p'
                  (append-PeriodOk P f p p' o o.collection_started_at e was.0 po) was,
            )
      ]

  late_into-appended :
      (w : Window U) (o : Observation U) (p : Option (Period U)) (q : Period U)
      → late_into f w o p ≡ some q
      → (r : Period U) × (p ≡ some r) × (append_sample f r o o.collection_started_at ≡ some q)
  late_into-appended w o none q h = absurd (cc)
  late_into-appended w o (some p) q h =
      elim (Bool-cases (w.seconds == o.seconds && reset_drift_is_small p.end o.reset o.seconds)) [
        | inl e ↦ (p, refl, rw e at h)
        | inr e ↦ absurd (ground (arith, e, h))
      ]

  late_previous-WindowOk :
      (w v : Window U) (o : Observation U)
      → late_previous f w o ≡ some v
      → P o
      → WindowOk P w
      → WindowOk P v
  unfolding late_previous
  late_previous-WindowOk w v o h po ok = elim (Option-cases w.current) [
    | inl e ↦ absurd (ground (arith, e, h))
    | inr (c, e) ↦
        let end = if reset_drift_is_small o.reset c.start o.seconds then c.start else o.reset in
        elim (Bool-cases (
          w.seconds == o.seconds
          && (ends_before f w.previous o.reset && period_precedes o.reset c.start o.seconds))) [
            | inr k ↦ absurd (ground (arith, e, h, k))
            | inl k ↦
                let length : w.seconds ≡ o.seconds = ground (arith, k) in
                let same : record w { previous = some (single o (end - seconds o.seconds) end) }
                    ≡ v =
                  ground (arith, h, e, k) in
                rw (← same)
                  (ok.0, (single-SamplesOk P o po, ((λ r. absurd (cc)), (λ r. rw length refl))))
          ]
  ]

  late_periods-WindowOk :
      (w v : Window U) (o : Observation U)
      → late_periods f w o ≡ some v
      → P o
      → WindowOk P w
      → WindowOk P v
  unfolding late_periods
  late_periods-WindowOk w v o h po ok = elim (Option-cases (late_into f w o w.current)) [
    | inr (c', e) ↦
        let (c, g, k) = late_into-appended w o w.current c' e in
        let same : record w { current = some c' } ≡ v = ground (arith, h, e) in
        let was : CurrentOk P w.seconds (some c) = rw g at ok.0 in
        rw (← same) (
          Appended-CurrentOk P f w.seconds c c'
              (append-PeriodOk P f c c' o o.collection_started_at k was.0 po) was,
          ok.1,
        )
    | inl e ↦ elim (Option-cases (late_into f w o w.previous)) [
      | inr (p', e') ↦
          let (p, g, k) = late_into-appended w o w.previous p' e' in
          let same : record w { previous = some p' } ≡ v = ground (arith, h, e, e') in
          let was : PreviousOk P w.seconds (some p) = rw g at ok.1 in
          rw (← same) (
            ok.0,
            Appended-PreviousOk P f w.seconds p p'
                (append-PeriodOk P f p p' o o.collection_started_at k was.0 po) was,
          )
      | inl e' ↦ late_previous-WindowOk w v o (ground (arith, h, e, e')) po ok
    ]
  ]

  pub apply_late-WindowOk :
      (w v : Window U) (o : Observation U)
      → apply_late f w o ≡ some v
      → P o
      → WindowOk P w
      → WindowOk P v
  unfolding apply_late
  apply_late-WindowOk w v o h po ok = elim (Option-cases w.previous) [
    | inl e ↦ late_periods-WindowOk w v o (ground (arith, h, e)) po ok
    | inr (p, e) ↦ elim (Bool-cases (is_in_archive f w o p)) [
      | inl k ↦ late_archive-WindowOk w v o p (ground (arith, h, e, k)) e po ok
      | inr k ↦ late_periods-WindowOk w v o (ground (arith, h, e, k)) po ok
    ]
  ]
