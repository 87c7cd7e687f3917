-- ===== src/Quota/Preserve.antt =====
-- go/quota_cycles.go: archiving, dropping and committing, and a window's invariant.
use cpa_usage_plugin.Common.{
  ℕ, ◌-◌, ◌<◌, ◌≡◌, refl, ◌∙◌, true, false, ◌&&◌, ◌||◌, some, List, [], ◌∷◌, ltb, leb,
  if◌then◌else◌, length, All, arith, Bool-cases, Option-cases, inl, inr, ◌⊎◌,
}
use cpa_usage_plugin.Quota.{Observation, Period, Window, UsageFloat, is_zero}
use cpa_usage_plugin.Quota.Reset.{
  sample_before, effective_period, empty_reset_archive, drop_empty_reset_archive,
}
use cpa_usage_plugin.Quota.Compact.{append_sample}
use cpa_usage_plugin.Quota.Archive.{
  or_keep, append_before, start_after, join_archive, same_archive, ends_later, install_archive,
  archived, archive_reset_period,
}
use cpa_usage_plugin.Quota.Apply.{commit}
use cpa_usage_plugin.Quota.Effective.{effective_period-IsCut}
use cpa_usage_plugin.Quota.Invariant.{
  PeriodOk, Appended, take-SamplesOk, drop-SamplesOk, or_keep-PeriodOk, PreviousOk, CurrentOk,
  WindowOk,
}

module _ {U : Type 0} (P : Observation U → Type 0) (f : UsageFloat U) where
  effective-PeriodOk : (p : Period U) → PeriodOk P p → PeriodOk P (effective_period f p).0
  effective-PeriodOk p ok =
      let (n, rest, deadline, reported) = effective_period-IsCut f p in
      rw rest (drop-SamplesOk P n p.samples ok)

  -- An archive: a period that a reset ended, well formed and not empty.
  abbrev ArchiveOk : Period U → Type 0
  ArchiveOk p = PeriodOk P p × (p.ended_by_reset ≡ true) × (p.start < p.end)

  Appended-ArchiveOk : (p q : Period U) → Appended P f p q → ArchiveOk p → ArchiveOk q
  Appended-ArchiveOk p q (fine, s, e, d) ok = (fine, d ∙ ok.1, omega (arith, s, e, ok.2))

  append_before-ArchiveOk :
      (p : Period U) (l : List (Observation U)) (started : ℕ)
      → ArchiveOk p
      → All P l
      → ArchiveOk (append_before f p l started)
  unfolding append_before
  append_before-ArchiveOk p [] started ok h = ok
  append_before-ArchiveOk p (s ∷ l) started ok h =
      append_before-ArchiveOk
        (if ltb s.observed_at p.end then or_keep (append_sample f p s started) p else p) l started
        (step (Bool-cases (ltb s.observed_at p.end))) h.1
    where
      step :
          (ltb s.observed_at p.end ≡ true) ⊎ (ltb s.observed_at p.end ≡ false)
          → ArchiveOk
              (if ltb s.observed_at p.end then or_keep (append_sample f p s started) p else p)
      step (inl e) = rw e (
          Appended-ArchiveOk p (or_keep (append_sample f p s started) p)
            (or_keep-PeriodOk P f p s started ok.0 h.0) ok)
      step (inr e) = rw e ok

  start_after-ArchiveOk :
      (old copy : Period U) (last : Observation U)
      → ArchiveOk copy
      → ArchiveOk (start_after f old copy last)
  unfolding start_after
  start_after-ArchiveOk old copy last ok =
      elim (Bool-cases (
        old.ended_by_reset
        && (ltb old.end copy.end && (ltb copy.start old.end && leb old.end last.observed_at)))) [
          | inl e ↦ rw e (ok.0, ok.1, ground (arith, e))
          | inr e ↦ rw e ok
        ]

  join_archive-ArchiveOk :
      (old copy : Period U) → PeriodOk P old → ArchiveOk copy → ArchiveOk (join_archive f old copy)
  unfolding join_archive
  join_archive-ArchiveOk old copy h ok =
      elim (Bool-cases (old.ended_by_reset && (ltb old.start copy.end && leb copy.end old.end))) [
        | inl e ↦
            rw (e, join_archive)
              (append_before-ArchiveOk (record copy { start = old.start }) old.samples
                old.collection_started_at (ok.0, ok.1, ground (arith, e)) h.each)
        | inr e ↦ rw (e, join_archive) ok
      ]

  -- The window differs in its previous period, which is an archive.
  abbrev Installed : Window U → Window U → Type 0
  Installed w w' = (q : Period U) × (w' ≡ record w { previous = some q }) × ArchiveOk q

  Installed-WindowOk :
      (w w' : Window U) → Installed w w' → WindowOk P w → WindowOk P w' × (w'.seconds ≡ w.seconds)
  Installed-WindowOk w w' (q, e, (fine, ended, span)) ok =
      rw e ((ok.0, (fine, ((λ r. span), (λ r. absurd (cc))))), refl)

  PreviousOk-PeriodOk :
      (n : ℕ) (w : Window U) (old : Period U)
      → w.previous ≡ some old
      → PreviousOk P n w.previous
      → PeriodOk P old
  PreviousOk-PeriodOk n w old e ok = (rw e at ok).0

  install_archive-Installed :
      (w w' : Window U) (copy : Period U) (last : Observation U)
      → install_archive f w copy last ≡ some w'
      → WindowOk P w
      → PeriodOk P copy
      → copy.ended_by_reset ≡ true
      → Installed w w'
  unfolding install_archive
  install_archive-Installed w w' copy last h ok fine ended =
      elim (Bool-cases (leb copy.end copy.start || ends_later f w.previous copy)) [
        | inl e ↦ absurd (ground (arith, e))
        | inr e ↦
            let span : copy.start < copy.end = ground (arith, e) in
            elim (Option-cases w.previous) [
              | inl g ↦ (copy, ground (arith, e, g), (fine, ended, span))
              | inr (old, g) ↦
                  let joined = join_archive f old (start_after f old copy last) in
                  elim (Bool-cases (same_archive f old joined)) [
                    | inl same ↦ absurd (ground (arith, e, g, same))
                    | inr other ↦ (
                      joined,
                      ground (arith, e, g, other),
                      join_archive-ArchiveOk old (start_after f old copy last)
                          (PreviousOk-PeriodOk w.seconds w old g ok.1)
                          (start_after-ArchiveOk old copy last (fine, ended, span)),
                    )
                  ]
            ]
      ]

  CurrentOk-PeriodOk :
      (n : ℕ) (w : Window U) (c : Period U)
      → w.current ≡ some c
      → CurrentOk P n w.current
      → PeriodOk P c
  CurrentOk-PeriodOk n w c e ok = (rw e at ok).0

  archived-PeriodOk :
      (w : Window U) (p effective : Period U) (last : Observation U) (before : ℕ)
      → PeriodOk P p
      → PeriodOk P (archived f w p effective last before)
        × ((archived f w p effective last before).ended_by_reset ≡ true)
  unfolding archived
  archived-PeriodOk w p effective last before ok =
      (effective-PeriodOk _ (take-SamplesOk P before p.samples ok), refl)

  archive_reset_period-Installed :
      (w w' : Window U) → archive_reset_period f w ≡ some w' → WindowOk P w → Installed w w'
  unfolding archive_reset_period
  archive_reset_period-Installed w w' h ok = elim (Option-cases w.current) [
    | inl e ↦ absurd (ground (arith, e))
    | inr (p, e) ↦
        let before = length p.samples - length (effective_period f p).0.samples in
        elim (Option-cases (effective_period f p).1) [
          | inl g ↦ absurd (ground (arith, e, g))
          | inr (used, g) ↦ elim (Option-cases (sample_before p.samples before)) [
            | inl k ↦ absurd (ground (arith, e, g, k))
            | inr (last, k) ↦
                let (fine, ended) =
                  archived-PeriodOk w p (effective_period f p).0 last before
                    (CurrentOk-PeriodOk w.seconds w p e ok.0) in
                install_archive-Installed w w' (archived f w p (effective_period f p).0 last before)
                  last (ground (arith, h, e, g, k)) ok fine ended
          ]
        ]
  ]

  drop_empty-WindowOk :
      (w : Window U)
      → WindowOk P w
      → WindowOk P (drop_empty_reset_archive f w)
        × ((drop_empty_reset_archive f w).seconds ≡ w.seconds)
  unfolding drop_empty_reset_archive
  drop_empty-WindowOk w ok = elim (Bool-cases (empty_reset_archive f w.previous)) [
    | inl e ↦ rw e ((ok.0, tt), refl)
    | inr e ↦ rw e (ok, refl)
  ]

  or_keep-WindowOk :
      (w : Window U)
      → WindowOk P w
      → WindowOk P (or_keep (archive_reset_period f w) w)
        × ((or_keep (archive_reset_period f w) w).seconds ≡ w.seconds)
  or_keep-WindowOk w ok = elim (Option-cases (archive_reset_period f w)) [
    | inl e ↦ rw e (ok, refl)
    | inr (w', e) ↦ rw e (Installed-WindowOk w w' (archive_reset_period-Installed w w' e ok) ok)
  ]

  -- The commit of an update keeps the invariant of a window that has it, whether or not a revocation is
  -- restored: at most 64 ordered samples in each period, each with the property `P`, spans of the
  -- window's length save for an archive, which is not empty, and no current period that is an archive.
  pub commit-WindowOk :
      (w : Window U) (revoked_at : ℕ) → WindowOk P w → WindowOk P (commit f w revoked_at)
  unfolding commit
  commit-WindowOk w revoked_at ok =
      let fine =
        (drop_empty-WindowOk (or_keep (archive_reset_period f w) w) (or_keep-WindowOk w ok).0).0 in
      elim (Bool-cases (is_zero revoked_at)) [ inl e ↦ rw e fine | inr e ↦ rw e fine ]
