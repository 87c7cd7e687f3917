-- ===== src/Quota/Effective.antt =====
-- go/quota_pricing.go, quotaLatestReset and quotaEffectivePeriod: the part of a period after its
-- latest reset.
use native.Mathlib.Nat.{zero-add, suc-add}
use cpa_usage_plugin.Common.{
  ℕ, zero, suc, ◌+◌, ◌-◌, ◌<◌, ◌≡◌, refl, ap, ◌∙◌, sym, Bool, true, false, ◌||◌, Option, none, some,
  List, [], ◌∷◌, ltb, if◌then◌else◌, length, get_elem?, take, drop, length-take, length-drop, arith,
  Bool-cases, Option-cases, inl, inr, ◌⊎◌, ◌⊎◌,
}
use cpa_usage_plugin.Quota.{Observation, Period, UsageFloat}
use cpa_usage_plugin.Quota.Reset.{
  peak_and_drop, is_reset, is_peak, latest_reset_loop, latest_reset, samples_consumed,
  pre_reset_samples, sample_before, prior_period, after_deadline, after_decrease, effective_loop,
  baseline, effective_period,
}

module _ {A : Type 0} where
  drop-nil : (n : ℕ) → drop {A = A} n [] ≡ []
  drop-nil zero = refl
  drop-nil (suc n) = refl

  drop-drop : (a b : ℕ) (l : List A) → drop a (drop b l) ≡ drop (b + a) l
  drop-drop a zero l = rw zero-add
  drop-drop zero (suc b) [] = ground (arith, drop-nil (suc b + 0))
  drop-drop (suc a) (suc b) [] = ground (arith, drop-nil (suc b + suc a))
  drop-drop a (suc b) (x ∷ l) = rw suc-add (drop-drop a b l)

  get_elem?-lt : (l : List A) (i : ℕ) {a : A} → get_elem? l i ≡ some a → i < length l
  get_elem?-lt [] i h = absurd (cc)
  get_elem?-lt (x ∷ l) zero h = omega arith
  get_elem?-lt (x ∷ l) (suc i) h = omega (arith, get_elem?-lt l i h)

sample_before-pos :
    {U : Type 0} (l : List (Observation U)) (n : ℕ) {s : Observation U}
    → sample_before l n ≡ some s
    → 0 < n
sample_before-pos l zero h = absurd (cc)
sample_before-pos l (suc n) h = omega arith

module _ {U : Type 0} (f : UsageFloat U) where
  abbrev PeakBelow : Option (ℕ × U) → ℕ → Type 0
  PeakBelow none i = Unit
  PeakBelow (some (c, u)) i = c < i

  abbrev FoundBelow : Option (ℕ × ℕ) → ℕ → Type 0
  FoundBelow none n = Unit
  FoundBelow (some (c, d)) n = (c < d) × (suc d < n)

  round :
      (end i n : ℕ) (current : Option (ℕ × U)) (found : Option (ℕ × ℕ)) (s : Observation U)
      (rest : List (Observation U))
      → n ≡ i + length (s ∷ rest)
      → PeakBelow current i
      → FoundBelow found n
      → let reset = is_reset f end current s rest in
        PeakBelow (if reset || is_peak f current s then some (i, s.used) else current) (suc i)
        × FoundBelow (if reset then peak_and_drop current i found else found) n
  round end i n none found s rest e p q = ground arith
  round end i n (some (c, u)) found s [] e p q = ground arith
  round end i n (some (c, u)) found s (t ∷ rest) e p q = ground arith

  latest_reset_loop-FoundBelow :
      (end i n : ℕ) (current : Option (ℕ × U)) (found : Option (ℕ × ℕ)) (l : List (Observation U))
      → n ≡ i + length l
      → PeakBelow current i
      → FoundBelow found n
      → FoundBelow (latest_reset_loop f end i current found l) n
  unfolding latest_reset_loop
  latest_reset_loop-FoundBelow end i n current found [] e p q = q
  latest_reset_loop-FoundBelow end i n current found (s ∷ rest) e p q =
      let (p', q') = round end i n current found s rest e p q in
      latest_reset_loop-FoundBelow end (suc i) n
        (if is_reset f end current s rest || is_peak f current s then some (i, s.used) else current)
        (if is_reset f end current s rest then peak_and_drop current i found else found) rest
        (omega arith) p' q'

  -- Where quotaLatestReset reports a peak and a drop, the peak comes before the drop, and the drop is
  -- not the last sample.
  pub latest_reset_bounds :
      (l : List (Observation U)) (end peak dropped : ℕ)
      → latest_reset f l end ≡ some (peak, dropped)
      → (peak < dropped) × (suc dropped < length l)
  unfolding latest_reset
  latest_reset_bounds l end peak dropped h =
      rw h at (latest_reset_loop-FoundBelow end 0 (length l) none none l (omega arith) tt tt)

  -- What is left after the first `n` samples, with `n` above 0 where a reset was found.
  pub record IsCut (p q : Period U) (reset : Bool) : Type 0 where
    pub count : ℕ
    pub rest : q.samples ≡ drop count p.samples
    pub deadline : q.end ≡ p.end
    pub proper : reset ≡ true → (0 < count) × (count < length p.samples)
    pub whole : reset ≡ false → q ≡ p

  whole-IsCut : (p : Period U) → IsCut p p false
  whole-IsCut p = record {
    count = 0;
    rest = refl;
    deadline = refl;
    proper = λ e. absurd (cc);
    whole = λ e. refl;
  }

  shorter-IsCut :
      (p q : Period U) (n : ℕ)
      → q.samples ≡ drop n p.samples
      → q.end ≡ p.end
      → 0 < n
      → n < length p.samples
      → IsCut p q true
  shorter-IsCut p q n e d lo hi = record {
    count = n;
    rest = e;
    deadline = d;
    proper = λ r. (lo, hi);
    whole = λ r. absurd (cc);
  }

  -- A decrease cuts what is left once more.
  after_decrease-IsCut :
      (p q : Period U) (reset : Bool)
      → IsCut p q reset
      → IsCut p (after_decrease f (q, reset)).0 (after_decrease f (q, reset)).1
  unfolding after_decrease
  after_decrease-IsCut p q reset c = elim (Option-cases (latest_reset f q.samples q.end)) [
    | inl e ↦ rw (e, after_decrease) c
    | inr ((peak, i), e) ↦ elim (Option-cases (get_elem? q.samples i)) [
      | inl g ↦ rw (e, g, after_decrease) c
      | inr (s, g) ↦
          let bounds = latest_reset_bounds q.samples q.end peak i e in
          let size = length-drop c.count p.samples in
          let left : length q.samples ≡ length p.samples - c.count = ap length c.rest ∙ size in
          rw (e, g, after_decrease)
            (shorter-IsCut p _ (c.count + i) (ap (drop i) c.rest ∙ drop-drop i c.count p.samples)
              c.deadline (omega (arith, bounds)) (omega (arith, bounds, left)))
    ]
  ]

  after_deadline-IsCut :
      (p : Period U) (last first : Observation U) (before : ℕ) (prior : Period U)
      (prior_reset : Bool)
      → 0 < before
      → before < length p.samples
      → IsCut (prior_period p last before) prior prior_reset
      → let r = after_deadline f p last first before (prior, prior_reset) in IsCut p r.0 r.1
  unfolding after_deadline
  after_deadline-IsCut p last first before prior prior_reset lo hi c =
      elim (Bool-cases (samples_consumed f prior.samples)) [
        | inl e ↦
            elim (Bool-cases (ltb p.start last.observed_at || ltb first.observed_at p.start)) [
              | inl moved ↦ rw (e, moved, after_deadline) (shorter-IsCut p _ before refl refl lo hi)
              | inr exact ↦ rw (e, exact, after_deadline) (shorter-IsCut p _ before refl refl lo hi)
            ]
        | inr e ↦ elim (Bool-cases prior_reset) [
          | inl r ↦
              let (some_cut, inside) = c.proper r in
              let left = ap length c.rest ∙ length-drop c.count (take before p.samples) in
              rw (e, r, after_deadline)
                (shorter-IsCut p _ (before - length prior.samples) refl refl
                  (omega (arith, left, length-take before p.samples, some_cut, inside))
                  (omega (arith, hi, lo, some_cut, inside, left, length-take before p.samples)))
          | inr r ↦ rw (e, r, after_deadline) (whole-IsCut p)
        ]
      ]

  effective_loop-IsCut :
      (n : ℕ) (p : Period U) → IsCut p (effective_loop f n p).0 (effective_loop f n p).1
  unfolding effective_loop
  effective_loop-IsCut zero p = whole-IsCut p
  effective_loop-IsCut (suc n) p =
      elim (Option-cases (sample_before p.samples (pre_reset_samples p))) [
        | inl e ↦ rw (e, effective_loop) (after_decrease-IsCut p p false (whole-IsCut p))
        | inr (last, e) ↦ elim (Option-cases (get_elem? p.samples (pre_reset_samples p))) [
          | inl g ↦ rw (e, g, effective_loop) (after_decrease-IsCut p p false (whole-IsCut p))
          | inr (first, g) ↦
              let prior = prior_period p last (pre_reset_samples p) in
              rw (e, g, effective_loop)
                (after_decrease-IsCut p _ _ (
                  after_deadline-IsCut p last first (pre_reset_samples p) _ _
                    (sample_before-pos p.samples (pre_reset_samples p) e)
                    (get_elem?-lt p.samples (pre_reset_samples p) g)
                    (effective_loop-IsCut n prior)))
        ]
      ]

  -- With more fuel than samples the result no longer depends on it.
  effective_loop-enough :
      (n : ℕ) (p : Period U)
      → length p.samples < n
      → effective_loop f (suc n) p ≡ effective_loop f n p
  unfolding effective_loop
  effective_loop-enough zero p h = absurd (omega arith)
  effective_loop-enough (suc n) p h =
      elim (Option-cases (sample_before p.samples (pre_reset_samples p))) [
        | inl e ↦ rw (e, effective_loop)
        | inr (last, e) ↦ elim (Option-cases (get_elem? p.samples (pre_reset_samples p))) [
          | inl g ↦ rw (e, g, effective_loop)
          | inr (first, g) ↦
              let inside = get_elem?-lt p.samples (pre_reset_samples p) g in
              let fewer = length-take (pre_reset_samples p) p.samples in
              let ih =
                effective_loop-enough n (prior_period p last (pre_reset_samples p))
                  (omega (arith, h, inside, fewer)) in
              rw (e, g, effective_loop)
                (ap (λ r. after_decrease f (after_deadline f p last first (pre_reset_samples p) r))
                  ih)
        ]
      ]

  more_fuel :
      (k n : ℕ) (p : Period U)
      → length p.samples < n
      → effective_loop f (k + n) p ≡ effective_loop f n p
  more_fuel zero n p h = rw zero-add
  more_fuel (suc k) n p h =
      rw suc-add (effective_loop-enough (k + n) p (omega (arith, h)) ∙ more_fuel k n p h)

  -- The recursion of quotaEffectivePeriod ends: every bound on its depth above the number of the
  -- period's samples gives one and the same result, and it is the one from which effective_period
  -- takes its period.
  pub effective_loop_terminates :
      (p : Period U) (n : ℕ)
      → length p.samples < n
      → (effective_loop f n p ≡ effective_loop f (suc (length p.samples)) p)
        × ((effective_period f p).0 ≡ (effective_loop f n p).0)
  unfolding effective_period
  effective_loop_terminates p n h =
      let extra : n ≡ (n - suc (length p.samples)) + suc (length p.samples) = omega (arith, h) in
      let same =
        ap (λ m. effective_loop f m p) extra
        ∙ more_fuel (n - suc (length p.samples)) (suc (length p.samples)) p (omega arith) in
      (same, ap (λ r. r.0) (sym same))

  baseline-some : (l : List (Observation U)) → 0 < length l → (u : U) × (baseline f true l ≡ some u)
  baseline-some [] h = absurd (omega arith)
  baseline-some (s ∷ l) h = (f.percent s.used, refl)

  reported :
      (p q : Period U) (reset : Bool) (c : IsCut p q reset)
      → (baseline f reset q.samples ≡ none) × (q ≡ p)
        ⊎ ((u : U) × (baseline f reset q.samples ≡ some u)
            × (0 < c.count)
            × (c.count < length p.samples))
  reported p q false c = inl (refl, c.whole refl)
  reported p q true c =
      let (some_cut, inside) = c.proper refl in
      let left = ap length c.rest ∙ length-drop c.count p.samples in
      let (u, e) = baseline-some q.samples (omega (arith, left, inside)) in
      inr (u, e, some_cut, inside)

  -- quotaEffectivePeriod keeps the period's end, and what it returns are the samples after some
  -- first part of the period's; where it reports a reset that part and what is left are both not
  -- empty, and where it reports none the period is returned as it is.
  pub effective_period-IsCut :
      (p : Period U)
      → (n : ℕ) × ((effective_period f p).0.samples ≡ drop n p.samples)
        × ((effective_period f p).0.end ≡ p.end)
        × (((effective_period f p).1 ≡ none) × ((effective_period f p).0 ≡ p)
            ⊎ ((u : U) × ((effective_period f p).1 ≡ some u) × (0 < n) × (n < length p.samples)))
  unfolding effective_period
  effective_period-IsCut p =
      let c = effective_loop-IsCut (suc (length p.samples)) p in
      (c.count, c.rest, c.deadline, reported p _ _ c)
