-- ===== src/Quota/Order.antt =====
-- go/quota_cycles.go and go/quota_storage.go: the order of samples through sorting, cutting and
-- selecting.
use cpa_usage_plugin.Common.{
  ℕ, zero, suc, ◌≤◌, ◌≡◌, ◌↔◌, refl, true, List, [], ◌∷◌, ◌++◌, ltb, length, take, drop, All, arith,
  Bool-cases, inl, inr,
}
use cpa_usage_plugin.Quota.{Observation}
use cpa_usage_plugin.Quota.Sample.{insert_sample, sort_samples, samples_sorted}
use cpa_usage_plugin.Quota.Compact.{keeps, select_kept}

module _ {U : Type 0} where
  abbrev NotBefore : ℕ → List (Observation U) → Type 0
  NotBefore t = All (λ s. t ≤ s.observed_at)

  abbrev pub IsSorted : List (Observation U) → Type 0
  IsSorted [] = Unit
  IsSorted (s ∷ rest) = NotBefore s.observed_at rest × IsSorted rest

  NotBefore-trans : (t u : ℕ) (l : List (Observation U)) → t ≤ u → NotBefore u l → NotBefore t l
  NotBefore-trans t u [] h k = tt
  NotBefore-trans t u (s ∷ l) h k = (omega arith, NotBefore-trans t u l h k.1)

  -- quotaSamplesSorted decides the order.
  samples_sorted-IsSorted : (l : List (Observation U)) → samples_sorted l ≡ true → IsSorted l
  unfolding samples_sorted
  samples_sorted-IsSorted [] h = tt
  samples_sorted-IsSorted (s ∷ []) h = (tt, tt)
  samples_sorted-IsSorted (s ∷ t ∷ l) h =
      let rest = samples_sorted-IsSorted (t ∷ l) (ground arith) in
      let le : s.observed_at ≤ t.observed_at = ground arith in
      ((le, NotBefore-trans s.observed_at t.observed_at l le rest.0), rest)

  IsSorted-samples_sorted : (l : List (Observation U)) → IsSorted l → samples_sorted l ≡ true
  unfolding samples_sorted
  IsSorted-samples_sorted [] h = refl
  IsSorted-samples_sorted (s ∷ []) h = refl
  IsSorted-samples_sorted (s ∷ t ∷ l) h = ground (arith, IsSorted-samples_sorted (t ∷ l) h.1, h.0.0)

  -- quotaSamplesSorted accepts a list exactly when each sample was observed no later than every sample
  -- after it.
  pub samples_sorted_iff : (l : List (Observation U)) → (samples_sorted l ≡ true) ↔ IsSorted l
  samples_sorted_iff l = (samples_sorted-IsSorted l, IsSorted-samples_sorted l)

  module _ {κ} (P : Observation U → Type κ) where
    All-insert :
        (o : Observation U) (l : List (Observation U)) → P o → All P l → All P (insert_sample o l)
    unfolding insert_sample
    All-insert o [] p h = (p, tt)
    All-insert o (s ∷ l) p h = elim (Bool-cases (ltb s.observed_at o.observed_at)) [
      | inl e ↦ rw e (h.0, All-insert o l p h.1)
      | inr e ↦ rw e (p, h)
    ]

    pub All-sort : (l : List (Observation U)) → All P l → All P (sort_samples l)
    unfolding sort_samples
    All-sort [] h = tt
    All-sort (s ∷ l) h = All-insert s (sort_samples l) h.0 (All-sort l h.1)

    pub All-append : (xs ys : List (Observation U)) → All P xs → All P ys → All P (xs ++ ys)
    All-append [] ys h k = k
    All-append (x ∷ xs) ys h k = (h.0, All-append xs ys h.1 k)

    pub All-select :
        (keep : List ℕ) (i : ℕ) (l : List (Observation U)) → All P l → All P (select_kept keep i l)
    unfolding select_kept
    All-select keep i [] h = tt
    All-select keep i (s ∷ l) h = elim (Bool-cases (keeps keep i)) [
      | inl e ↦ rw e (h.0, All-select keep (suc i) l h.1)
      | inr e ↦ rw e (All-select keep (suc i) l h.1)
    ]

    pub All-take : (n : ℕ) (l : List (Observation U)) → All P l → All P (take n l)
    All-take zero l h = tt
    All-take (suc n) [] h = tt
    All-take (suc n) (s ∷ l) h = (h.0, All-take n l h.1)

    pub All-drop : (n : ℕ) (l : List (Observation U)) → All P l → All P (drop n l)
    All-drop zero l h = h
    All-drop (suc n) [] h = tt
    All-drop (suc n) (s ∷ l) h = All-drop n l h.1

  insert-IsSorted :
      (o : Observation U) (l : List (Observation U)) → IsSorted l → IsSorted (insert_sample o l)
  unfolding insert_sample
  insert-IsSorted o [] h = (tt, tt)
  insert-IsSorted o (s ∷ l) h = elim (Bool-cases (ltb s.observed_at o.observed_at)) [
    | inl e ↦ rw e (
      All-insert (λ t. s.observed_at ≤ t.observed_at) o l (ground (arith, e)) h.0,
      insert-IsSorted o l h.1,
    )
    | inr e ↦
        let le : o.observed_at ≤ s.observed_at = ground (arith, e) in
        rw e ((le, NotBefore-trans o.observed_at s.observed_at l le h.0), h)
  ]

  pub sort-IsSorted : (l : List (Observation U)) → IsSorted (sort_samples l)
  unfolding sort_samples
  sort-IsSorted [] = tt
  sort-IsSorted (s ∷ l) = insert-IsSorted s (sort_samples l) (sort-IsSorted l)

  pub select-IsSorted :
      (keep : List ℕ) (i : ℕ) (l : List (Observation U))
      → IsSorted l
      → IsSorted (select_kept keep i l)
  unfolding select_kept
  select-IsSorted keep i [] h = tt
  select-IsSorted keep i (s ∷ l) h = elim (Bool-cases (keeps keep i)) [
    | inl e ↦ rw e (
      All-select (λ t. s.observed_at ≤ t.observed_at) keep (suc i) l h.0,
      select-IsSorted keep (suc i) l h.1,
    )
    | inr e ↦ rw e (select-IsSorted keep (suc i) l h.1)
  ]

  pub take-IsSorted : (n : ℕ) (l : List (Observation U)) → IsSorted l → IsSorted (take n l)
  take-IsSorted zero l h = tt
  take-IsSorted (suc n) [] h = tt
  take-IsSorted (suc n) (s ∷ l) h =
      (All-take (λ t. s.observed_at ≤ t.observed_at) n l h.0, take-IsSorted n l h.1)

  pub drop-IsSorted : (n : ℕ) (l : List (Observation U)) → IsSorted l → IsSorted (drop n l)
  drop-IsSorted zero l h = h
  drop-IsSorted (suc n) [] h = tt
  drop-IsSorted (suc n) (s ∷ l) h = drop-IsSorted n l h.1

  length-insert :
      (o : Observation U) (l : List (Observation U)) → length (insert_sample o l) ≡ suc (length l)
  unfolding insert_sample
  length-insert o [] = refl
  length-insert o (s ∷ l) = ground (arith, length-insert o l)

  pub length-sort : (l : List (Observation U)) → length (sort_samples l) ≡ length l
  unfolding sort_samples
  length-sort [] = refl
  length-sort (s ∷ l) = omega (arith, length-sort l, length-insert s (sort_samples l))
