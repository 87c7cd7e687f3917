-- ===== src/Accounting/Memory.antt =====
-- The arrays of the accounting blocks after a new array or a write to one: what the slices read.
use cpa_usage_plugin.Common.{
  ℕ, ◌≤◌, ◌<◌, ◌≡◌, refl, false, ltb, ◌==◌, List, [], ◌∷◌, ◌++◌, length, take, set, arith,
  get_elem?-append, get_elem?-past, get_elem?-take, get_elem?-set, list_ext, Bool-cases, inl, inr,
}
use cpa_usage_plugin.Accounting.Blocks.{array_at}

module _ {ℓ} {R : Type ℓ} where
  pub array_at-new :
      (arrays : List (List R)) (x : List R) → array_at (arrays ++ (x ∷ [])) (length arrays) ≡ x
  array_at-new arrays x =
      rw (array_at, get_elem?-append arrays (x ∷ []) (length arrays)) (ground arith)

  pub array_at-old :
      (arrays : List (List R)) (x : List R) (a : ℕ)
      → a < length arrays
      → array_at (arrays ++ (x ∷ [])) a ≡ array_at arrays a
  array_at-old arrays x a h = rw (array_at, get_elem?-append arrays (x ∷ []) a) (ground (arith, h))

  pub array_at-set :
      (arrays : List (List R)) (a : ℕ) (x : List R)
      → a < length arrays
      → array_at (set arrays a x) a ≡ x
  array_at-set arrays a x h = rw (array_at, get_elem?-set arrays a x a) (ground (arith, h))

  pub array_at-set_other :
      (arrays : List (List R)) (a b : ℕ) (x : List R)
      → (b == a) ≡ false
      → array_at (set arrays a x) b ≡ array_at arrays b
  array_at-set_other arrays a b x h = rw (array_at, get_elem?-set arrays a x b) (ground (arith, h))

  -- A write at or after the length of a slice changes nothing that it reads.
  pub take-set : (n : ℕ) (a : List R) (j : ℕ) (r : R) → n ≤ j → take n (set a j r) ≡ take n a
  take-set n a j r h = list_ext _ _ (λ i.
      rw (get_elem?-take n (set a j r) i, get_elem?-take n a i, get_elem?-set a j r i)
        (ground (arith, h)))

  pub take-append : (n : ℕ) (xs ys : List R) → n ≤ length xs → take n (xs ++ ys) ≡ take n xs
  take-append n xs ys h = list_ext _ _ (λ i.
      rw (get_elem?-take n (xs ++ ys) i, get_elem?-take n xs i, get_elem?-append xs ys i)
        (ground (arith, h)))

  pub take_all : (n : ℕ) (xs : List R) → length xs ≤ n → take n xs ≡ xs
  take_all n xs h = list_ext _ _ (λ i. rw (get_elem?-take n xs i) (elim (Bool-cases (ltb i n)) [
    | inl lt ↦ rw lt refl
    | inr ge ↦ rw (ge, get_elem?-past xs i (ground (arith, ge, h))) refl
  ]))
