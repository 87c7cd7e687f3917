-- ===== src/Accounting/Sound.antt =====
-- The invariant of the accounting blocks and of the snapshots that share their arrays, and how the
-- writes to memory keep it.
use cpa_usage_plugin.Common.{
  ℕ, suc, ◌+◌, ◌*◌, ◌≤◌, ◌<◌, ◌≡◌, ◌∙◌, ap, Bool, true, false, ◌==◌, some, List, [], ◌∷◌, ◌++◌,
  length, get_elem?, take, set, arith, get_elem?-set, Bool-cases, inl, inr,
}
use cpa_usage_plugin.Accounting.{Slice, AccountingBlocks}
use cpa_usage_plugin.Accounting.Blocks.{array_at, view, is_set}
use cpa_usage_plugin.Accounting.Memory.{array_at-old, array_at-set, array_at-set_other, take-set}

-- `frozen` are the slices of the snapshots taken so far. Every block but the last is full, no two
-- blocks have one array, and a block whose array a snapshot reads is marked as shared and at least
-- as long as the snapshot's slice.
pub record Sound {ℓ} {R : Type ℓ} (l : AccountingBlocks R) (frozen : List Slice) : Type ℓ where
  pub fits :
      (k : ℕ) (s : Slice)
      → get_elem? l.blocks k ≡ some s
      → (s.array < length l.arrays) × (s.len ≤ length (array_at l.arrays s.array)) × (s.len ≤ 256)
  pub apart :
      (k j : ℕ) (s t : Slice)
      → get_elem? l.blocks k ≡ some s
      → get_elem? l.blocks j ≡ some t
      → s.array ≡ t.array
      → k ≡ j
  pub full :
      (k : ℕ) (s : Slice) → get_elem? l.blocks k ≡ some s → suc k < length l.blocks → s.len ≡ 256
  pub counted :
      (k : ℕ) (s : Slice)
      → get_elem? l.blocks k ≡ some s
      → suc k ≡ length l.blocks
      → l.count ≡ k * 256 + s.len
  pub none_counted : length l.blocks ≡ 0 → l.count ≡ 0
  pub marks : length l.shared ≤ length l.blocks
  pub there : (i : ℕ) (f : Slice) → get_elem? frozen i ≡ some f → f.array < length l.arrays
  pub kept :
      (i : ℕ) (f : Slice) (k : ℕ) (s : Slice)
      → get_elem? frozen i ≡ some f
      → get_elem? l.blocks k ≡ some s
      → s.array ≡ f.array
      → (is_set l.shared k ≡ true) × (f.len ≤ s.len)

pub is_set-clear_other :
    (bits : List Bool) (k i : ℕ) → (i == k) ≡ false → is_set (set bits k false) i ≡ is_set bits i
is_set-clear_other bits k i ne = rw (is_set, get_elem?-set bits k false i) (ground (arith, ne))

module _ {ℓ} {R : Type ℓ} where
  -- Every snapshot reads what it read.
  abbrev pub Keeps : List Slice → List (List R) → List (List R) → Type ℓ
  Keeps frozen arrays arrays' =
      (i : ℕ) (f : Slice) → get_elem? frozen i ≡ some f → view arrays' f ≡ view arrays f

  view-old :
      (arrays : List (List R)) (x : List R) (f : Slice)
      → f.array < length arrays
      → view (arrays ++ (x ∷ [])) f ≡ view arrays f
  unfolding view
  view-old arrays x f h = ap (take f.len) (array_at-old arrays x f.array h)

  module _ (l : AccountingBlocks R) (frozen : List Slice) (ok : Sound l frozen) where
    -- A new array in memory.
    pub new-Keeps : (x : List R) → Keeps frozen l.arrays (l.arrays ++ (x ∷ []))
    new-Keeps x i f at = view-old l.arrays x f (ok.there i f at)

    -- A write where no snapshot reads.
    pub write-Keeps :
        (k : ℕ) (s : Slice) (j : ℕ) (r : R)
        → get_elem? l.blocks k ≡ some s
        → ((i : ℕ) (f : Slice) → get_elem? frozen i ≡ some f → s.array ≡ f.array → f.len ≤ j)
        → Keeps frozen l.arrays (set l.arrays s.array (set (array_at l.arrays s.array) j r))
    unfolding view
    write-Keeps k s j r at clear i f fat = elim (Bool-cases (f.array == s.array)) [
      | inl e ↦
          let same : s.array ≡ f.array = ground (arith, e) in
          rw (← same) (
            ap (take f.len) (array_at-set l.arrays s.array _ (ok.fits k s at).0)
            ∙ take-set f.len (array_at l.arrays s.array) j r (clear i f fat same))
      | inr ne ↦ ap (take f.len) (array_at-set_other l.arrays s.array f.array _ ne)
    ]
