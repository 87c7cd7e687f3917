-- ===== src/Accounting/Prepare.antt =====
-- go/accounting_blocks.go, the steps before a write: the range block made invalid, the copy of a
-- shared block, and the room for a record.
use cpa_usage_plugin.Common.{
  ◌≢◌, ℕ, zero, suc, ◌-◌, ◌/◌, ◌≡◌, refl, ◌∙◌, some, List, length, get_elem?, arith, get_elem?-lt,
  get_elem?-set, Bool-cases, Option-cases, inl, inr,
}
use cpa_usage_plugin.Accounting.{Slice, AccountingBlocks}
use cpa_usage_plugin.Accounting.Blocks.{
  array_at, is_set, copied, at, invalidate_group, invalidate_groups, invalidate_from,
  writable_block, range_block_records,
}
use cpa_usage_plugin.Accounting.Sound.{Sound, Keeps, new-Keeps}
use cpa_usage_plugin.Accounting.Preserve.{move-Sound}
use cpa_usage_plugin.Accounting.Reads.{at-move}

module _ {R : Type 0} where
  -- The blocks hold the same records, and so do the snapshots.
  pub record Same (frozen : List Slice) (l l' : AccountingBlocks R) : Type 0 where
    pub sound : Sound l' frozen
    pub keeps : Keeps frozen l.arrays l'.arrays
    pub reads : (i : ℕ) → at l' i ≡ at l i
    pub size : l'.count ≡ l.count

  pub Same-refl : (frozen : List Slice) (l : AccountingBlocks R) → Sound l frozen → Same frozen l l
  Same-refl frozen l ok = record {
    sound = ok;
    keeps = λ i f h. refl;
    reads = λ i. refl;
    size = refl;
  }

  pub Same-trans :
      (frozen : List Slice) (l m n : AccountingBlocks R)
      → Same frozen l m
      → Same frozen m n
      → Same frozen l n
  Same-trans frozen l m n a b = record {
    sound = b.sound;
    keeps = λ i f h. b.keeps i f h ∙ a.keeps i f h;
    reads = λ i. b.reads i ∙ a.reads i;
    size = b.size ∙ a.size;
  }

  module _ (frozen : List Slice) where
    pub invalidate_group-Same :
        (l : AccountingBlocks R) (group : ℕ)
        → Sound l frozen
        → Same frozen l (invalidate_group l group)
    unfolding invalidate_group at
    invalidate_group-Same l group ok = elim (Option-cases (get_elem? l.range_blocks group)) [
      | inl gone ↦ rw (invalidate_group, gone) (Same-refl frozen l ok)
      | inr (b, here) ↦
          rw (invalidate_group, here)
            (record {
              sound = record {
                fits = ok.fits;
                apart = ok.apart;
                full = ok.full;
                counted = ok.counted;
                none_counted = ok.none_counted;
                marks = ok.marks;
                there = ok.there;
                kept = ok.kept;
              };
              keeps = λ i f h. refl;
              reads = λ i. refl;
              size = refl;
            })
    ]

    invalidate_groups-Same :
        (l : AccountingBlocks R) (group n : ℕ)
        → Sound l frozen
        → Same frozen l (invalidate_groups l group n)
    invalidate_groups-Same l group zero ok = Same-refl frozen l ok
    invalidate_groups-Same l group (suc n) ok =
        let first = invalidate_group-Same l group ok in
        Same-trans frozen l (invalidate_group l group) _ first
          (invalidate_groups-Same (invalidate_group l group) (suc group) n first.sound)

    pub invalidate_from-Same :
        (l : AccountingBlocks R) (first : ℕ)
        → Sound l frozen
        → Same frozen l (invalidate_from l first)
    unfolding invalidate_from
    invalidate_from-Same l first ok =
        invalidate_groups-Same l (first / range_block_records)
          (length l.range_blocks - first / range_block_records) ok

    -- A block that no snapshot shares: its own copy, or one that was not shared.
    pub record Own (l : AccountingBlocks R) (k : ℕ) (s : Slice) : Type 0 where
      pub slice : Slice
      pub here : get_elem? l.blocks k ≡ some slice
      pub same_len : slice.len ≡ s.len
      pub own : (i : ℕ) (f : Slice) → get_elem? frozen i ≡ some f → slice.array ≢ f.array

    module _ (zero_record : R) where
      pub writable_block-Same :
          (l : AccountingBlocks R) (k : ℕ)
          → Sound l frozen
          → Same frozen l (writable_block zero_record l k)
      unfolding writable_block
      writable_block-Same l k ok = elim (Option-cases (get_elem? l.blocks k)) [
        | inl gone ↦ rw (writable_block, gone) (Same-refl frozen l ok)
        | inr (s, here) ↦ elim (Bool-cases (is_set l.shared k)) [
          | inr free ↦ rw (writable_block, here, free) (Same-refl frozen l ok)
          | inl shared ↦
              let capacity = length (array_at l.arrays s.array) in
              rw (writable_block, here, shared)
                (record {
                  sound = move-Sound zero_record l frozen ok k s capacity here (ok.fits k s here).1;
                  keeps = new-Keeps l frozen ok (copied zero_record l.arrays s capacity);
                  reads = λ i. at-move zero_record l frozen ok k s capacity i here;
                  size = refl;
                })
        ]
      ]

      pub writable_block-Own :
          (l : AccountingBlocks R) (k : ℕ) (s : Slice)
          → Sound l frozen
          → get_elem? l.blocks k ≡ some s
          → Own (writable_block zero_record l k) k s
      unfolding writable_block
      writable_block-Own l k s ok here = elim (Bool-cases (is_set l.shared k)) [
        | inr free ↦
            rw (writable_block, here, free)
              (record {
                slice = s;
                here = here;
                same_len = refl;
                own = λ i f at e. ground (arith, (ok.kept i f k s at here e).0, free);
              })
        | inl shared ↦
            let moved : Slice = record { array = length l.arrays; len = s.len } in
            rw (writable_block, here, shared)
              (record {
                slice = moved;
                here =
                    get_elem?-set l.blocks k moved k
                    ∙ ground (arith, get_elem?-lt l.blocks k s here);
                same_len = refl;
                own = λ i f at e. omega (arith, ok.there i f at, e);
              })
      ]
