-- ===== src/Accounting/Append.antt =====
-- append: what it does to the records and to the snapshots.
use cpa_usage_plugin.Common.{
  ℕ, suc, ◌+◌, ◌-◌, ◌*◌, ◌<◌, ◌≡◌, refl, sym, ◌∙◌, ap, ◌==◌, min, max, some, List, [], ◌∷◌, ◌++◌,
  length, get_elem?, replicate, arith, get_elem?-append, get_elem?-in, get_elem?-lt, get_elem?-set,
  length-set, length-append, length-replicate, Bool-cases, inl, inr,
}
use cpa_usage_plugin.Accounting.{Slice, AccountingBlocks}
use cpa_usage_plugin.Accounting.Blocks.{array_at, first_block, make_room, add_block, copied}
use cpa_usage_plugin.Accounting.Memory.{array_at-new}
use cpa_usage_plugin.Accounting.Sound.{Sound, new-Keeps}
use cpa_usage_plugin.Accounting.Preserve.{move-Sound, add_block-Sound, length-copied}
use cpa_usage_plugin.Accounting.Reads.{at-move, at-add_block}
use cpa_usage_plugin.Accounting.Prepare.{Same, Same-refl}

module _ {R : Type 0} where
  -- The last block has room for a record.
  pub record Room (l : AccountingBlocks R) : Type 0 where
    pub slice : Slice
    pub here : get_elem? l.blocks (length l.blocks - 1) ≡ some slice
    pub short : slice.len < 256
    pub room : slice.len < length (array_at l.arrays slice.array)

  module _ (zero_record : R) (frozen : List Slice) where
    add_block-Same :
        (l : AccountingBlocks R) (capacity : ℕ)
        → Sound l frozen
        → ((k : ℕ) (s : Slice) → get_elem? l.blocks k ≡ some s → s.len ≡ 256)
        → l.count ≡ length l.blocks * 256
        → Same frozen l (add_block zero_record l capacity)
    add_block-Same l capacity ok filled size = record {
      sound = add_block-Sound zero_record l frozen ok capacity filled size;
      keeps = new-Keeps l frozen ok (replicate capacity zero_record);
      reads = at-add_block zero_record l frozen ok capacity;
      size = refl;
    }

    add_block-Room :
        (l : AccountingBlocks R) (capacity : ℕ)
        → 0 < capacity
        → Room (add_block zero_record l capacity)
    add_block-Room l capacity h =
        let added : Slice = record { array = length l.arrays; len = 0 } in
        record {
          slice = added;
          here =
              get_elem?-append l.blocks (added ∷ []) (length (l.blocks ++ (added ∷ [])) - 1)
              ∙ rw (length-append l.blocks (added ∷ [])) (ground arith);
          short = omega arith;
          room =
              rw (array_at-new l.arrays (replicate capacity zero_record))
                (omega (arith, length-replicate capacity zero_record, h));
        }

    pub first_block-Same :
        (l : AccountingBlocks R) → Sound l frozen → Same frozen l (first_block zero_record l)
    first_block-Same l ok = elim (Bool-cases (length l.blocks == 0)) [
      | inl e ↦
          let empty : length l.blocks ≡ 0 = ground (arith, e) in
          rw (first_block, e)
            (add_block-Same l 1 ok
              (λ k s h. absurd (omega (arith, get_elem?-lt l.blocks k s h, empty)))
              (omega (arith, ok.none_counted empty, empty)))
      | inr e ↦ rw (first_block, e) (Same-refl frozen l ok)
    ]

    pub first_block-length :
        (l : AccountingBlocks R) → 0 < length (first_block zero_record l).blocks
    first_block-length l = elim (Bool-cases (length l.blocks == 0)) [
      | inl e ↦
          let added : Slice = record { array = length l.arrays; len = 0 } in
          rw (first_block, e) (omega (arith, length-append l.blocks (added ∷ [])))
      | inr e ↦ rw (first_block, e) (ground (arith, e))
    ]

    -- The new block, the larger array or the block as it is.
    pub make_room-Same :
        (l : AccountingBlocks R)
        → Sound l frozen
        → 0 < length l.blocks
        → Same frozen l (make_room zero_record l) × Room (make_room zero_record l)
    unfolding make_room
    make_room-Same l ok some_block =
        let last = length l.blocks - 1 in
        let (s, here) = get_elem?-in l.blocks last (omega (arith, some_block)) in
        let total : l.count ≡ last * 256 + s.len =
          ok.counted last s here (omega (arith, some_block)) in
        let capacity = length (array_at l.arrays s.array) in
        elim (Bool-cases (s.len == 256)) [
          | inl e ↦
              let whole : s.len ≡ 256 = ground (arith, e) in
              rw (make_room, here, e)
                (
                  add_block-Same l 256 ok
                      (λ k t h. elim (Bool-cases (suc k == length l.blocks)) [
                        | inl eq ↦
                            let same : k ≡ last = ground (arith, eq) in
                            let is_last : t ≡ s =
                              ground (arith, sym h, ap (get_elem? l.blocks) same, here) in
                            ap (λ x. x.len) is_last ∙ whole
                        | inr ne ↦ ok.full k t h (ground (arith, ne, get_elem?-lt l.blocks k t h))
                      ])
                      (omega (arith, total, whole, some_block)),
                  add_block-Room l 256 (omega arith),
                )
          | inr ne ↦
              let short : s.len < 256 = ground (arith, ne, (ok.fits last s here).2) in
              elim (Bool-cases (s.len == capacity)) [
                | inr free ↦
                    rw (make_room, here, ne, free)
                      (
                        Same-refl frozen l ok,
                        record {
                          slice = s;
                          here = here;
                          short = short;
                          room = ground (arith, free, (ok.fits last s here).1);
                        },
                      )
                | inl tight ↦
                    let larger = min 256 (max 1 (capacity * 2)) in
                    let fits : s.len < larger = ground (arith, tight, short) in
                    let moved : Slice = record { array = length l.arrays; len = s.len } in
                    rw (make_room, here, ne, tight)
                      (
                        record {
                          sound =
                              move-Sound zero_record l frozen ok last s larger here
                                (omega (arith, fits));
                          keeps = new-Keeps l frozen ok (copied zero_record l.arrays s larger);
                          reads = λ i. at-move zero_record l frozen ok last s larger i here;
                          size = refl;
                        },
                        record {
                          slice = moved;
                          here =
                              rw (length-set l.blocks last moved) (
                                get_elem?-set l.blocks last moved last
                                ∙ ground (arith, some_block));
                          short = short;
                          room = rw (array_at-new l.arrays (copied zero_record l.arrays s larger)) (
                              omega (
                                arith,
                                fits,
                                length-copied zero_record l.arrays s larger (ok.fits last s here).1
                                    (omega (arith, fits)),
                              ));
                        },
                      )
              ]
        ]
