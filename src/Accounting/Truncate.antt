-- ===== src/Accounting/Truncate.antt =====
-- truncate: what it does to the records and to the snapshots.
use cpa_usage_plugin.Common.{
  ℕ, false, true, get_elem?-set, ◌%◌, ◌/◌, ltb, get_elem?-append, get_elem?-in, if◌then◌else◌, none,
  ◌≢◌, suc, ◌+◌, ◌-◌, ◌*◌, ◌≤◌, ◌<◌, ◌≡◌, refl, sym, ◌∙◌, ap, ◌==◌, some, List, ◌++◌, length,
  get_elem?, take, drop, set, replicate, arith, get_elem?-lt, get_elem?-take, length-set,
  length-append, length-replicate, length-take, length-drop, set-cases, take-cases, Bool-cases, inl,
  inr, ◌⊎◌,
}
use cpa_usage_plugin.Accounting.{Slice, AccountingBlocks}
use cpa_usage_plugin.Accounting.Blocks.{at, view, array_at, is_set}
use cpa_usage_plugin.Accounting.Memory.{array_at-set, array_at-set_other}
use cpa_usage_plugin.Accounting.Sound.{Keeps, Sound}

module _ {R : Type 0} (zero_record : R) (frozen : List Slice) where
  -- The state after the cut of block `last` to `end` records and the end of the list behind it.
  abbrev pub cut : AccountingBlocks R → ℕ → ℕ → Slice → ℕ → AccountingBlocks R
  cut l last end s groups =
      let a = array_at l.arrays s.array in
      record l {
        arrays =
            set l.arrays s.array
              (take end a ++ (replicate (s.len - end) zero_record ++ drop s.len a));
        blocks = take (suc last) (set l.blocks last (record s { len = end }));
        shared = take (suc last) l.shared;
        count = last * 256 + end;
        range_blocks = take groups l.range_blocks;
      }

  module _ (l : AccountingBlocks R) (ok : Sound l frozen) (last end : ℕ) (s : Slice)
      (here : get_elem? l.blocks last ≡ some s) (inside : end ≤ s.len)
      (own : (i : ℕ) (f : Slice) → get_elem? frozen i ≡ some f → s.array ≢ f.array) where
    abbrev shorter : Slice
    shorter = record { array = s.array; len = end }

    abbrev cleared : List R
    cleared =
        let a = array_at l.arrays s.array in
        take end a ++ (replicate (s.len - end) zero_record ++ drop s.len a)

    length-cleared : length cleared ≡ length (array_at l.arrays s.array)
    length-cleared =
        let a = array_at l.arrays s.array in
        length-append (take end a) (replicate (s.len - end) zero_record ++ drop s.len a)
        ∙ omega (
          arith,
          length-take end a,
          length-append (replicate (s.len - end) zero_record) (drop s.len a),
          length-replicate (s.len - end) zero_record,
          length-drop s.len a,
          inside,
          (ok.fits last s here).1,
        )

    -- A block that is left.
    left-cases :
        (k : ℕ) (t : Slice)
        → get_elem? (take (suc last) (set l.blocks last shorter)) k ≡ some t
        → (k ≡ last) × (t ≡ shorter) ⊎ ((k < last) × (get_elem? l.blocks k ≡ some t))
    left-cases k t h =
        let (low, found) = take-cases (suc last) (set l.blocks last shorter) k t h in
        elim (set-cases l.blocks last shorter k t found) [
          | inl both ↦ inl both
          | inr (ne, old) ↦ inr (ground (arith, low, ne), old)
        ]

    length-left : length (take (suc last) (set l.blocks last shorter)) ≡ suc last
    length-left =
        length-take (suc last) (set l.blocks last shorter)
        ∙ omega (arith, length-set l.blocks last shorter, get_elem?-lt l.blocks last s here)

    capacity :
        (a : ℕ) → length (array_at (set l.arrays s.array cleared) a) ≡ length (array_at l.arrays a)
    capacity a = elim (Bool-cases (a == s.array)) [
      | inl e ↦
          let same : a ≡ s.array = ground (arith, e) in
          rw same (
            ap length (array_at-set l.arrays s.array cleared (ok.fits last s here).0)
            ∙ length-cleared)
      | inr ne ↦ ap length (array_at-set_other l.arrays s.array a cleared ne)
    ]

    is_set-take : (k : ℕ) → k < suc last → is_set (take (suc last) l.shared) k ≡ is_set l.shared k
    is_set-take k h = rw (is_set, get_elem?-take (suc last) l.shared k) (ground (arith, h))

    pub cut-Sound : (groups : ℕ) → Sound (cut l last end s groups) frozen
    cut-Sound groups =
        let sizes : length (set l.arrays s.array cleared) ≡ length l.arrays =
          length-set l.arrays s.array cleared in
        record {
          fits = λ k t h. elim (left-cases k t h) [
            | inl (_, same) ↦ rw same (
              omega (arith, sizes, (ok.fits last s here).0),
              omega (arith, capacity s.array, inside, (ok.fits last s here).1),
              omega (arith, inside, (ok.fits last s here).2),
            )
            | inr (_, old) ↦ (
              omega (arith, sizes, (ok.fits k t old).0),
              omega (arith, capacity t.array, (ok.fits k t old).1),
              (ok.fits k t old).2,
            )
          ];
          apart = λ k j t u h g e. elim (left-cases k t h) [
            | inl (ik, same) ↦ elim (left-cases j u g) [
              | inl (jk, _) ↦ ik ∙ sym jk
              | inr (_, old) ↦ ik ∙ ok.apart last j s u here old (ap (λ x. x.array) (sym same) ∙ e)
            ]
            | inr (_, old) ↦ elim (left-cases j u g) [
              | inl (jk, same) ↦ ok.apart k last t s old here (e ∙ ap (λ x. x.array) same) ∙ sym jk
              | inr (_, old') ↦ ok.apart k j t u old old' e
            ]
          ];
          full = λ k t h lt. elim (left-cases k t h) [
            | inl (ik, _) ↦ absurd (omega (arith, lt, length-left, ik))
            | inr (low, old) ↦
                ok.full k t old (omega (arith, low, get_elem?-lt l.blocks last s here))
          ];
          counted = λ k t h at_end. elim (left-cases k t h) [
            | inl (ik, same) ↦ rw (same, ik) refl
            | inr (low, _) ↦ absurd (omega (arith, low, at_end, length-left))
          ];
          none_counted = λ h. absurd (omega (arith, h, length-left));
          marks = omega (arith, length-left, length-take (suc last) l.shared);
          there = λ i f h. omega (arith, sizes, ok.there i f h);
          kept = λ i f k t h g e. elim (left-cases k t g) [
            | inl (_, same) ↦ absurd (own i f h (ap (λ x. x.array) (sym same) ∙ e))
            | inr (low, old) ↦ rw (is_set-take k (omega (arith, low))) (ok.kept i f k t h old e)
          ];
        }

    pub cut-Keeps : Keeps frozen l.arrays (set l.arrays s.array cleared)
    unfolding view
    cut-Keeps i f at = elim (Bool-cases (f.array == s.array)) [
      | inl e ↦ absurd (own i f at (ground (arith, e)))
      | inr ne ↦ ap (take f.len) (array_at-set_other l.arrays s.array f.array cleared ne)
    ]

    get_elem?-cleared :
        (x : ℕ)
        → (if ltb x end then get_elem? cleared x else none)
          ≡ (if ltb x end then get_elem? (array_at l.arrays s.array) x else none)
    get_elem?-cleared x =
        let a = array_at l.arrays s.array in
        let size : length (take end a) ≡ end =
          length-take end a ∙ omega (arith, inside, (ok.fits last s here).1) in
        rw
          (
            get_elem?-append (take end a) (replicate (s.len - end) zero_record ++ drop s.len a) x,
            size,
            get_elem?-take end a x,
          )
          (ground arith)

    pub cut-reads :
        (groups i : ℕ)
        → at (cut l last end s groups) i ≡ (if ltb i (last * 256 + end) then at l i else none)
    unfolding at
    cut-reads groups i =
        let few : end ≤ 256 = omega (arith, inside, (ok.fits last s here).2) in
        let there : last < length l.blocks = get_elem?-lt l.blocks last s here in
        let kept = get_elem?-take (suc last) (set l.blocks last shorter) (i / 256) in
        let old = get_elem?-set l.blocks last shorter (i / 256) in
        elim (Bool-cases (i / 256 == last)) [
          | inl e ↦
              let same : i / 256 ≡ last = ground (arith, e) in
              let after : get_elem? (take (suc last) (set l.blocks last shorter)) (i / 256)
                  ≡ some shorter =
                kept ∙ ground (arith, e, old, there) in
              let after' =
                sym (ap (get_elem? (take (suc last) (set l.blocks last shorter))) same) ∙ after in
              rw
                (
                  at,
                  same,
                  after',
                  here,
                  array_at-set l.arrays s.array cleared (ok.fits last s here).0,
                  get_elem?-cleared (i % 256),
                )
                (ground (arith, e, inside))
          | inr ne ↦ elim (Bool-cases (ltb (i / 256) last)) [
            | inr high ↦
                let after : get_elem? (take (suc last) (set l.blocks last shorter)) (i / 256)
                    ≡ none =
                  kept ∙ ground (arith, high, ne) in
                let over : ltb i (last * 256 + end) ≡ false = ground (arith, high, ne, few) in
                rw (at, after, over) refl
            | inl low ↦
                let (t, before) = get_elem?-in l.blocks (i / 256) (ground (arith, low, there)) in
                let after : get_elem? (take (suc last) (set l.blocks last shorter)) (i / 256)
                    ≡ some t =
                  kept ∙ ground (arith, low, ne, old, before) in
                let under : ltb i (last * 256 + end) ≡ true = ground (arith, low) in
                let apart : (t.array == s.array) ≡ false = elim (Bool-cases (t.array == s.array)) [
                  | inl eq ↦
                      let clash : i / 256 ≡ last =
                        ok.apart (i / 256) last t s before here (ground (arith, eq)) in
                      absurd (ground (arith, clash, ne))
                  | inr distinct ↦ distinct
                ] in
                rw
                  (
                    at,
                    after,
                    under,
                    before,
                    array_at-set_other l.arrays s.array t.array cleared apart,
                  )
                  refl
          ]
        ]
