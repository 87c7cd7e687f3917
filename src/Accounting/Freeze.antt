-- ===== src/Accounting/Freeze.antt =====
-- freeze and records: a snapshot is one more list of slices, and the records are those at the
-- indices.
use cpa_usage_plugin.Common.{
  ℕ, suc, ◌-◌, ◌/◌, ◌%◌, ◌≤◌, ◌<◌, ◌≡◌, refl, sym, ◌∙◌, ap, true, ltb, ◌==◌, Option, none, some,
  List, [], ◌∷◌, ◌++◌, length, get_elem?, drop, replicate, arith, get_elem?-append, get_elem?-past,
  get_elem?-replicate, length-append, length-replicate, length-drop, get_elem?-in, get_elem?-lt,
  Bool-cases, Option-cases, inl, inr, ◌⊎◌,
}
use cpa_usage_plugin.Accounting.{Slice, AccountingBlocks}
use cpa_usage_plugin.Accounting.Blocks.{array_at, at, is_set, view, freeze, records_of}
use cpa_usage_plugin.Accounting.Sound.{Sound}
use cpa_usage_plugin.Accounting.Preserve.{length-view}
use cpa_usage_plugin.Accounting.Reads.{get_elem?-view}

join-cases :
    {A : Type 0} (xs ys : List A) (i : ℕ) (t : A)
    → get_elem? (xs ++ ys) i ≡ some t
    → ((j : ℕ) × (get_elem? xs j ≡ some t)) ⊎ ((j : ℕ) × (get_elem? ys j ≡ some t))
join-cases xs ys i t h = elim (Bool-cases (ltb i (length xs))) [
  | inl lt ↦ inl (i, ground (arith, sym (get_elem?-append xs ys i) ∙ h, lt))
  | inr ge ↦ inr (i - length xs, ground (arith, sym (get_elem?-append xs ys i) ∙ h, ge))
]

module _ {R : Type 0} where
  all_shared :
      (l : AccountingBlocks R) (k : ℕ)
      → k < length l.blocks
      → is_set (replicate (length l.blocks) true ++ drop (length l.blocks) l.shared) k ≡ true
  all_shared l k h =
      rw
        (
          is_set,
          get_elem?-append (replicate (length l.blocks) true) (drop (length l.blocks) l.shared) k,
          length-replicate (length l.blocks) true,
          get_elem?-replicate (length l.blocks) true k,
        )
        (ground (arith, h))

  -- The snapshot is one more that the blocks keep.
  pub freeze-Sound :
      (l : AccountingBlocks R) (frozen : List Slice)
      → Sound l frozen
      → Sound (freeze l).0 (frozen ++ (freeze l).1)
  unfolding freeze
  freeze-Sound l frozen ok = elim (Bool-cases (l.count == 0)) [
    | inl e ↦
        rw (freeze, e)
          (record {
            fits = ok.fits;
            apart = ok.apart;
            full = ok.full;
            counted = ok.counted;
            none_counted = ok.none_counted;
            marks = ok.marks;
            there = λ i f h. elim (join-cases frozen [] i f h) [
              | inl (j, old) ↦ ok.there j f old
              | inr (j, new) ↦ absurd (cc)
            ];
            kept = λ i f k s h g eq. elim (join-cases frozen [] i f h) [
              | inl (j, old) ↦ ok.kept j f k s old g eq
              | inr (j, new) ↦ absurd (cc)
            ];
          })
    | inr e ↦
        rw (freeze, e)
          (record {
            fits = ok.fits;
            apart = ok.apart;
            full = ok.full;
            counted = ok.counted;
            none_counted = ok.none_counted;
            marks = omega (
              arith,
              length-append (replicate (length l.blocks) true) (drop (length l.blocks) l.shared),
              length-replicate (length l.blocks) true,
              length-drop (length l.blocks) l.shared,
              ok.marks,
            );
            there = λ i f h. elim (join-cases frozen l.blocks i f h) [
              | inl (j, old) ↦ ok.there j f old
              | inr (j, new) ↦ (ok.fits j f new).0
            ];
            kept = λ i f k s h g eq. (
              all_shared l k (get_elem?-lt l.blocks k s g),
              elim (join-cases frozen l.blocks i f h) [
                | inl (j, old) ↦ (ok.kept j f k s old g eq).1
                | inr (j, new) ↦
                    let same : k ≡ j = ok.apart k j s f g new eq in
                    let one : s ≡ f = ground (arith, sym g, ap (get_elem? l.blocks) same, new) in
                    omega (arith, ap (λ x. x.len) one)
              ],
            );
          })
  ]

  -- The record at place `x` of block `k`.
  abbrev pub chunk_at : List (List R) → List Slice → ℕ → ℕ → Option R
  chunk_at arrays blocks k x = elim (get_elem? blocks k) [
    | none ↦ none
    | some s ↦ get_elem? (view arrays s) x
  ]

  -- Blocks that are full up to the last one hold at an index what their list of records does.
  records_of-at :
      (arrays : List (List R)) (blocks : List Slice)
      → ((k : ℕ) (s : Slice)
          → get_elem? blocks k ≡ some s
          → (s.len ≤ length (array_at arrays s.array)) × (s.len ≤ 256))
      → ((k : ℕ) (s : Slice) → get_elem? blocks k ≡ some s → suc k < length blocks → s.len ≡ 256)
      → (i : ℕ)
      → get_elem? (records_of arrays blocks) i ≡ chunk_at arrays blocks (i / 256) (i % 256)
  unfolding records_of
  records_of-at arrays [] fits full i = refl
  records_of-at arrays (s ∷ []) fits full i =
      let size : length (view arrays s) ≡ s.len = length-view arrays s (fits 0 s refl).0 in
      let split = get_elem?-append (view arrays s) [] i in
      elim (Bool-cases (ltb i s.len)) [
        | inl lt ↦
            let block : i / 256 ≡ 0 = ground (arith, lt, (fits 0 s refl).1) in
            let place : i % 256 ≡ i = ground (arith, lt, (fits 0 s refl).1) in
            rw (block, place) (split ∙ ground (arith, size, lt))
        | inr ge ↦
            let gone : get_elem? (view arrays s ++ []) i ≡ none =
              get_elem?-past (view arrays s ++ []) i
                (ground (arith, length-append (view arrays s) [], size, ge)) in
            rw gone (elim (Bool-cases (i / 256 == 0)) [
              | inl e ↦
                  let block : i / 256 ≡ 0 = ground (arith, e) in
                  let out =
                    get_elem?-past (view arrays s) (i % 256) (ground (arith, size, ge, e)) in
                  rw block (sym out)
              | inr e ↦
                  let out = get_elem?-past (s ∷ []) (i / 256) (ground (arith, e)) in
                  rw (chunk_at, out) refl
            ])
      ]
  records_of-at arrays (s ∷ (t ∷ rest)) fits full i =
      let size : length (view arrays s) ≡ s.len = length-view arrays s (fits 0 s refl).0 in
      let split = get_elem?-append (view arrays s) (records_of arrays (t ∷ rest)) i in
      let later =
        records_of-at arrays (t ∷ rest) (λ k u h. fits (suc k) u h)
          (λ k u h lt. full (suc k) u h (omega (arith, lt))) (i - s.len) in
      let whole : s.len ≡ 256 = full 0 s refl (omega arith) in
      elim (Bool-cases (ltb i s.len)) [
        | inl lt ↦
            let block : i / 256 ≡ 0 = ground (arith, lt, whole) in
            let place : i % 256 ≡ i = ground (arith, lt, whole) in
            rw (block, place) (split ∙ ground (arith, size, lt))
        | inr ge ↦
            let first : get_elem? (view arrays s ++ records_of arrays (t ∷ rest)) i
                ≡ get_elem? (records_of arrays (t ∷ rest)) (i - s.len) =
              split ∙ ground (arith, size, ge) in
            let block : i / 256 ≡ suc ((i - s.len) / 256) = ground (arith, whole, ge) in
            let place : i % 256 ≡ (i - s.len) % 256 = ground (arith, whole, ge) in
            first
            ∙ later
            ∙ ap (λ k. chunk_at arrays (s ∷ (t ∷ rest)) k ((i - s.len) % 256)) (sym block)
            ∙ ap (λ x. chunk_at arrays (s ∷ (t ∷ rest)) (i / 256) x) (sym place)
      ]

  -- records, from the invariant
  pub records-at :
      (l : AccountingBlocks R) (frozen : List Slice)
      → Sound l frozen
      → (i : ℕ) → get_elem? (records_of l.arrays l.blocks) i ≡ at l i
  unfolding at
  records-at l frozen ok i =
      let same =
        records_of-at l.arrays l.blocks (λ k s h. ((ok.fits k s h).1, (ok.fits k s h).2)) ok.full
          i in
      elim (Option-cases (get_elem? l.blocks (i / 256))) [
        | inl gone ↦ rw (at, gone) (same ∙ rw (chunk_at, gone) refl)
        | inr (s, here) ↦
            rw (at, here) (same ∙ rw (chunk_at, here) (get_elem?-view l.arrays s (i % 256)))
      ]

  -- There is no record from the count on.
  pub at-past :
      (l : AccountingBlocks R) (frozen : List Slice)
      → Sound l frozen
      → (i : ℕ) → l.count ≤ i
      → at l i ≡ none
  unfolding at
  at-past l frozen ok i past = elim (Option-cases (get_elem? l.blocks (i / 256))) [
    | inl gone ↦ rw (at, gone) refl
    | inr (s, here) ↦ elim (Bool-cases (suc (i / 256) == length l.blocks)) [
      | inl e ↦
          let size = ok.counted (i / 256) s here (ground (arith, e)) in
          rw (at, here) (ground (arith, size, past))
      | inr ne ↦
          let (t, final) =
            get_elem?-in l.blocks (length l.blocks - 1)
              (omega (arith, get_elem?-lt l.blocks (i / 256) s here)) in
          let size =
            ok.counted (length l.blocks - 1) t final
              (omega (arith, get_elem?-lt l.blocks (i / 256) s here)) in
          let short = (ok.fits (length l.blocks - 1) t final).2 in
          absurd (ground (arith, size, past, ne, short, get_elem?-lt l.blocks (i / 256) s here))
    ]
  ]
