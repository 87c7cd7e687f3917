-- ===== src/Accounting/Reads.antt =====
-- What the accounting blocks hold at an index after each step of an operation.
use cpa_usage_plugin.Common.{
  ℕ, ◌≤◌, ◌-◌, ◌++◌, replicate, get_elem?-append, get_elem?-take, get_elem?-lt, append-cases, ◌∙◌,
  [], ◌∷◌, ◌/◌, ◌%◌, ◌<◌, ◌≡◌, refl, sym, ap, false, ◌&&◌, ltb, ◌==◌, if◌then◌else◌, none, some,
  List, length, get_elem?, set, arith, get_elem?-set, Bool-cases, Option-cases, inl, inr,
}
use cpa_usage_plugin.Accounting.{Slice, AccountingBlocks}
use cpa_usage_plugin.Accounting.Blocks.{view, copied, move, add_block, array_at, write, at}
use cpa_usage_plugin.Accounting.Memory.{
  array_at-new, array_at-old, array_at-set, array_at-set_other,
}
use cpa_usage_plugin.Accounting.Sound.{Sound}
use cpa_usage_plugin.Accounting.Preserve.{length-view}

module _ {R : Type 0} where
  -- at, in a block that is there
  pub at-block :
      (l : AccountingBlocks R) (i : ℕ) (s : Slice)
      → get_elem? l.blocks (i / 256) ≡ some s
      → at l i
        ≡ (if ltb (i % 256) s.len then get_elem? (array_at l.arrays s.array) (i % 256) else none)
  unfolding at
  at-block l i s e = rw (at, e) refl

  pub at-no_block :
      (l : AccountingBlocks R) (i : ℕ) → get_elem? l.blocks (i / 256) ≡ none → at l i ≡ none
  unfolding at
  at-no_block l i e = rw (at, e) refl

  module _ (l : AccountingBlocks R) (frozen : List Slice) (ok : Sound l frozen) where
    -- An array of the blocks after a write to block `k`.
    pub read-write :
        (k j : ℕ) (r : R) (s : Slice) (m : ℕ) (t : Slice) (x : ℕ)
        → get_elem? l.blocks k ≡ some s
        → j < length (array_at l.arrays s.array)
        → get_elem? l.blocks m ≡ some t
        → get_elem?
            (array_at (set l.arrays s.array (set (array_at l.arrays s.array) j r)) t.array)
            x
          ≡ (if m == k && x == j then some r else get_elem? (array_at l.arrays t.array) x)
    read-write k j r s m t x ks room mt = elim (Bool-cases (m == k)) [
      | inl e ↦
          let mk : m ≡ k = ground (arith, e) in
          let same : t ≡ s = ground (arith, sym mt, ap (get_elem? l.blocks) mk, ks) in
          rw
            (
              same,
              array_at-set l.arrays s.array (set (array_at l.arrays s.array) j r)
                  (ok.fits k s ks).0,
              get_elem?-set (array_at l.arrays s.array) j r x,
            )
            (ground (arith, e, room))
      | inr ne ↦ elim (Bool-cases (t.array == s.array)) [
        | inl e ↦
            let mk : m ≡ k = ok.apart m k t s mt ks (ground (arith, e)) in
            absurd (ground (arith, mk, ne))
        | inr other ↦
            rw
              (array_at-set_other l.arrays s.array t.array (set (array_at l.arrays s.array) j r)
                other)
              (ground (arith, ne))
      ]
    ]

    pub at-write :
        (k j : ℕ) (r : R) (s : Slice) (i : ℕ)
        → get_elem? l.blocks k ≡ some s
        → j < s.len
        → at (write l k j r) i ≡ (if i / 256 == k && i % 256 == j then some r else at l i)
    unfolding at
    at-write k j r s i ks room =
        rw (write, ks)
          (elim (Option-cases (get_elem? l.blocks (i / 256))) [
            | inl gone ↦
                let elsewhere : (i / 256 == k) ≡ false = elim (Bool-cases (i / 256 == k)) [
                  | inl e ↦
                      let same : i / 256 ≡ k = ground (arith, e) in
                      absurd (ground (arith, sym gone, ap (get_elem? l.blocks) same, ks))
                  | inr ne ↦ ne
                ] in
                rw (at, gone, elsewhere) refl
            | inr (t, here) ↦
                let inside : j < length (array_at l.arrays s.array) =
                  omega (arith, room, (ok.fits k s ks).1) in
                let read = read-write k j r s (i / 256) t (i % 256) ks inside here in
                rw (at, here, read)
                  (elim (Bool-cases (i / 256 == k)) [
                    | inl e ↦
                        let mk : i / 256 ≡ k = ground (arith, e) in
                        let same : t ≡ s =
                          ground (arith, sym here, ap (get_elem? l.blocks) mk, ks) in
                        rw same (ground (arith, e, room))
                    | inr ne ↦ ground (arith, ne)
                  ])
          ])

  pub get_elem?-view :
      (arrays : List (List R)) (s : Slice) (x : ℕ)
      → get_elem? (view arrays s) x
        ≡ (if ltb x s.len then get_elem? (array_at arrays s.array) x else none)
  unfolding view
  get_elem?-view arrays s x = get_elem?-take s.len (array_at arrays s.array) x

  module _ (zero_record : R) where
    get_elem?-copied :
        (arrays : List (List R)) (s : Slice) (capacity x : ℕ)
        → s.len ≤ length (array_at arrays s.array)
        → (if ltb x s.len then get_elem? (copied zero_record arrays s capacity) x else none)
          ≡ (if ltb x s.len then get_elem? (array_at arrays s.array) x else none)
    unfolding copied
    get_elem?-copied arrays s capacity x h =
        rw
          (
            copied,
            get_elem?-append (view arrays s) (replicate (capacity - s.len) zero_record) x,
            length-view arrays s h,
            get_elem?-view arrays s x,
          )
          (ground arith)

    module _ (l : AccountingBlocks R) (frozen : List Slice) (ok : Sound l frozen) where
      pub at-move :
          (k : ℕ) (s : Slice) (capacity i : ℕ)
          → get_elem? l.blocks k ≡ some s
          → at (move zero_record l k s capacity) i ≡ at l i
      unfolding at
      at-move k s capacity i ks =
          let new : List R = copied zero_record l.arrays s capacity in
          let moved : Slice = record { array = length l.arrays; len = s.len } in
          elim (Bool-cases (i / 256 == k)) [
            | inl e ↦
                let same : i / 256 ≡ k = ground (arith, e) in
                let there : k < length l.blocks = get_elem?-lt l.blocks k s ks in
                let after : get_elem? (set l.blocks k moved) k ≡ some moved =
                  get_elem?-set l.blocks k moved k ∙ ground (arith, there) in
                rw
                  (
                    at,
                    same,
                    after,
                    ks,
                    array_at-new l.arrays new,
                    get_elem?-copied l.arrays s capacity (i % 256) (ok.fits k s ks).1,
                  )
                  refl
            | inr ne ↦
                let after : get_elem? (set l.blocks k moved) (i / 256)
                    ≡ get_elem? l.blocks (i / 256) =
                  get_elem?-set l.blocks k moved (i / 256) ∙ ground (arith, ne) in
                elim (Option-cases (get_elem? l.blocks (i / 256))) [
                  | inl gone ↦ rw (at, after, gone) refl
                  | inr (t, here) ↦
                      rw (at, after, here, array_at-old l.arrays new t.array (ok.fits _ t here).0)
                        refl
                ]
          ]

      pub at-add_block : (capacity i : ℕ) → at (add_block zero_record l capacity) i ≡ at l i
      unfolding at
      at-add_block capacity i =
          let new : List R = replicate capacity zero_record in
          let added : Slice = record { array = length l.arrays; len = 0 } in
          let after = get_elem?-append l.blocks (added ∷ []) (i / 256) in
          elim (Option-cases (get_elem? l.blocks (i / 256))) [
            | inl gone ↦ elim (Option-cases (get_elem? (l.blocks ++ (added ∷ [])) (i / 256))) [
              | inl still ↦ rw (at, still, gone) refl
              | inr (t, here) ↦ elim (append-cases l.blocks added (i / 256) t here) [
                | inl (_, same) ↦ rw (at, here, gone, same) (ground arith)
                | inr (_, old) ↦ absurd (ground (arith, sym gone, old))
              ]
            ]
            | inr (t, here) ↦
                let there : i / 256 < length l.blocks = get_elem?-lt l.blocks (i / 256) t here in
                let still : get_elem? (l.blocks ++ (added ∷ [])) (i / 256) ≡ some t =
                  after ∙ ground (arith, there, here) in
                rw (at, still, here, array_at-old l.arrays new t.array (ok.fits _ t here).0) refl
          ]
