-- ===== src/Accounting/Preserve.antt =====
-- go/accounting_blocks.go: the steps of the operations and the invariant.
use cpa_usage_plugin.Common.{
  ℕ, suc, ◌-◌, ◌≤◌, ◌≡◌, sym, ◌∙◌, ap, false, ◌*◌, ◌==◌, Bool-cases, some, List, [], ◌∷◌, ◌++◌,
  length, get_elem?, set, replicate, arith, length-set, length-append, length-take,
  length-replicate, set-cases, append-cases, inl, inr,
}
use cpa_usage_plugin.Accounting.{Slice, AccountingBlocks}
use cpa_usage_plugin.Accounting.Blocks.{array_at, view, copied, move, write, add_block}
use cpa_usage_plugin.Accounting.Memory.{
  array_at-new, array_at-old, array_at-set, array_at-set_other,
}
use cpa_usage_plugin.Accounting.Sound.{Sound, is_set-clear_other}

module _ {ℓ} {R : Type ℓ} where
  pub length-view :
      (arrays : List (List R)) (s : Slice)
      → s.len ≤ length (array_at arrays s.array)
      → length (view arrays s) ≡ s.len
  unfolding view
  length-view arrays s h = length-take s.len (array_at arrays s.array) ∙ omega (arith, h)

  length-new :
      (arrays : List (List R)) (x : List R) → length (arrays ++ (x ∷ [])) ≡ suc (length arrays)
  length-new arrays x = length-append arrays (x ∷ []) ∙ omega arith

  module _ (l : AccountingBlocks R) (frozen : List Slice) (ok : Sound l frozen) where
    pub write-Sound :
        (k j : ℕ) (r : R) (s : Slice) → get_elem? l.blocks k ≡ some s → Sound (write l k j r) frozen
    write-Sound k j r s at =
        let changed : List R = set (array_at l.arrays s.array) j r in
        let sizes : length (set l.arrays s.array changed) ≡ length l.arrays =
          length-set l.arrays s.array changed in
        let capacity : (a : ℕ)
            → length (array_at (set l.arrays s.array changed) a) ≡ length (array_at l.arrays a) =
          λ a. elim (Bool-cases (a == s.array)) [
            | inl e ↦
                let same : a ≡ s.array = ground (arith, e) in
                rw same (
                  ap length (array_at-set l.arrays s.array changed (ok.fits k s at).0)
                  ∙ length-set (array_at l.arrays s.array) j r)
            | inr ne ↦ ap length (array_at-set_other l.arrays s.array a changed ne)
          ] in
        rw (write, at)
          (record {
            fits = λ i t h. (
              omega (arith, sizes, (ok.fits i t h).0),
              omega (arith, capacity t.array, (ok.fits i t h).1),
              (ok.fits i t h).2,
            );
            apart = ok.apart;
            full = ok.full;
            counted = ok.counted;
            none_counted = ok.none_counted;
            marks = ok.marks;
            there = λ i f h. omega (arith, sizes, ok.there i f h);
            kept = ok.kept;
          })

  module _ (zero_record : R) where
    pub length-copied :
        (arrays : List (List R)) (s : Slice) (capacity : ℕ)
        → s.len ≤ length (array_at arrays s.array)
        → s.len ≤ capacity
        → length (copied zero_record arrays s capacity) ≡ capacity
    unfolding copied
    length-copied arrays s capacity h room =
        length-append (view arrays s) (replicate (capacity - s.len) zero_record)
        ∙ omega
            (arith, length-view arrays s h, length-replicate (capacity - s.len) zero_record, room)

    module _ (l : AccountingBlocks R) (frozen : List Slice) (ok : Sound l frozen) where
      pub move-Sound :
          (k : ℕ) (s : Slice) (capacity : ℕ)
          → get_elem? l.blocks k ≡ some s
          → s.len ≤ capacity
          → Sound (move zero_record l k s capacity) frozen
      move-Sound k s capacity at room =
          let new : List R = copied zero_record l.arrays s capacity in
          let more : length (l.arrays ++ (new ∷ [])) ≡ suc (length l.arrays) =
            length-new l.arrays new in
          let moved : Slice = record { array = length l.arrays; len = s.len } in
          let there : length (set l.blocks k moved) ≡ length l.blocks =
            length-set l.blocks k moved in
          record {
            fits = λ i t h. elim (set-cases l.blocks k moved i t h) [
              | inl (e, same) ↦ rw same (
                omega (arith, more),
                rw (array_at-new l.arrays new) (
                    omega (arith, length-copied l.arrays s capacity (ok.fits k s at).1 room, room)),
                (ok.fits k s at).2,
              )
              | inr (ne, old) ↦ (
                omega (arith, more, (ok.fits i t old).0),
                rw (array_at-old l.arrays new t.array (ok.fits i t old).0) (ok.fits i t old).1,
                (ok.fits i t old).2,
              )
            ];
            apart = λ i j t u h g e. elim (set-cases l.blocks k moved i t h) [
              | inl (ik, same) ↦ elim (set-cases l.blocks k moved j u g) [
                | inl (jk, _) ↦ ik ∙ sym jk
                | inr (_, old) ↦
                    absurd (omega (arith, (ok.fits j u old).0, e, ap (λ x. x.array) same))
              ]
              | inr (_, old) ↦ elim (set-cases l.blocks k moved j u g) [
                | inl (jk, same) ↦
                    absurd (omega (arith, (ok.fits i t old).0, e, ap (λ x. x.array) same))
                | inr (_, old') ↦ ok.apart i j t u old old' e
              ]
            ];
            full = λ i t h lt. elim (set-cases l.blocks k moved i t h) [
              | inl (ik, same) ↦
                  ap (λ x. x.len) same ∙ ok.full k s at (omega (arith, lt, there, ik))
              | inr (_, old) ↦ ok.full i t old (omega (arith, lt, there))
            ];
            counted = λ i t h last. elim (set-cases l.blocks k moved i t h) [
              | inl (ik, same) ↦ rw (same, ik) (ok.counted k s at (omega (arith, last, there, ik)))
              | inr (_, old) ↦ ok.counted i t old (omega (arith, last, there))
            ];
            none_counted = λ h. ok.none_counted (omega (arith, h, there));
            marks = omega (arith, there, length-set l.shared k false, ok.marks);
            there = λ i f h. omega (arith, more, ok.there i f h);
            kept = λ i f j t h g e. elim (set-cases l.blocks k moved j t g) [
              | inl (_, same) ↦ absurd (omega (arith, ok.there i f h, e, ap (λ x. x.array) same))
              | inr (ne, old) ↦ rw (is_set-clear_other l.shared k j ne) (ok.kept i f j t h old e)
            ];
          }

      pub add_block-Sound :
          (capacity : ℕ)
          → ((k : ℕ) (s : Slice) → get_elem? l.blocks k ≡ some s → s.len ≡ 256)
          → l.count ≡ length l.blocks * 256
          → Sound (add_block zero_record l capacity) frozen
      add_block-Sound capacity filled size =
          let new : List R = replicate capacity zero_record in
          let more : length (l.arrays ++ (new ∷ [])) ≡ suc (length l.arrays) =
            length-new l.arrays new in
          let added : Slice = record { array = length l.arrays; len = 0 } in
          let longer : length (l.blocks ++ (added ∷ [])) ≡ suc (length l.blocks) =
            length-append l.blocks (added ∷ []) ∙ omega arith in
          record {
            fits = λ i t h. elim (append-cases l.blocks added i t h) [
              | inl (e, same) ↦ rw same (omega (arith, more), omega arith, omega arith)
              | inr (lt, old) ↦ (
                omega (arith, more, (ok.fits i t old).0),
                rw (array_at-old l.arrays new t.array (ok.fits i t old).0) (ok.fits i t old).1,
                (ok.fits i t old).2,
              )
            ];
            apart = λ i j t u h g e. elim (append-cases l.blocks added i t h) [
              | inl (ik, same) ↦ elim (append-cases l.blocks added j u g) [
                | inl (jk, _) ↦ ik ∙ sym jk
                | inr (_, old) ↦
                    absurd (omega (arith, (ok.fits j u old).0, e, ap (λ x. x.array) same))
              ]
              | inr (_, old) ↦ elim (append-cases l.blocks added j u g) [
                | inl (jk, same) ↦
                    absurd (omega (arith, (ok.fits i t old).0, e, ap (λ x. x.array) same))
                | inr (_, old') ↦ ok.apart i j t u old old' e
              ]
            ];
            full = λ i t h lt. elim (append-cases l.blocks added i t h) [
              | inl (ik, same) ↦ absurd (omega (arith, lt, longer, ik))
              | inr (_, old) ↦ filled i t old
            ];
            counted = λ i t h last. elim (append-cases l.blocks added i t h) [
              | inl (ik, same) ↦ rw (same, ik) (omega (arith, size))
              | inr (lt, old) ↦ absurd (omega (arith, lt, last, longer))
            ];
            none_counted = λ h. absurd (omega (arith, h, longer));
            marks = omega (arith, longer, ok.marks);
            there = λ i f h. omega (arith, more, ok.there i f h);
            kept = λ i f j t h g e. elim (append-cases l.blocks added j t g) [
              | inl (_, same) ↦ absurd (omega (arith, ok.there i f h, e, ap (λ x. x.array) same))
              | inr (_, old) ↦ ok.kept i f j t h old e
            ];
          }
