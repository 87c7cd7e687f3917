-- ===== src/Accounting/Shrink.antt =====
-- truncate and remove: what they do to the records and to the snapshots.
use cpa_usage_plugin.Common.{
  ℕ, ◌&&◌, Option, some, ◌%◌, zero, leb, get_elem?-in, ◌<◌, ◌≢◌, suc, ◌+◌, ◌-◌, ◌*◌, ◌/◌, ◌≤◌, ◌≡◌,
  refl, sym, ◌∙◌, ap, ltb, ◌==◌, if◌then◌else◌, none, some, List, [], get_elem?, take, arith,
  Bool-cases, inl, inr,
}
use cpa_usage_plugin.Accounting.{Slice, AccountingBlocks}
use cpa_usage_plugin.Accounting.Blocks.{
  array_at, remove, shift_down, mutable_at, at, invalidate_from, range_block_records, truncate,
  cut_block, writable_block,
}
use cpa_usage_plugin.Accounting.Sound.{Sound}
use cpa_usage_plugin.Accounting.Prepare.{
  Same, invalidate_from-Same, writable_block-Same, writable_block-Own,
}
use cpa_usage_plugin.Accounting.Update.{mutable_at-Changed, Changed, block_of}
use cpa_usage_plugin.Accounting.Truncate.{cut-Sound, cut-Keeps, cut-reads}

module _ {R : Type 0} (zero_record : R) (frozen : List Slice) where
  no_blocks-Sound :
      (l : AccountingBlocks R)
      → Sound l frozen
      → Sound (record l { range_blocks = []; blocks = []; shared = []; count = 0 }) frozen
  no_blocks-Sound l ok = record {
    fits = λ k s h. absurd (cc);
    apart = λ k j s t h g e. absurd (cc);
    full = λ k s h lt. absurd (cc);
    counted = λ k s h e. absurd (cc);
    none_counted = λ h. refl;
    marks = omega arith;
    there = ok.there;
    kept = λ i f k s h g e. absurd (cc);
  }

  none_left :
      (m : AccountingBlocks R) (i : ℕ)
      → at (record m { range_blocks = []; blocks = []; shared = []; count = 0 }) i ≡ none
  unfolding at
  none_left m i = refl

  -- The cut where the number of blocks and of records are given on their own.
  cut-Changed :
      (l : AccountingBlocks R) (blocks last end n groups : ℕ) (s : Slice)
      → Sound l frozen
      → get_elem? l.blocks last ≡ some s
      → end ≤ s.len
      → ((i : ℕ) (f : Slice) → get_elem? frozen i ≡ some f → s.array ≢ f.array)
      → blocks ≡ suc last
      → n ≡ last * 256 + end
      → Changed frozen l
          (record (cut_block zero_record l last end) {
            blocks = take blocks (cut_block zero_record l last end).blocks;
            shared = take blocks (cut_block zero_record l last end).shared;
            count = n;
            range_blocks = take groups (cut_block zero_record l last end).range_blocks;
          })
          (λ i. if ltb i n then at l i else none)
          n
  cut-Changed l blocks last end n groups s ok here inside own b e =
      rw (b, e, cut_block, here)
        (record {
          sound = cut-Sound zero_record frozen l ok last end s here inside own groups;
          keeps = cut-Keeps zero_record frozen l ok last end s here inside own;
          reads = cut-reads zero_record frozen l ok last end s here inside own groups;
          size = refl;
        })

  pub truncate-Changed :
      (l : AccountingBlocks R) (n : ℕ)
      → Sound l frozen
      → n ≤ l.count
      → Changed frozen l (truncate zero_record l n) (λ i. if ltb i n then at l i else none) n
  unfolding truncate
  truncate-Changed l n ok inside =
      let l1 = invalidate_from l n in
      let a : Same frozen l l1 = invalidate_from-Same frozen l n ok in
      elim (Bool-cases (n == 0)) [
        | inl e ↦
            let empty : n ≡ 0 = ground (arith, e) in
            rw (truncate, e)
              (record {
                sound = no_blocks-Sound l1 a.sound;
                keeps = a.keeps;
                reads = λ i. none_left l1 i ∙ ground (arith, empty);
                size = sym empty;
              })
        | inr e ↦
            let blocks = (n + 256 - 1) / 256 in
            let last = blocks - 1 in
            let l2 = writable_block zero_record l1 last in
            let b : Same frozen l1 l2 = writable_block-Same frozen zero_record l1 last a.sound in
            let (s, here, room) =
              block_of l1 frozen (n - 1) a.sound (ground (arith, a.size, inside, e)) in
            let at_last : (n - 1) / 256 ≡ last = ground (arith, e) in
            let own =
              writable_block-Own frozen zero_record l1 last s a.sound
                (sym (ap (get_elem? l1.blocks) at_last) ∙ here) in
            let end = n - last * 256 in
            let c =
              cut-Changed l2 blocks last end n ((n + range_block_records - 1) / range_block_records)
                own.slice b.sound own.here (ground (arith, own.same_len, room, e)) own.own
                (ground (arith, e)) (ground (arith, e)) in
            rw (truncate, e)
              (record {
                sound = c.sound;
                keeps = λ i f h. c.keeps i f h ∙ b.keeps i f h ∙ a.keeps i f h;
                reads = λ i.
                    c.reads i ∙ ap (λ old. if ltb i n then old else none) (b.reads i ∙ a.reads i);
                size = refl;
              })
      ]

  -- What remains of a list from place `i` on, one place down, while `n` places are moved.
  abbrev moved_down : (ℕ → Option R) → ℕ → ℕ → ℕ → Option R
  moved_down old i n j = if leb i j && ltb j (i + n) then old (suc j) else old j

  pub at-some :
      (l : AccountingBlocks R) (i : ℕ) → Sound l frozen → i < l.count → (r : R) × (at l i ≡ some r)
  unfolding at
  at-some l i ok inside =
      let (s, here, low) = block_of l frozen i ok inside in
      let (r, found) =
        get_elem?-in (array_at l.arrays s.array) (i % 256)
          (omega (arith, low, (ok.fits (i / 256) s here).1)) in
      (r, rw (at, here, found) (ground (arith, low)))

  pub shift_down-Changed :
      (l : AccountingBlocks R) (i n : ℕ)
      → Sound l frozen
      → i + n < l.count
      → Changed frozen l (shift_down zero_record l i n) (moved_down (at l) i n) l.count
  shift_down-Changed l i zero ok inside = record {
    sound = ok;
    keeps = λ k f h. refl;
    reads = λ j. ground arith;
    size = refl;
  }
  shift_down-Changed l i (suc n) ok inside =
      let (r, here) = at-some l (suc i) ok (omega (arith, inside)) in
      let a = mutable_at-Changed zero_record frozen l i r ok (omega (arith, inside)) in
      let b =
        shift_down-Changed (mutable_at zero_record l i r) (suc i) n a.sound
          (omega (arith, a.size, inside)) in
      rw (shift_down, here)
        (record {
          sound = b.sound;
          keeps = λ k f h. b.keeps k f h ∙ a.keeps k f h;
          reads = λ j. elim (Bool-cases (j == i)) [
            | inl e ↦
                let same : j ≡ i = ground (arith, e) in
                let next : at l (suc j) ≡ some r = rw same here in
                ground (arith, b.reads j, a.reads j, e, next)
            | inr ne ↦ elim (Bool-cases (suc j == i)) [
              | inl e ↦ ground (arith, b.reads j, a.reads j, e, ne)
              | inr other ↦ ground (arith, b.reads j, a.reads j, a.reads (suc j), ne, other)
            ]
          ];
          size = b.size ∙ a.size;
        })

  -- The list without its record at place `i`.
  abbrev pub without : (ℕ → Option R) → ℕ → ℕ → Option R
  without old i j = if ltb j i then old j else old (suc j)

  pub remove-Changed :
      (l : AccountingBlocks R) (i : ℕ)
      → Sound l frozen
      → i < l.count
      → Changed frozen l
          (remove zero_record l i)
          (λ j. if ltb j (l.count - 1) then without (at l) i j else none)
          (l.count - 1)
  unfolding remove
  remove-Changed l i ok inside =
      let n = l.count - (i + 1) in
      let a = shift_down-Changed l i n ok (omega (arith, inside)) in
      let m = shift_down zero_record l i n in
      let b = truncate-Changed m (m.count - 1) a.sound (omega arith) in
      record {
        sound = b.sound;
        keeps = λ k f h. b.keeps k f h ∙ a.keeps k f h;
        reads = λ j. ground (arith, b.reads j, a.reads j, a.size, inside);
        size = b.size ∙ omega (arith, a.size);
      }
