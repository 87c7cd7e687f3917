-- ===== src/Accounting/PutLast.antt =====
-- append, once the last block has room: the record after the last one.
use cpa_usage_plugin.Common.{
  ℕ, ◌/◌, suc, ◌+◌, ◌-◌, ◌*◌, ◌/◌, ◌≡◌, refl, sym, ◌∙◌, ap, false, ◌==◌, if◌then◌else◌, some, List,
  length, get_elem?, set, arith, get_elem?-lt, get_elem?-set, length-set, set-cases, Bool-cases,
  inl, inr,
}
use cpa_usage_plugin.Accounting.{Slice, AccountingBlocks}
use cpa_usage_plugin.Accounting.Blocks.{
  invalidate_group, range_block_records, first_block, make_room, append, write, at, put_last,
}
use cpa_usage_plugin.Accounting.Sound.{Sound, write-Keeps}
use cpa_usage_plugin.Accounting.Preserve.{write-Sound}
use cpa_usage_plugin.Accounting.Reads.{at-write}
use cpa_usage_plugin.Accounting.Prepare.{Same, invalidate_group-Same}
use cpa_usage_plugin.Accounting.Update.{Changed}
use cpa_usage_plugin.Accounting.Append.{Room, first_block-Same, first_block-length, make_room-Same}

module _ {R : Type 0} (frozen : List Slice) where
  module _ (l : AccountingBlocks R) (ok : Sound l frozen) (room : Room l) where
    abbrev last : ℕ
    last = length l.blocks - 1

    abbrev longer : Slice
    longer = record { array = room.slice.array; len = room.slice.len + 1 }

    last-length : suc last ≡ length l.blocks
    last-length = omega (arith, get_elem?-lt l.blocks last room.slice room.here)

    longer-Sound :
        Sound (record l { blocks = set l.blocks last longer; count = l.count + 1 }) frozen
    longer-Sound =
        let there : length (set l.blocks last longer) ≡ length l.blocks =
          length-set l.blocks last longer in
        let old = ok.fits last room.slice room.here in
        let total = ok.counted last room.slice room.here last-length in
        record {
          fits = λ k t h. elim (set-cases l.blocks last longer k t h) [
            | inl (_, same) ↦ rw same (old.0, omega (arith, room.room), omega (arith, room.short))
            | inr (_, before) ↦ ok.fits k t before
          ];
          apart = λ k j t u h g e. elim (set-cases l.blocks last longer k t h) [
            | inl (ik, same) ↦ elim (set-cases l.blocks last longer j u g) [
              | inl (jk, _) ↦ ik ∙ sym jk
              | inr (_, before) ↦
                  ik
                  ∙ ok.apart last j room.slice u room.here before (ap (λ x. x.array) (sym same) ∙ e)
            ]
            | inr (_, before) ↦ elim (set-cases l.blocks last longer j u g) [
              | inl (jk, same) ↦
                  ok.apart k last t room.slice before room.here (e ∙ ap (λ x. x.array) same)
                  ∙ sym jk
              | inr (_, before') ↦ ok.apart k j t u before before' e
            ]
          ];
          full = λ k t h lt. elim (set-cases l.blocks last longer k t h) [
            | inl (ik, same) ↦ absurd (omega (arith, lt, there, ik, last-length))
            | inr (_, before) ↦ ok.full k t before (omega (arith, lt, there))
          ];
          counted = λ k t h at_end. elim (set-cases l.blocks last longer k t h) [
            | inl (ik, same) ↦ rw (same, ik) (omega (arith, total))
            | inr (ne, before) ↦ absurd (ground (arith, at_end, there, ne, last-length))
          ];
          none_counted = λ h. absurd (omega (arith, h, there, last-length));
          marks = omega (arith, there, ok.marks);
          there = ok.there;
          kept = λ i f k t h g e. elim (set-cases l.blocks last longer k t g) [
            | inl (ik, same) ↦
                let was =
                  ok.kept i f last room.slice h room.here (ap (λ x. x.array) (sym same) ∙ e) in
                rw (ik, same) (was.0, omega (arith, was.1))
            | inr (_, before) ↦ ok.kept i f k t h before e
          ];
        }

    abbrev lengthened : AccountingBlocks R
    lengthened = record l { blocks = set l.blocks last longer; count = l.count + 1 }

    longer-here : get_elem? (set l.blocks last longer) last ≡ some longer
    longer-here = get_elem?-set l.blocks last longer last ∙ ground (arith, last-length)

    put_last-write : (r : R) → put_last l r ≡ write lengthened last room.slice.len r
    unfolding put_last
    put_last-write r = rw (put_last, room.here, write, room.here, longer-here) refl

    lengthened-reads : (i : ℕ) → (i == l.count) ≡ false → at lengthened i ≡ at l i
    unfolding at
    lengthened-reads i ne =
        let total : l.count ≡ last * 256 + room.slice.len =
          ok.counted last room.slice room.here last-length in
        elim (Bool-cases (i / 256 == last)) [
          | inl e ↦
              let same : i / 256 ≡ last = ground (arith, e) in
              rw (at, same, longer-here, room.here) (ground (arith, total, e, ne))
          | inr other ↦
              let after : get_elem? (set l.blocks last longer) (i / 256)
                  ≡ get_elem? l.blocks (i / 256) =
                get_elem?-set l.blocks last longer (i / 256) ∙ ground (arith, other) in
              rw (at, after) refl
        ]

    pub put_last-Changed :
        (r : R)
        → Changed frozen l
            (put_last l r)
            (λ i. if i == l.count then some r else at l i)
            (l.count + 1)
    put_last-Changed r =
        let total : l.count ≡ last * 256 + room.slice.len =
          ok.counted last room.slice room.here last-length in
        rw (put_last-write r) (record {
          sound =
              write-Sound lengthened frozen longer-Sound last room.slice.len r longer longer-here;
          keeps =
              rw (write, longer-here)
                (write-Keeps l frozen ok last room.slice room.slice.len r room.here
                  (λ i f at e. (ok.kept i f last room.slice at room.here e).1));
          reads = λ i.
              at-write lengthened frozen longer-Sound last room.slice.len r longer i longer-here
                (omega arith)
              ∙ elim (Bool-cases (i == l.count)) [
                | inl e ↦ ground (arith, total, e, room.short)
                | inr ne ↦ rw (lengthened-reads i ne) (ground (arith, total, ne, room.short))
              ];
          size = rw (write, longer-here) refl;
        })

  pub append-Changed :
      (zero_record : R) (l : AccountingBlocks R) (r : R)
      → Sound l frozen
      → Changed frozen l
          (append zero_record l r)
          (λ i. if i == l.count then some r else at l i)
          (l.count + 1)
  unfolding append
  append-Changed zero_record l r ok =
      let l1 = invalidate_group l (l.count / range_block_records) in
      let a : Same frozen l l1 =
        invalidate_group-Same frozen l (l.count / range_block_records) ok in
      let l2 = first_block zero_record l1 in
      let b : Same frozen l1 l2 = first_block-Same zero_record frozen l1 a.sound in
      let (c, room) =
        make_room-Same zero_record frozen l2 b.sound (first_block-length zero_record frozen l1) in
      let d = put_last-Changed (make_room zero_record l2) c.sound room r in
      let size : (make_room zero_record l2).count ≡ l.count = c.size ∙ b.size ∙ a.size in
      record {
        sound = d.sound;
        keeps = λ n f at. d.keeps n f at ∙ c.keeps n f at ∙ b.keeps n f at ∙ a.keeps n f at;
        reads = λ i.
            let same = c.reads i ∙ b.reads i ∙ a.reads i in
            d.reads i
            ∙ ap (λ n. if i == n then some r else at (make_room zero_record l2) i) size
            ∙ ap (λ old. if i == l.count then some r else old) same;
        size = omega (arith, d.size, size);
      }
