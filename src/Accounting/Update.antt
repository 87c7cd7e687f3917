-- ===== src/Accounting/Update.antt =====
-- mutableAt with the write through its pointer, and append: what they do to the records and to the
-- snapshots.
use cpa_usage_plugin.Common.{
  ℕ, zero, suc, ◌+◌, ◌*◌, ◌/◌, ◌%◌, ◌≤◌, ◌<◌, ◌≡◌, refl, sym, ◌∙◌, ap, ◌==◌, if◌then◌else◌, Option,
  some, List, length, get_elem?, arith, get_elem?-in, get_elem?-lt, Bool-cases, inl, inr, ◌⊎◌,
}
use cpa_usage_plugin.Accounting.{Slice, AccountingBlocks}
use cpa_usage_plugin.Accounting.Blocks.{
  write, at, invalidate_group, writable_block, range_block_records, mutable_at,
}
use cpa_usage_plugin.Accounting.Sound.{Sound, Keeps, write-Keeps}
use cpa_usage_plugin.Accounting.Preserve.{write-Sound}
use cpa_usage_plugin.Accounting.Reads.{at-write}
use cpa_usage_plugin.Accounting.Prepare.{
  Same, Own, invalidate_group-Same, writable_block-Same, writable_block-Own,
}

module _ {R : Type 0} where
  -- The block of a record.
  pub block_of :
      (l : AccountingBlocks R) (frozen : List Slice) (i : ℕ)
      → Sound l frozen
      → i < l.count
      → (s : Slice) × (get_elem? l.blocks (i / 256) ≡ some s) × (i % 256 < s.len)
  block_of l frozen i ok inside = elim (length-cases (length l.blocks)) [
    | inl e ↦ absurd (omega (arith, ok.none_counted e, inside))
    | inr (last, e) ↦
        let (t, at_last) = get_elem?-in l.blocks last (omega (arith, e)) in
        let total : l.count ≡ last * 256 + t.len = ok.counted last t at_last (sym e) in
        let short : t.len ≤ 256 = (ok.fits last t at_last).2 in
        let (s, here) = get_elem?-in l.blocks (i / 256) (omega (arith, e, total, short, inside)) in
        (
          s,
          here,
          elim (Bool-cases (suc (i / 256) == length l.blocks)) [
            | inl same ↦
                let size = ok.counted (i / 256) s here (ground (arith, same)) in
                omega (arith, size, inside)
            | inr other ↦
                let below : i / 256 < length l.blocks = get_elem?-lt l.blocks (i / 256) s here in
                let whole : s.len ≡ 256 = ok.full (i / 256) s here (ground (arith, below, other)) in
                omega (arith, whole)
          ],
        )
  ]
    where
      length-cases : (n : ℕ) → (n ≡ 0) ⊎ ((m : ℕ) × (n ≡ suc m))
      length-cases zero = inl refl
      length-cases (suc m) = inr (m, refl)

  -- One record changes: the blocks hold `new i` at each index, and the snapshots what they held.
  pub record Changed (frozen : List Slice) (l l' : AccountingBlocks R) (new : ℕ → Option R)
      (count : ℕ) : Type 0 where
    pub sound : Sound l' frozen
    pub keeps : Keeps frozen l.arrays l'.arrays
    pub reads : (i : ℕ) → at l' i ≡ new i
    pub size : l'.count ≡ count

  module _ (zero_record : R) (frozen : List Slice) where
    write-Changed :
        (l : AccountingBlocks R) (i : ℕ) (r : R) (s : Slice)
        → Sound l frozen
        → i < l.count
        → Own frozen l (i / 256) s
        → Changed frozen l
            (write l (i / 256) (i % 256) r)
            (λ j. if j == i then some r else at l j)
            l.count
    write-Changed l i r s ok inside own =
        let (t, here, room) = block_of l frozen i ok inside in
        let same : t ≡ own.slice = ground (arith, sym here, own.here) in
        record {
          sound = write-Sound l frozen ok (i / 256) (i % 256) r t here;
          keeps =
              rw (write, here)
                (write-Keeps l frozen ok (i / 256) t (i % 256) r here
                  (λ n f at e. absurd (own.own n f at (ap (λ x. x.array) (sym same) ∙ e))));
          reads = λ j. at-write l frozen ok (i / 256) (i % 256) r t j here room ∙ ground arith;
          size = rw (write, here) refl;
        }

    pub mutable_at-Changed :
        (l : AccountingBlocks R) (i : ℕ) (r : R)
        → Sound l frozen
        → i < l.count
        → Changed frozen l
            (mutable_at zero_record l i r)
            (λ j. if j == i then some r else at l j)
            l.count
    unfolding mutable_at
    mutable_at-Changed l i r ok inside =
        let l1 = invalidate_group l (i / range_block_records) in
        let a : Same frozen l l1 = invalidate_group-Same frozen l (i / range_block_records) ok in
        let l2 = writable_block zero_record l1 (i / 256) in
        let b : Same frozen l1 l2 = writable_block-Same frozen zero_record l1 (i / 256) a.sound in
        let (s, here, _) = block_of l1 frozen i a.sound (omega (arith, a.size, inside)) in
        let own = writable_block-Own frozen zero_record l1 (i / 256) s a.sound here in
        let c = write-Changed l2 i r s b.sound (omega (arith, a.size, b.size, inside)) own in
        record {
          sound = c.sound;
          keeps = λ n f at. c.keeps n f at ∙ b.keeps n f at ∙ a.keeps n f at;
          reads =
              λ j. c.reads j ∙ ap (λ old. if j == i then some r else old) (b.reads j ∙ a.reads j);
          size = c.size ∙ b.size ∙ a.size;
        }
