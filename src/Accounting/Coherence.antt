-- ===== src/Accounting/Coherence.antt =====
-- go/range_cache.go: a call that leaves the identity of a group's range block valid, and the records
-- of the group.
use cpa_usage_plugin.Common.{
  ℕ, zero, suc, ◌+◌, ◌-◌, ◌/◌, ◌≤◌, ◌<◌, ◌≡◌, sym, ◌∙◌, ap, true, false, ltb, ◌==◌, List, arith,
  Bool-cases, Option-cases, inl, inr, ◌⊎◌,
}
use cpa_usage_plugin.Accounting.{Slice, AccountingBlocks}
use cpa_usage_plugin.Accounting.Blocks.{
  is_set, invalidate_group, invalidate_from, at, mutable_at, append, truncate, shift_down, remove,
}
use cpa_usage_plugin.Accounting.Sound.{Sound}
use cpa_usage_plugin.Accounting.Update.{mutable_at-Changed}
use cpa_usage_plugin.Accounting.PutLast.{append-Changed}
use cpa_usage_plugin.Accounting.Shrink.{
  truncate-Changed, remove-Changed, shift_down-Changed, at-some,
}
use cpa_usage_plugin.Accounting.Freeze.{at-past}
use cpa_usage_plugin.Accounting.Refinement.{
  Call, append_record, write_record, truncate_to, remove_record, take_snapshot, Frozen, on_blocks,
  InBounds,
}
use cpa_usage_plugin.Accounting.Simulation.{freeze-at}
use cpa_usage_plugin.Accounting.Stale.{
  HasIdentity, Valid, group-retires, group-invalid, group-keeps, from-retires, from-invalid,
  mutable_at-ranges, append-ranges, truncate-valid,
}

module _ {R : Type 0} (zero_record : R) (frozen : List Slice) where
  mutable_at-invalid :
      (l : AccountingBlocks R) (i : ℕ) (r : R) (id : ℕ)
      → is_set l.valid id ≡ false
      → is_set (mutable_at zero_record l i r).valid id ≡ false
  mutable_at-invalid l i r id h =
      rw ((mutable_at-ranges zero_record l i r).valid) (group-invalid l (i / 2048) id h)

  mutable_at-retires :
      (l : AccountingBlocks R) (i : ℕ) (r : R) (id : ℕ)
      → HasIdentity l (i / 2048) id
      → is_set (mutable_at zero_record l i r).valid id ≡ false
  mutable_at-retires l i r id has =
      rw ((mutable_at-ranges zero_record l i r).valid) (group-retires l (i / 2048) id has)

  mutable_at-keeps :
      (l : AccountingBlocks R) (i : ℕ) (r : R) (g id : ℕ)
      → (g == i / 2048) ≡ false
      → HasIdentity l g id
      → HasIdentity (mutable_at zero_record l i r) g id
  mutable_at-keeps l i r g id ne has =
      rw ((mutable_at-ranges zero_record l i r).ranges) (group-keeps l (i / 2048) g id ne has)

  shift_down-invalid :
      (l : AccountingBlocks R) (i n id : ℕ)
      → is_set l.valid id ≡ false
      → is_set (shift_down zero_record l i n).valid id ≡ false
  shift_down-invalid l i zero id h = h
  shift_down-invalid l i (suc n) id h = elim (Option-cases (at l (suc i))) [
    | inl gone ↦ rw (shift_down, gone) h
    | inr (r, here) ↦
        rw (shift_down, here)
          (shift_down-invalid (mutable_at zero_record l i r) (suc i) n id
            (mutable_at-invalid l i r id h))
  ]

  -- A group is untouched, or it is invalid.
  shift_down-either :
      (l : AccountingBlocks R) (i n g id : ℕ)
      → HasIdentity l g id
      → (is_set (shift_down zero_record l i n).valid id ≡ false)
        ⊎ HasIdentity (shift_down zero_record l i n) g id
  shift_down-either l i zero g id has = inr has
  shift_down-either l i (suc n) g id has = elim (Option-cases (at l (suc i))) [
    | inl gone ↦ rw (shift_down, gone) (inr has)
    | inr (r, here) ↦
        rw (shift_down, here)
          (elim (Bool-cases (g == i / 2048)) [
            | inl e ↦
                let same : g ≡ i / 2048 = ground (arith, e) in
                inl (
                  shift_down-invalid (mutable_at zero_record l i r) (suc i) n id
                    (mutable_at-retires l i r id (rw (← same) has)))
            | inr ne ↦
                shift_down-either (mutable_at zero_record l i r) (suc i) n g id
                  (mutable_at-keeps l i r g id ne has)
          ])
  ]

  shift_down-retires :
      (l : AccountingBlocks R) (i n g id p : ℕ)
      → Sound l frozen
      → i + n < l.count
      → HasIdentity l g id
      → i ≤ p
      → p < i + n
      → p / 2048 ≡ g
      → is_set (shift_down zero_record l i n).valid id ≡ false
  shift_down-retires l i zero g id p ok inside has low high e = absurd (omega (arith, low, high))
  shift_down-retires l i (suc n) g id p ok inside has low high e =
      let (r, here) = at-some zero_record frozen l (suc i) ok (omega (arith, inside)) in
      let a = mutable_at-Changed zero_record frozen l i r ok (omega (arith, inside)) in
      rw (shift_down, here)
        (elim (Bool-cases (g == i / 2048)) [
          | inl same ↦
              let eq : g ≡ i / 2048 = ground (arith, same) in
              shift_down-invalid (mutable_at zero_record l i r) (suc i) n id
                (mutable_at-retires l i r id (rw (← eq) has))
          | inr ne ↦
              shift_down-retires (mutable_at zero_record l i r) (suc i) n g id p a.sound
                (omega (arith, a.size, inside)) (mutable_at-keeps l i r g id ne has)
                (ground (arith, low, ne, e)) (omega (arith, high)) e
        ])

  remove-fresh :
      (l : AccountingBlocks R) (i g id p : ℕ)
      → Sound l frozen
      → i < l.count
      → HasIdentity l g id
      → Valid (remove zero_record l i) id
      → p / 2048 ≡ g
      → at (remove zero_record l i) p ≡ at l p
  unfolding remove
  remove-fresh l i g id p ok inside has valid e =
      let n = l.count - (i + 1) in
      let m = shift_down zero_record l i n in
      let a = remove-Changed zero_record frozen l i ok inside in
      let after : is_set (invalidate_from m (m.count - 1)).valid id ≡ true =
        ap (λ v. is_set v id) (sym (truncate-valid zero_record m (m.count - 1))) ∙ valid in
      elim (Bool-cases (ltb p i)) [
        | inl lt ↦ ground (arith, a.reads p, lt, inside)
        | inr ge ↦ elim (Bool-cases (ltb p (l.count - 1))) [
          | inl lt ↦
              let gone =
                shift_down-retires l i n g id p ok (omega (arith, inside)) has (ground (arith, ge))
                  (ground (arith, lt, inside)) e in
              absurd (ground (arith, after, from-invalid m (m.count - 1) id gone))
          | inr past ↦ elim (Bool-cases (ltb p l.count)) [
            | inr out ↦ ground (arith, a.reads p, past, at-past l frozen ok p (ground (arith, out)))
            | inl top ↦ elim (shift_down-either l i n g id has) [
              | inl gone ↦ absurd (ground (arith, after, from-invalid m (m.count - 1) id gone))
              | inr still ↦
                  let size =
                    (shift_down-Changed zero_record frozen l i n ok (omega (arith, inside))).size in
                  let low : (m.count - 1) / 2048 ≤ g = ground (arith, size, past, top, e) in
                  absurd (ground (arith, after, from-retires m (m.count - 1) g id low still))
            ]
          ]
        ]
      ]

  mutable_at-fresh :
      (l : AccountingBlocks R) (i : ℕ) (r : R) (g id p : ℕ)
      → Sound l frozen
      → i < l.count
      → HasIdentity l g id
      → Valid (mutable_at zero_record l i r) id
      → p / 2048 ≡ g
      → at (mutable_at zero_record l i r) p ≡ at l p
  mutable_at-fresh l i r g id p ok inside has valid e =
      let a = mutable_at-Changed zero_record frozen l i r ok inside in
      elim (Bool-cases (p == i)) [
        | inl same ↦
            let eq : g ≡ i / 2048 = ground (arith, same, e) in
            absurd (ground (arith, valid, mutable_at-retires l i r id (rw (← eq) has)))
        | inr ne ↦ ground (arith, a.reads p, ne)
      ]

  append-fresh :
      (l : AccountingBlocks R) (r : R) (g id p : ℕ)
      → Sound l frozen
      → HasIdentity l g id
      → Valid (append zero_record l r) id
      → p / 2048 ≡ g
      → at (append zero_record l r) p ≡ at l p
  append-fresh l r g id p ok has valid e =
      let a = append-Changed frozen zero_record l r ok in
      elim (Bool-cases (p == l.count)) [
        | inl same ↦
            let eq : g ≡ l.count / 2048 = ground (arith, same, e) in
            let after : is_set (invalidate_group l (l.count / 2048)).valid id ≡ true =
              ap (λ v. is_set v id) (sym (append-ranges zero_record l r).valid) ∙ valid in
            absurd (ground (arith, after, group-retires l (l.count / 2048) id (rw (← eq) has)))
        | inr ne ↦ ground (arith, a.reads p, ne)
      ]

  truncate-fresh :
      (l : AccountingBlocks R) (n g id p : ℕ)
      → Sound l frozen
      → n ≤ l.count
      → HasIdentity l g id
      → Valid (truncate zero_record l n) id
      → p / 2048 ≡ g
      → at (truncate zero_record l n) p ≡ at l p
  truncate-fresh l n g id p ok inside has valid e =
      let a = truncate-Changed zero_record frozen l n ok inside in
      elim (Bool-cases (ltb p n)) [
        | inl lt ↦ ground (arith, a.reads p, lt)
        | inr past ↦
            let after : is_set (invalidate_from l n).valid id ≡ true =
              ap (λ v. is_set v id) (sym (truncate-valid zero_record l n)) ∙ valid in
            let low : n / 2048 ≤ g = ground (arith, past, e) in
            absurd (ground (arith, after, from-retires l n g id low has))
      ]

  -- Where the blocks are sound and the range block of a group has an identity that is still valid
  -- after a call within the bounds, the call has changed no record of the group.
  pub on_blocks-fresh :
      (s : Frozen R) (c : Call R) (g id p : ℕ)
      → Sound s.blocks frozen
      → InBounds s.blocks.count c
      → HasIdentity s.blocks g id
      → Valid (on_blocks zero_record s c).blocks id
      → p / 2048 ≡ g
      → at (on_blocks zero_record s c).blocks p ≡ at s.blocks p
  unfolding on_blocks InBounds
  on_blocks-fresh s (append_record r) g id p ok inside has valid e =
      append-fresh s.blocks r g id p ok has valid e
  on_blocks-fresh s (write_record i r) g id p ok inside has valid e =
      mutable_at-fresh s.blocks i r g id p ok inside has valid e
  on_blocks-fresh s (truncate_to n) g id p ok inside has valid e =
      truncate-fresh s.blocks n g id p ok inside has valid e
  on_blocks-fresh s (remove_record i) g id p ok inside has valid e =
      remove-fresh s.blocks i g id p ok inside has valid e
  on_blocks-fresh s take_snapshot g id p ok inside has valid e = freeze-at s.blocks p
