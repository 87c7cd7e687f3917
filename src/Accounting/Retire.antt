-- ===== src/Accounting/Retire.antt =====
-- go/range_cache.go: the identities of range blocks through each step of the accounting blocks.
use cpa_usage_plugin.Common.{
  ℕ, zero, suc, ◌+◌, ◌-◌, ◌*◌, ◌/◌, ◌≤◌, ◌<◌, ◌≡◌, refl, ◌∙◌, ap, false, ltb, ◌==◌, length,
  get_elem?, arith, get_elem?-take, length-set, Bool-cases, Option-cases, inl, inr, ◌⊎◌,
}
use cpa_usage_plugin.Accounting.{RangeBlock, AccountingBlocks}
use cpa_usage_plugin.Accounting.Blocks.{
  is_set, retire, at, invalidate_group, invalidate_groups, invalidate_from, writable_block,
  mutable_at, append, cut_block, truncate, shift_down, remove, freeze,
}
use cpa_usage_plugin.Accounting.Refinement.{
  Call, append_record, write_record, truncate_to, remove_record, take_snapshot, Frozen, on_blocks,
}
use cpa_usage_plugin.Accounting.Stale.{
  HasIdentity, Untouched, group-retires, group-invalid, group-keeps, from-retires,
  mutable_at-ranges, append-ranges, truncate-valid, writable_block-Untouched, cut_block-Untouched,
}

module _ {R : Type 0} where
  pub record Retires (l l' : AccountingBlocks R) : Type 0 where
    pub grows : length l.valid ≤ length l'.valid
    pub dead :
        (id : ℕ) → id < length l.valid → is_set l.valid id ≡ false → is_set l'.valid id ≡ false
    pub kept :
        (g id : ℕ)
        → id < length l.valid
        → HasIdentity l g id
        → (is_set l'.valid id ≡ false) ⊎ HasIdentity l' g id

  pub Retires-refl : (l : AccountingBlocks R) → Retires l l
  Retires-refl l = record { grows = omega arith; dead = λ id h k. k; kept = λ g id h k. inr k }

  pub Retires-trans : (l m n : AccountingBlocks R) → Retires l m → Retires m n → Retires l n
  Retires-trans l m n a b = record {
    grows = omega (arith, a.grows, b.grows);
    dead = λ id h k. b.dead id (omega (arith, a.grows, h)) (a.dead id h k);
    kept = λ g id h k. elim (a.kept g id h k) [
      | inl gone ↦ inl (b.dead id (omega (arith, a.grows, h)) gone)
      | inr still ↦ b.kept g id (omega (arith, a.grows, h)) still
    ];
  }

  Untouched-Retires : (l l' : AccountingBlocks R) → Untouched l l' → Retires l l'
  Untouched-Retires l l' u = record {
    grows = rw (u.valid) (omega arith);
    dead = λ id h k. ap (λ v. is_set v id) u.valid ∙ k;
    kept = λ g id h k. inr (k.0, ap (λ r. get_elem? r g) u.ranges ∙ k.1, k.2);
  }

  pub length-retire :
      (l : AccountingBlocks R) (b : RangeBlock) → length (retire l.valid b) ≡ length l.valid
  length-retire l b = elim (Option-cases b.identity) [
    | inl e ↦ rw (retire, e) refl
    | inr (id, e) ↦ rw (retire, e) (length-set l.valid id false)
  ]

  length-invalidate_group :
      (l : AccountingBlocks R) (group : ℕ)
      → length (invalidate_group l group).valid ≡ length l.valid
  unfolding invalidate_group
  length-invalidate_group l group = elim (Option-cases (get_elem? l.range_blocks group)) [
    | inl gone ↦ rw (invalidate_group, gone) refl
    | inr (b, here) ↦ rw (invalidate_group, here) (length-retire l b)
  ]

  group-Retires : (l : AccountingBlocks R) (group : ℕ) → Retires l (invalidate_group l group)
  group-Retires l group = record {
    grows = omega (arith, length-invalidate_group l group);
    dead = λ id h k. group-invalid l group id k;
    kept = λ g id h k. elim (Bool-cases (g == group)) [
      | inl e ↦
          let same : g ≡ group = ground (arith, e) in inl (group-retires l group id (rw (← same) k))
      | inr ne ↦ inr (group-keeps l group g id ne k)
    ];
  }

  groups-Retires : (l : AccountingBlocks R) (group n : ℕ) → Retires l (invalidate_groups l group n)
  groups-Retires l group zero = Retires-refl l
  groups-Retires l group (suc n) =
      Retires-trans l (invalidate_group l group) _ (group-Retires l group)
        (groups-Retires (invalidate_group l group) (suc group) n)

  from-Retires : (l : AccountingBlocks R) (first : ℕ) → Retires l (invalidate_from l first)
  unfolding invalidate_from
  from-Retires l first = groups-Retires l (first / 2048) (length l.range_blocks - first / 2048)

  module _ (zero_record : R) where
    mutable_at-Retires :
        (l : AccountingBlocks R) (i : ℕ) (r : R) → Retires l (mutable_at zero_record l i r)
    mutable_at-Retires l i r =
        Retires-trans l (invalidate_group l (i / 2048)) _ (group-Retires l (i / 2048))
          (Untouched-Retires _ _ (mutable_at-ranges zero_record l i r))

    append-Retires : (l : AccountingBlocks R) (r : R) → Retires l (append zero_record l r)
    append-Retires l r =
        Retires-trans l (invalidate_group l (l.count / 2048)) _ (group-Retires l (l.count / 2048))
          (Untouched-Retires _ _ (append-ranges zero_record l r))

    -- The range blocks up to the end are those that the truncation has not made invalid.
    truncate-ranges :
        (l : AccountingBlocks R) (n g : ℕ)
        → g < (n + 2048 - 1) / 2048
        → get_elem? (truncate zero_record l n).range_blocks g
          ≡ get_elem? (invalidate_from l n).range_blocks g
    unfolding truncate
    truncate-ranges l n g h = elim (Bool-cases (n == 0)) [
      | inl e ↦ absurd (ground (arith, h, e))
      | inr e ↦
          let l1 = invalidate_from l n in
          let last = (n + 256 - 1) / 256 - 1 in
          let w = writable_block zero_record l1 last in
          let c = cut_block zero_record w last (n - last * 256) in
          let same =
            (cut_block-Untouched zero_record w last (n - last * 256)).ranges
            ∙ (writable_block-Untouched zero_record l1 last).ranges in
          rw (truncate, e)
            (get_elem?-take ((n + 2048 - 1) / 2048) c.range_blocks g
              ∙ ground (arith, h)
              ∙ ap (λ r. get_elem? r g) same)
    ]

    truncate-Retires : (l : AccountingBlocks R) (n : ℕ) → Retires l (truncate zero_record l n)
    truncate-Retires l n =
        let same = truncate-valid zero_record l n in
        let f = from-Retires l n in
        record {
          grows = rw same f.grows;
          dead = λ id h k. ap (λ v. is_set v id) same ∙ f.dead id h k;
          kept = λ g id h k. elim (Bool-cases (ltb g ((n + 2048 - 1) / 2048))) [
            | inr ge ↦
                inl (ap (λ v. is_set v id) same ∙ from-retires l n g id (ground (arith, ge)) k)
            | inl lt ↦ elim (f.kept g id h k) [
              | inl gone ↦ inl (ap (λ v. is_set v id) same ∙ gone)
              | inr still ↦
                  inr (still.0, truncate-ranges l n g (ground (arith, lt)) ∙ still.1, still.2)
            ]
          ];
        }

    shift_down-Retires :
        (l : AccountingBlocks R) (i n : ℕ) → Retires l (shift_down zero_record l i n)
    shift_down-Retires l i zero = Retires-refl l
    shift_down-Retires l i (suc n) = elim (Option-cases (at l (suc i))) [
      | inl gone ↦ rw (shift_down, gone) (Retires-refl l)
      | inr (r, here) ↦
          rw (shift_down, here)
            (Retires-trans l (mutable_at zero_record l i r) _ (mutable_at-Retires l i r)
              (shift_down-Retires (mutable_at zero_record l i r) (suc i) n))
    ]

    pub freeze-Untouched : (l : AccountingBlocks R) → Untouched l (freeze l).0
    unfolding freeze
    freeze-Untouched l = elim (Bool-cases (l.count == 0)) [
      | inl e ↦ rw (freeze, e) (record { valid = refl; ranges = refl })
      | inr e ↦ rw (freeze, e) (record { valid = refl; ranges = refl })
    ]

    pub on_blocks-Retires :
        (s : Frozen R) (c : Call R) → Retires s.blocks (on_blocks zero_record s c).blocks
    unfolding on_blocks remove
    on_blocks-Retires s (append_record r) = append-Retires s.blocks r
    on_blocks-Retires s (write_record i r) = mutable_at-Retires s.blocks i r
    on_blocks-Retires s (truncate_to n) = truncate-Retires s.blocks n
    on_blocks-Retires s (remove_record i) =
        let m = shift_down zero_record s.blocks i (s.blocks.count - (i + 1)) in
        Retires-trans s.blocks m _ (shift_down-Retires s.blocks i (s.blocks.count - (i + 1)))
          (truncate-Retires m (m.count - 1))
    on_blocks-Retires s take_snapshot = Untouched-Retires _ _ (freeze-Untouched s.blocks)
