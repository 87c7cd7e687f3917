-- ===== src/Accounting/Stale.antt =====
-- go/range_cache.go: how a write makes the identities of range blocks invalid.
use cpa_usage_plugin.Common.{
  ℕ, zero, suc, ◌+◌, ◌-◌, ◌*◌, ◌/◌, ◌%◌, ◌≤◌, ◌<◌, ◌≡◌, refl, ◌∙◌, Bool, true, false, ltb, ◌==◌,
  some, List, length, get_elem?, set, arith, get_elem?-set, get_elem?-lt, get_elem?-past,
  Bool-cases, Option-cases, inl, inr,
}
use cpa_usage_plugin.Accounting.{RangeBlock, AccountingBlocks}
use cpa_usage_plugin.Accounting.Blocks.{
  is_set, retire, invalidated, invalidate_group, invalidate_groups, invalidate_from, write,
  writable_block, mutable_at, first_block, make_room, put_last, append, cut_block, truncate,
  array_at,
}
use cpa_usage_plugin.Accounting.Sound.{is_set-clear_other}

pub is_set-cleared : (bits : List Bool) (i : ℕ) → is_set (set bits i false) i ≡ false
is_set-cleared bits i =
    rw (is_set, get_elem?-set bits i false i)
      (elim (Bool-cases (ltb i (length bits))) [
        | inl lt ↦ ground (arith, lt)
        | inr ge ↦ rw (get_elem?-past bits i (ground (arith, ge))) (ground arith)
      ])

pub is_set-clear :
    (bits : List Bool) (i j : ℕ) → is_set bits j ≡ false → is_set (set bits i false) j ≡ false
is_set-clear bits i j h = elim (Bool-cases (j == i)) [
  | inl e ↦ let same : j ≡ i = ground (arith, e) in rw same (is_set-cleared bits i)
  | inr ne ↦ is_set-clear_other bits i j ne ∙ h
]

module _ {R : Type 0} where
  -- The identity of the range block of a group.
  abbrev pub HasIdentity : AccountingBlocks R → ℕ → ℕ → Type 0
  HasIdentity l group id =
      (b : RangeBlock) × (get_elem? l.range_blocks group ≡ some b) × (b.identity ≡ some id)

  abbrev pub Valid : AccountingBlocks R → ℕ → Type 0
  Valid l id = is_set l.valid id ≡ true

  pub group-retires :
      (l : AccountingBlocks R) (group id : ℕ)
      → HasIdentity l group id
      → is_set (invalidate_group l group).valid id ≡ false
  unfolding invalidate_group
  group-retires l group id (b, here, known) =
      rw (invalidate_group, here, retire, known) (is_set-cleared l.valid id)

  -- What is invalid stays so.
  pub group-invalid :
      (l : AccountingBlocks R) (group id : ℕ)
      → is_set l.valid id ≡ false
      → is_set (invalidate_group l group).valid id ≡ false
  unfolding invalidate_group
  group-invalid l group id h = elim (Option-cases (get_elem? l.range_blocks group)) [
    | inl gone ↦ rw (invalidate_group, gone) h
    | inr (b, here) ↦ elim (Option-cases b.identity) [
      | inl unknown ↦ rw (invalidate_group, here, retire, unknown) h
      | inr (other, known) ↦
          rw (invalidate_group, here, retire, known) (is_set-clear l.valid other id h)
    ]
  ]

  pub group-keeps :
      (l : AccountingBlocks R) (group other id : ℕ)
      → (other == group) ≡ false
      → HasIdentity l other id
      → HasIdentity (invalidate_group l group) other id
  unfolding invalidate_group
  group-keeps l group other id ne (b, here, known) =
      elim (Option-cases (get_elem? l.range_blocks group)) [
        | inl gone ↦ rw (invalidate_group, gone) (b, here, known)
        | inr (c, there) ↦
            rw (invalidate_group, there)
              (
                b,
                get_elem?-set l.range_blocks group (invalidated c) other ∙ ground (arith, ne, here),
                known,
              )
      ]

  groups-invalid :
      (l : AccountingBlocks R) (group n id : ℕ)
      → is_set l.valid id ≡ false
      → is_set (invalidate_groups l group n).valid id ≡ false
  groups-invalid l group zero id h = h
  groups-invalid l group (suc n) id h =
      groups-invalid (invalidate_group l group) (suc group) n id (group-invalid l group id h)

  groups-retire :
      (l : AccountingBlocks R) (group n g id : ℕ)
      → group ≤ g
      → g < group + n
      → HasIdentity l g id
      → is_set (invalidate_groups l group n).valid id ≡ false
  groups-retire l group zero g id low high has = absurd (omega (arith, low, high))
  groups-retire l group (suc n) g id low high has = elim (Bool-cases (g == group)) [
    | inl e ↦
        let same : g ≡ group = ground (arith, e) in
        groups-invalid (invalidate_group l group) (suc group) n id
          (group-retires l group id (rw (← same) has))
    | inr ne ↦
        groups-retire (invalidate_group l group) (suc group) n g id (ground (arith, ne, low))
          (omega (arith, high)) (group-keeps l group g id ne has)
  ]

  pub from-retires :
      (l : AccountingBlocks R) (first g id : ℕ)
      → first / 2048 ≤ g
      → HasIdentity l g id
      → is_set (invalidate_from l first).valid id ≡ false
  unfolding invalidate_from
  from-retires l first g id low (b, here, known) =
      let inside = get_elem?-lt l.range_blocks g b here in
      groups-retire l (first / 2048) (length l.range_blocks - first / 2048) g id low
        (omega (arith, low, inside)) (b, here, known)

  pub from-invalid :
      (l : AccountingBlocks R) (first id : ℕ)
      → is_set l.valid id ≡ false
      → is_set (invalidate_from l first).valid id ≡ false
  unfolding invalidate_from
  from-invalid l first id h =
      groups-invalid l (first / 2048) (length l.range_blocks - first / 2048) id h

  -- A step that leaves the range blocks alone.
  pub record Untouched (l l' : AccountingBlocks R) : Type 0 where
    pub valid : l'.valid ≡ l.valid
    pub ranges : l'.range_blocks ≡ l.range_blocks

  write-Untouched : (l : AccountingBlocks R) (k j : ℕ) (r : R) → Untouched l (write l k j r)
  write-Untouched l k j r = elim (Option-cases (get_elem? l.blocks k)) [
    | inl gone ↦ rw (write, gone) (record { valid = refl; ranges = refl })
    | inr (s, here) ↦ rw (write, here) (record { valid = refl; ranges = refl })
  ]

  put_last-Untouched : (l : AccountingBlocks R) (r : R) → Untouched l (put_last l r)
  unfolding put_last
  put_last-Untouched l r = elim (Option-cases (get_elem? l.blocks (length l.blocks - 1))) [
    | inl gone ↦ rw (put_last, gone) (record { valid = refl; ranges = refl })
    | inr (s, here) ↦ rw (put_last, here, write, here) (record { valid = refl; ranges = refl })
  ]

  module _ (zero_record : R) where
    pub writable_block-Untouched :
        (l : AccountingBlocks R) (k : ℕ) → Untouched l (writable_block zero_record l k)
    unfolding writable_block
    writable_block-Untouched l k = elim (Option-cases (get_elem? l.blocks k)) [
      | inl gone ↦ rw (writable_block, gone) (record { valid = refl; ranges = refl })
      | inr (s, here) ↦ elim (Bool-cases (is_set l.shared k)) [
        | inl e ↦ rw (writable_block, here, e) (record { valid = refl; ranges = refl })
        | inr e ↦ rw (writable_block, here, e) (record { valid = refl; ranges = refl })
      ]
    ]

    first_block-Untouched : (l : AccountingBlocks R) → Untouched l (first_block zero_record l)
    first_block-Untouched l = elim (Bool-cases (length l.blocks == 0)) [
      | inl e ↦ rw (first_block, e) (record { valid = refl; ranges = refl })
      | inr e ↦ rw (first_block, e) (record { valid = refl; ranges = refl })
    ]

    make_room-Untouched : (l : AccountingBlocks R) → Untouched l (make_room zero_record l)
    unfolding make_room
    make_room-Untouched l = elim (Option-cases (get_elem? l.blocks (length l.blocks - 1))) [
      | inl gone ↦ rw (make_room, gone) (record { valid = refl; ranges = refl })
      | inr (s, here) ↦ elim (Bool-cases (s.len == 256)) [
        | inl e ↦ rw (make_room, here, e) (record { valid = refl; ranges = refl })
        | inr e ↦ elim (Bool-cases (s.len == length (array_at l.arrays s.array))) [
          | inl f ↦ rw (make_room, here, e, f) (record { valid = refl; ranges = refl })
          | inr f ↦ rw (make_room, here, e, f) (record { valid = refl; ranges = refl })
        ]
      ]
    ]

    pub cut_block-Untouched :
        (m : AccountingBlocks R) (k end : ℕ) → Untouched m (cut_block zero_record m k end)
    cut_block-Untouched m k end = elim (Option-cases (get_elem? m.blocks k)) [
      | inl gone ↦ rw (cut_block, gone) (record { valid = refl; ranges = refl })
      | inr (s, here) ↦ rw (cut_block, here) (record { valid = refl; ranges = refl })
    ]

    pub mutable_at-ranges :
        (l : AccountingBlocks R) (i : ℕ) (r : R)
        → Untouched (invalidate_group l (i / 2048)) (mutable_at zero_record l i r)
    unfolding mutable_at
    mutable_at-ranges l i r =
        let l1 = invalidate_group l (i / 2048) in
        let a = writable_block-Untouched l1 (i / 256) in
        let b = write-Untouched (writable_block zero_record l1 (i / 256)) (i / 256) (i % 256) r in
        record { valid = b.valid ∙ a.valid; ranges = b.ranges ∙ a.ranges }

    pub append-ranges :
        (l : AccountingBlocks R) (r : R)
        → Untouched (invalidate_group l (l.count / 2048)) (append zero_record l r)
    unfolding append
    append-ranges l r =
        let l1 = invalidate_group l (l.count / 2048) in
        let a = first_block-Untouched l1 in
        let b = make_room-Untouched (first_block zero_record l1) in
        let c = put_last-Untouched (make_room zero_record (first_block zero_record l1)) r in
        record { valid = c.valid ∙ b.valid ∙ a.valid; ranges = c.ranges ∙ b.ranges ∙ a.ranges }

    pub truncate-valid :
        (l : AccountingBlocks R) (n : ℕ)
        → (truncate zero_record l n).valid ≡ (invalidate_from l n).valid
    unfolding truncate
    truncate-valid l n = elim (Bool-cases (n == 0)) [
      | inl e ↦ rw (truncate, e) refl
      | inr e ↦
          let l1 = invalidate_from l n in
          let last = (n + 256 - 1) / 256 - 1 in
          let w = writable_block zero_record l1 last in
          rw (truncate, e)
            ((cut_block-Untouched w last (n - last * 256)).valid
              ∙ (writable_block-Untouched l1 last).valid)
    ]
