-- ===== src/Accounting/Identity.antt =====
-- go/range_cache.go, prepareRangeBlock: the identity of a group's range block, and those of others.
use cpa_usage_plugin.Common.{
  ℕ, zero, suc, ◌-◌, ◌<◌, ◌≡◌, refl, sym, ◌∙◌, ap, Bool, true, false, ◌&&◌, ◌==◌, some, List, [],
  ◌∷◌, ◌++◌, length, get_elem?, set, replicate, arith, get_elem?-append, get_elem?-set,
  get_elem?-lt, get_elem?-in, length-append, length-replicate, Bool-cases, Option-cases, inl, inr,
}
use cpa_usage_plugin.Accounting.{RangeBlock, AccountingBlocks}
use cpa_usage_plugin.Accounting.Blocks.{no_range_block, is_set, retire}
use cpa_usage_plugin.Accounting.RangeSummary.{
  RangeBlocks, or_zero, is_valid, time_bounds, new_range_block, prepare_range_block,
}
use cpa_usage_plugin.Accounting.Stale.{HasIdentity, Valid, is_set-cleared, is_set-clear}
use cpa_usage_plugin.Accounting.Retire.{Retires, length-retire}

is_set-append : (xs ys : List Bool) (i : ℕ) → i < length xs → is_set (xs ++ ys) i ≡ is_set xs i
is_set-append xs ys i h = rw (is_set, get_elem?-append xs ys i) (ground (arith, h))

is_set-new : (xs : List Bool) → is_set (xs ++ (true ∷ [])) (length xs) ≡ true
is_set-new xs = rw (is_set, get_elem?-append xs (true ∷ []) (length xs)) (ground arith)

pub time_bounds-identity :
    (timestamp : ℕ → ℕ) (i n : ℕ) (b : RangeBlock)
    → (time_bounds timestamp b i n).identity ≡ b.identity
unfolding time_bounds
time_bounds-identity timestamp i zero b = refl
time_bounds-identity timestamp i (suc n) b = time_bounds-identity timestamp (suc i) n _

retire-known :
    (valid : List Bool) (b : RangeBlock) (id : ℕ)
    → b.identity ≡ some id
    → is_set (retire valid b) id ≡ false
retire-known valid b id known = rw (retire, known) (is_set-cleared valid id)

module _ {R : Type 0} (l : AccountingBlocks R) (group first end : ℕ) (timestamp : ℕ → ℕ) where
  -- prepareRangeBlock on the range blocks of `l`.
  abbrev pub after : RangeBlocks × RangeBlock
  after =
      prepare_range_block (record { valid = l.valid; blocks = l.range_blocks }) group first end
        timestamp

  abbrev pub ranged : AccountingBlocks R
  ranged = record l { valid = after.0.valid; range_blocks = after.0.blocks }

  abbrev extended : List RangeBlock
  extended = l.range_blocks ++ replicate (suc group - length l.range_blocks) no_range_block

  abbrev old : RangeBlock
  old = or_zero (get_elem? extended group)

  abbrev reused : Bool
  reused = is_valid l.valid old.identity && old.first == first && old.end == end

  extended-HasIdentity :
      (g id : ℕ)
      → HasIdentity l g id
      → (b : RangeBlock) × (get_elem? extended g ≡ some b) × (b.identity ≡ some id)
  extended-HasIdentity g id (b, here, known) = (
    b,
    get_elem?-append l.range_blocks (replicate (suc group - length l.range_blocks) no_range_block) g
        ∙ ground (arith, get_elem?-lt l.range_blocks g b here, here),
    known,
  )

  group-inside : group < length extended
  group-inside = omega (
    arith,
    length-append l.range_blocks (replicate (suc group - length l.range_blocks) no_range_block),
    length-replicate (suc group - length l.range_blocks) no_range_block,
  )

  retire-dead :
      (id : ℕ)
      → id < length l.valid
      → is_set l.valid id ≡ false
      → is_set (retire l.valid old ++ (true ∷ [])) id ≡ false
  retire-dead id h k =
      is_set-append (retire l.valid old) (true ∷ []) id (omega (arith, h, length-retire l old))
      ∙ elim (Option-cases old.identity) [
        | inl e ↦ rw (retire, e) k
        | inr (other, e) ↦ rw (retire, e) (is_set-clear l.valid other id k)
      ]

  pub ranged-Retires : Retires l ranged
  unfolding prepare_range_block
  ranged-Retires = elim (Bool-cases reused) [
    | inl e ↦
        rw (prepare_range_block, e)
          (record {
            grows = omega arith;
            dead = λ id h k. k;
            kept = λ g id h k. inr (extended-HasIdentity g id k);
          })
    | inr e ↦
        rw (prepare_range_block, e)
          (record {
            grows =
                omega (arith, length-append (retire l.valid old) (true ∷ []), length-retire l old);
            dead = retire-dead;
            kept = λ g id h k.
                let (b, here, known) = extended-HasIdentity g id k in
                elim (Bool-cases (g == group)) [
                  | inl eq ↦
                      let same : g ≡ group = ground (arith, eq) in
                      let at_group : get_elem? extended group ≡ some b =
                        ap (get_elem? extended) (sym same) ∙ here in
                      inl (
                        is_set-append (retire l.valid old) (true ∷ []) id
                          (omega (arith, h, length-retire l old))
                        ∙ ap (λ o. is_set (retire l.valid (or_zero o)) id) at_group
                        ∙ retire-known l.valid b id known)
                  | inr ne ↦
                      inr (b, get_elem?-set extended group _ g ∙ ground (arith, ne, here), known)
                ];
          })
  ]

  made : RangeBlock
  made = new_range_block old (length (retire l.valid old)) first end timestamp

  after-reused : reused ≡ true → after ≡ (record { valid = l.valid; blocks = extended }, old)
  unfolding prepare_range_block
  after-reused e = rw e refl

  after-made :
      reused ≡ false
      → after ≡ (
        record { valid = retire l.valid old ++ (true ∷ []); blocks = set extended group made },
        made,
      )
  unfolding prepare_range_block made
  after-made e = rw e refl

  made-identity : made.identity ≡ some (length (retire l.valid old))
  unfolding made new_range_block
  made-identity = time_bounds-identity timestamp first (end - first) _

  valid-reused : (id : ℕ) → reused ≡ true → old.identity ≡ some id → is_set l.valid id ≡ true
  valid-reused id e same =
      let here : is_valid l.valid old.identity ≡ true = ground (arith, e) in
      ap (is_valid l.valid) (sym same) ∙ here

  -- The block that is returned is the group's, and its identity is valid.
  pub ranged-HasIdentity :
      (id : ℕ) → after.1.identity ≡ some id → HasIdentity ranged group id × Valid ranged id
  ranged-HasIdentity id known = elim (Bool-cases reused) [
    | inl e ↦
        let (b, here) = get_elem?-in extended group group-inside in
        let same : old.identity ≡ some id = ap (λ a. a.1.identity) (sym (after-reused e)) ∙ known in
        (
          (
            b,
            ap (λ a. get_elem? a.0.blocks group) (after-reused e) ∙ here,
            ap (λ o. (or_zero o).identity) (sym here) ∙ same,
          ),
          ap (λ a. is_set a.0.valid id) (after-reused e) ∙ valid-reused id e same,
        )
    | inr e ↦
        let same : made.identity ≡ some id = ap (λ a. a.1.identity) (sym (after-made e)) ∙ known in
        let number : some (length (retire l.valid old)) ≡ some id = sym made-identity ∙ same in
        let fresh : length (retire l.valid old) ≡ id = cc in
        (
          (
            made,
            ap (λ a. get_elem? a.0.blocks group) (after-made e)
                ∙ get_elem?-set extended group made group
                ∙ ground (arith, group-inside),
            same,
          ),
          ap (λ a. is_set a.0.valid id) (after-made e)
              ∙ ap (is_set (retire l.valid old ++ (true ∷ []))) (sym fresh)
              ∙ is_set-new (retire l.valid old),
        )
  ]
