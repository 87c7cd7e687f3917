-- ===== src/Pricing/Cover.antt =====
-- go/stats.go, validateModelPriceRules: the intervals that a rule adds, and the minutes it holds.
use cpa_usage_plugin.Common.{
  ℕ, zero, suc, ◌+◌, ◌≤◌, ◌<◌, ◌≡◌, ap, ◌∙◌, true, some, List, [], ◌∷◌, ◌++◌, ltb, leb, arith,
  length, ap, Bool-cases, inl, inr, get_elem?,
}
use cpa_usage_plugin.Common.Bits.{has_bit, share-ne-zero}
use cpa_usage_plugin.Pricing.Validate.{Interval, rule_intervals, clash}
use cpa_usage_plugin.Pricing.Effective.{minute_in}

module _ {A : Type 0} where
  get_elem?-append :
      (xs ys : List A) (p : ℕ) {a : A} → get_elem? xs p ≡ some a → get_elem? (xs ++ ys) p ≡ some a
  get_elem?-append [] ys p h = absurd (cc)
  get_elem?-append (x ∷ xs) ys zero h = h
  get_elem?-append (x ∷ xs) ys (suc p) h = get_elem?-append xs ys p h

  get_elem?-after : (xs ys : List A) (p : ℕ) → get_elem? (xs ++ ys) (length xs + p) ≡ get_elem? ys p
  get_elem?-after [] ys p = ground arith
  get_elem?-after (x ∷ xs) ys p = ground (arith, get_elem?-after xs ys p)

module _ (weekday minute : ℕ) (hw : weekday < 7) (hm : minute < 1440) where
  -- An interval of rule `i` that holds the instant.
  pub record IsCover (i : ℕ) (a : Interval) : Type 0 where
    pub owner : a.rule ≡ i
    pub mask : a.days < 128
    pub day : has_bit a.days weekday ≡ true
    pub after : a.start ≤ minute
    pub before : minute < a.end

  unfoldable pub Covered : ℕ → List Interval → Type 0
  Covered i as' = (p : ℕ) × (a : Interval) × (get_elem? as' p ≡ some a) × IsCover i a

  pub covers-clash : {i j : ℕ} (a b : Interval) → IsCover i a → IsCover j b → clash a b ≡ true
  covers-clash a b u v =
      ground (arith, share-ne-zero a.days u.mask b.days v.mask weekday hw u.day v.day)

  pub rule_intervals-Covered :
      (i days start end : ℕ)
      → days < 128
      → has_bit days weekday ≡ true
      → minute_in start end minute ≡ true
      → Covered i (rule_intervals i days start end)
  unfolding rule_intervals minute_in Covered
  rule_intervals-Covered i days start end hd hb h = elim (Bool-cases (ltb start end)) [
    | inl e ↦ (
      0,
      record { start = start; end = end; rule = i; days = days },
      ground (arith, e),
      ground (arith, e),
    )
    | inr e ↦ elim (Bool-cases (leb start minute)) [
      | inl late ↦ (
        0,
        record { start = start; end = 1440; rule = i; days = days },
        ground (arith, e),
        ground (arith, e),
      )
      | inr early ↦ (
        1,
        record { start = 0; end = end; rule = i; days = days },
        ground (arith, e),
        ground (arith, e),
      )
    ]
  ]

  pub IsCover-at : {i : ℕ} (j : ℕ) {a : Interval} → i ≡ j → IsCover i a → IsCover j a
  IsCover-at j e c = record {
    owner = omega (arith, c.owner);
    mask = c.mask;
    day = c.day;
    after = c.after;
    before = c.before;
  }

  pub Covered-left :
      (i : ℕ) (as' first rest : List Interval)
      → as' ≡ first ++ rest
      → Covered i first
      → Covered (i + 0) as'
  unfolding Covered
  Covered-left i as' first rest e (p, a, at, c) =
      (p, a, rw e (get_elem?-append first rest p at), IsCover-at (i + 0) (omega arith) c)

  pub Covered-right :
      (k i : ℕ) (as' first rest : List Interval)
      → as' ≡ first ++ rest
      → Covered (suc k + i) rest
      → Covered (k + suc i) as'
  unfolding Covered
  Covered-right k i as' first rest e (p, a, at, c) = (
    length first + p,
    a,
    rw e (get_elem?-after first rest p ∙ at),
    IsCover-at (k + suc i) (omega arith) c,
  )

pub cong_rule : {a b : Interval} → a ≡ b → a.rule ≡ b.rule
cong_rule e = ap (λ (c : Interval). c.rule) e
