-- ===== src/Pricing/Unique.antt =====
-- go/stats.go, what validateModelPriceRules gives to effectivePrice.
use native.Mathlib.Decide.{dec_lt}
use native.Mathlib.Nat.{zero-add}
use cpa_usage_plugin.Common.{
  ℕ, zero, suc, ◌+◌, ◌<◌, ◌≡◌, ◌⊎◌, refl, true, false, none, some, List, [], ◌∷◌, ◌++◌, arith,
  Bool-cases, Option-cases, inl, inr, get_elem?,
}
use cpa_usage_plugin.Common.Text.{Text}
use cpa_usage_plugin.Pricing.{
  FloatTests, ModelPriceRule, Result, ok, err, RuleError, parse_pricing_minute, day_mask,
}
use cpa_usage_plugin.Pricing.Days.{day_mask-lt}
use cpa_usage_plugin.Pricing.Validate.{
  Interval, rule_intervals, check_rule, check_rules, clash, first_clash, check_overlap,
  validate_model_price_rules,
}
use cpa_usage_plugin.Pricing.Effective.{rule_matches_instant}
use cpa_usage_plugin.Pricing.Cover.{
  Covered, covers-clash, rule_intervals-Covered, Covered-left, Covered-right, cong_rule,
}

Result-cases :
    {A : Type 0} (x : Result A) → ((a : A) × (x ≡ ok a)) ⊎ ((e : RuleError) × (x ≡ err e))
Result-cases (ok a) = inl (a, refl)
Result-cases (err e) = inr (e, refl)

-- Without a clash an interval meets none of those after it.
NoClash : List Interval → Type 0
NoClash [] = Unit
NoClash (a ∷ as') =
    ((q : ℕ) (b : Interval) → get_elem? as' q ≡ some b → clash a b ≡ false) × NoClash as'

first_clash-step :
    (a c : Interval) (as' : List Interval)
    → first_clash a (c ∷ as') ≡ none
    → (clash a c ≡ false) × (first_clash a as' ≡ none)
unfolding first_clash
first_clash-step a c as' h = elim (Bool-cases (clash a c)) [
  | inl e ↦ absurd (ground (arith, e))
  | inr e ↦ (e, ground (arith, e))
]

first_clash-none :
    (a : Interval) (as' : List Interval)
    → first_clash a as' ≡ none
    → (q : ℕ) (b : Interval) → get_elem? as' q ≡ some b
    → clash a b ≡ false
first_clash-none a [] h q b e = absurd (cc)
first_clash-none a (c ∷ as') h zero b e =
    let t = (first_clash-step a c as' h).0 in ground (arith, t)
first_clash-none a (c ∷ as') h (suc q) b e =
    first_clash-none a as' (first_clash-step a c as' h).1 q b e

NoClash-at :
    (as' : List Interval) (p q : ℕ) {a b : Interval}
    → NoClash as'
    → get_elem? as' p ≡ some a
    → get_elem? as' q ≡ some b
    → p < q
    → clash a b ≡ false
unfolding NoClash
NoClash-at [] p q n ha hb h = absurd (cc)
NoClash-at (c ∷ as') zero zero n ha hb h = absurd (omega arith)
NoClash-at (c ∷ as') zero (suc q) {a} {b} n ha hb h = ground (arith, n.0 q b hb)
NoClash-at (c ∷ as') (suc p) zero n ha hb h = absurd (omega arith)
NoClash-at (c ∷ as') (suc p) (suc q) n ha hb h = NoClash-at as' p q n.1 ha hb (omega arith)

module _ {F : Type 0} (floats : FloatTests F) where
  check_overlap-NoClash :
      (rules : List (ModelPriceRule F)) (as' : List Interval)
      → check_overlap floats rules as' ≡ ok tt
      → NoClash as'
  unfolding check_overlap NoClash
  check_overlap-NoClash rules [] h = tt
  check_overlap-NoClash rules (a ∷ as') h = elim (Option-cases (first_clash a as')) [
    | inl e ↦ (first_clash-none a as' e, check_overlap-NoClash rules as' (ground (arith, e)))
    | inr (b, e) ↦ absurd (ground (arith, e))
  ]

  -- The intervals of an accepted rule are those of its parsed times.
  check_rule-intervals :
      (i : ℕ) (seen seen' : List Text) (r : ModelPriceRule F) (as' : List Interval)
      → check_rule floats i seen r ≡ ok (seen', as')
      → (start : ℕ) × (end : ℕ) × (parse_pricing_minute r.start ≡ some start)
        × (parse_pricing_minute r.end ≡ some end)
        × (as' ≡ rule_intervals i (day_mask r.days) start end)
  unfolding check_rule
  check_rule-intervals i seen seen' r as' h = elim (Option-cases (parse_pricing_minute r.start)) [
    | inl e ↦ absurd (ground (arith, e))
    | inr (start, e) ↦ elim (Option-cases (parse_pricing_minute r.end)) [
      | inl f ↦ absurd (ground (arith, e, f))
      | inr (end, f) ↦ (start, end, e, f, ground (arith, e, f))
    ]
  ]

  check_rules-step :
      (k : ℕ) (seen : List Text) (s : ModelPriceRule F) (rules : List (ModelPriceRule F))
      (as' : List Interval)
      → check_rules floats k seen (s ∷ rules) ≡ ok as'
      → (seen' : List Text) × (first : List Interval) × (rest : List Interval) × (check_rule floats
            k seen s
          ≡ ok (seen', first))
        × (check_rules floats (suc k) seen' rules ≡ ok rest)
        × (as' ≡ first ++ rest)
  unfolding check_rules
  check_rules-step k seen s rules as' h = elim (Result-cases (check_rule floats k seen s)) [
    | inr (e, q) ↦ absurd (ground (arith, q))
    | inl ((seen', first), q) ↦ elim (Result-cases (check_rules floats (suc k) seen' rules)) [
      | inr (e, t) ↦ absurd (ground (arith, q, t))
      | inl (rest, t) ↦ (seen', first, rest, q, t, ground (arith, q, t))
    ]
  ]

  module _ (weekday minute : ℕ) (hw : weekday < 7) (hm : minute < 1440) where
    check_rule-Covered :
        (i : ℕ) (seen seen' : List Text) (r : ModelPriceRule F) (as' : List Interval)
        → check_rule floats i seen r ≡ ok (seen', as')
        → rule_matches_instant r weekday minute ≡ true
        → Covered weekday minute hw hm i as'
    unfolding rule_matches_instant
    check_rule-Covered i seen seen' r as' h m =
        let (start, end, ps, pe, e) = check_rule-intervals i seen seen' r as' h in
        rw e (
          rule_intervals-Covered weekday minute hw hm i (day_mask r.days) start end
            (day_mask-lt r.days) (ground (arith, m)) (ground (arith, m, ps, pe)))

    check_rules-Covered :
        (k : ℕ) (seen : List Text) (rules : List (ModelPriceRule F)) (as' : List Interval)
        → check_rules floats k seen rules ≡ ok as'
        → (i : ℕ) (r : ModelPriceRule F) → get_elem? rules i ≡ some r
        → rule_matches_instant r weekday minute ≡ true
        → Covered weekday minute hw hm (k + i) as'
    check_rules-Covered k seen [] as' h i r g m = absurd (cc)
    check_rules-Covered k seen (s ∷ rules) as' h zero r g m =
        let (seen', first, rest, q, t, e) = check_rules-step k seen s rules as' h in
        let here : rule_matches_instant s weekday minute ≡ true = ground (arith, g, m) in
        Covered-left weekday minute hw hm k as' first rest e
          (check_rule-Covered k seen seen' s first q here)
    check_rules-Covered k seen (s ∷ rules) as' h (suc i) r g m =
        let (seen', first, rest, q, t, e) = check_rules-step k seen s rules as' h in
        Covered-right weekday minute hw hm k i as' first rest e
          (check_rules-Covered (suc k) seen' rules rest t i r g m)

    same_owner :
        (as' : List Interval) (i j : ℕ)
        → NoClash as'
        → Covered weekday minute hw hm i as'
        → Covered weekday minute hw hm j as'
        → i ≡ j
    unfolding Covered
    same_owner as' i j n (p, a, pa, u) (q, b, qb, v) =
        let meets = covers-clash weekday minute hw hm a b u v in
        let meets' = covers-clash weekday minute hw hm b a v u in
        elim (dec_lt p q) [
          | yes lt ↦ let apart = NoClash-at as' p q n pa qb lt in absurd (cc)
          | no ge ↦ elim (dec_lt q p) [
            | yes lt ↦ let apart = NoClash-at as' q p n qb pa lt in absurd (cc)
            | no le ↦
                let same : p ≡ q = omega arith in
                let one : a ≡ b = cc in omega (arith, u.owner, v.owner, cong_rule one)
          ]
        ]

    shift :
        (i : ℕ) (as' : List Interval)
        → Covered weekday minute hw hm (0 + i) as'
        → Covered weekday minute hw hm i as'
    shift i as' c = rw zero-add at c

    validated-intervals :
        (rules : List (ModelPriceRule F))
        → validate_model_price_rules floats rules ≡ ok tt
        → (as' : List Interval) × (check_rules floats 0 [] rules ≡ ok as') × NoClash as'
    unfolding validate_model_price_rules
    validated-intervals rules v = elim (Result-cases (check_rules floats 0 [] rules)) [
      | inr (e, q) ↦ absurd (ground (arith, q))
      | inl (as', q) ↦ (as', q, check_overlap-NoClash rules as' (ground (arith, q)))
    ]

    -- At most one rule of a list that validateModelPriceRules accepts matches a given weekday and
    -- minute of the day.
    pub validated_rule_unique :
        (rules : List (ModelPriceRule F))
        → validate_model_price_rules floats rules ≡ ok tt
        → (i j : ℕ) (r s : ModelPriceRule F) → get_elem? rules i ≡ some r
        → get_elem? rules j ≡ some s
        → rule_matches_instant r weekday minute ≡ true
        → rule_matches_instant s weekday minute ≡ true
        → i ≡ j
    validated_rule_unique rules v i j r s gi gj mi mj =
        let (as', q, n) = validated-intervals rules v in
        same_owner as' i j n (shift i as' (check_rules-Covered 0 [] rules as' q i r gi mi))
          (shift j as' (check_rules-Covered 0 [] rules as' q j s gj mj))
