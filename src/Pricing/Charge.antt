-- ===== src/Pricing/Charge.antt =====
-- go/stats.go, effectivePrice over a validated rule list.
use cpa_usage_plugin.Common.{
  ℕ, zero, suc, ◌<◌, ◌≡◌, refl, sym, ap, ◌∙◌, true, false, Option, none, some, List, [], ◌∷◌, arith,
  Bool-cases, inl, inr, get_elem?,
}
use cpa_usage_plugin.Pricing.{FloatTests, ModelPrice, ModelPriceRule, ok}
use cpa_usage_plugin.Pricing.Validate.{validate_model_price_rules}
use cpa_usage_plugin.Pricing.Effective.{
  Clock, is_no_rules, or_utc, rule_matches_instant, override, apply_rule, first_price,
  effective_price,
}
use cpa_usage_plugin.Pricing.Unique.{validated_rule_unique}

is_no_rules-false :
    {F : Type 0} (rules : List (ModelPriceRule F)) (i : ℕ) {r : ModelPriceRule F}
    → get_elem? rules i ≡ some r
    → is_no_rules rules ≡ false
is_no_rules-false [] i g = absurd (cc)
is_no_rules-false (s ∷ rules) i g = refl

module _ {F : Type 0} (base : ModelPrice F) (weekday minute : ℕ) where
  -- The loop ends at a rule that matches, or with none that does.
  Chosen : List (ModelPriceRule F) → Type 0
  Chosen rules =
      (j : ℕ) × (s : ModelPriceRule F) × (get_elem? rules j ≡ some s)
      × (rule_matches_instant s weekday minute ≡ true)
      × (first_price base rules weekday minute ≡ apply_rule base s)

  NoneMatches : List (ModelPriceRule F) → Type 0
  NoneMatches rules =
      (i : ℕ) (r : ModelPriceRule F)
      → get_elem? rules i ≡ some r
      → rule_matches_instant r weekday minute ≡ false

  first_price-none :
      (rules : List (ModelPriceRule F))
      → NoneMatches rules
      → first_price base rules weekday minute ≡ base
  unfolding first_price NoneMatches
  first_price-none [] h = refl
  first_price-none (r ∷ rules) h = rw (h 0 r refl) (first_price-none rules (λ i s e. h (suc i) s e))

  first_price-Chosen :
      (rules : List (ModelPriceRule F)) (i : ℕ) (r : ModelPriceRule F)
      → get_elem? rules i ≡ some r
      → rule_matches_instant r weekday minute ≡ true
      → Chosen rules
  unfolding first_price Chosen
  first_price-Chosen [] i r g m = absurd (cc)
  first_price-Chosen (s ∷ rules) zero r g m =
      let here : rule_matches_instant s weekday minute ≡ true = ground (arith, g, m) in
      (0, s, refl, here, rw here)
  first_price-Chosen (s ∷ rules) (suc i) r g m =
      elim (Bool-cases (rule_matches_instant s weekday minute)) [
        | inl here ↦ (0, s, refl, here, rw here)
        | inr later ↦
            let (j, t, at, n, e) = first_price-Chosen rules i r g m in (suc j, t, at, n, rw later e)
      ]

  -- With no two rules that match, the price is that of the rule that does, wherever it stands.
  first_price-at :
      (floats : FloatTests F) (rules : List (ModelPriceRule F))
      → validate_model_price_rules floats rules ≡ ok tt
      → weekday < 7
      → minute < 1440
      → (i : ℕ) (r : ModelPriceRule F) → get_elem? rules i ≡ some r
      → rule_matches_instant r weekday minute ≡ true
      → first_price base rules weekday minute ≡ apply_rule base r
  unfolding Chosen
  first_price-at floats rules v hw hm i r g m =
      let (j, s, at, n, e) = first_price-Chosen rules i r g m in
      let same = validated_rule_unique floats weekday minute hw hm rules v i j r s g at m n in
      let one : r ≡ s = cc in e ∙ ap (apply_rule base) (sym one)

module _ {F : Type 0} where
  -- A price of a rule is taken where the rule has it, and the old one where it has none.
  abbrev pub Takes : Option F → F → F → Type 0
  Takes none old new = new ≡ old
  Takes (some x) old new = new ≡ x

  override-Takes : (o : Option F) (x : F) → Takes o x (override o x)
  override-Takes none x = refl
  override-Takes (some y) x = refl

  -- `p` has each price of the rule `r` in its own place, and everything else of `base`.
  abbrev pub PricedBy : ModelPrice F → ModelPriceRule F → ModelPrice F → Type 0
  PricedBy base r p =
      Takes r.prompt base.prompt p.prompt
      × Takes r.completion base.completion p.completion
      × Takes r.cache base.cache p.cache
      × Takes r.cache_write base.cache_write p.cache_write
      × (p.time_rules ≡ base.time_rules)

  apply_rule-PricedBy :
      (base : ModelPrice F) (r : ModelPriceRule F) → PricedBy base r (apply_rule base r)
  apply_rule-PricedBy base r = (
    override-Takes r.prompt base.prompt,
    override-Takes r.completion base.completion,
    override-Takes r.cache base.cache,
    override-Takes r.cache_write base.cache_write,
    refl,
  )

module _ {F Time Location : Type 0} (floats : FloatTests F) (clock : Clock Time Location) where
  -- For a validated list of rules, an instant that is not the zero time, and a location or none for
  -- UTC: if some rule matches the instant's weekday and minute there, the effective price has each
  -- price that this rule gives, for prompt, completion, cache and cache write, and otherwise that of
  -- the base price, wherever the rule stands in the list.
  pub effective_price-matching :
      (base : ModelPrice F) (t : Time) (location : Option Location)
      → validate_model_price_rules floats base.time_rules ≡ ok tt
      → clock.is_zero t ≡ false
      → (i : ℕ) (r : ModelPriceRule F) → get_elem? base.time_rules i ≡ some r
      → (let l = or_utc clock location in
          rule_matches_instant r (clock.weekday t l) (clock.minute t l) ≡ true)
      → PricedBy base r (effective_price clock base t location)
  unfolding effective_price
  effective_price-matching base t location v z i r g h =
      let l = or_utc clock location in
      let some_rules = is_no_rules-false base.time_rules i g in
      let chosen =
        first_price-at base (clock.weekday t l) (clock.minute t l) floats base.time_rules v
          (clock.weekday-lt t l) (clock.minute-lt t l) i r g h in
      rw (z, some_rules, chosen) (apply_rule-PricedBy base r)

  -- If no rule matches the weekday and minute of an instant at a location, or in UTC without one, the
  -- effective price there is the base price.
  pub effective_price-unmatched :
      (base : ModelPrice F) (t : Time) (location : Option Location)
      → ((i : ℕ) (r : ModelPriceRule F)
          → get_elem? base.time_rules i ≡ some r
          → let l = or_utc clock location in
            rule_matches_instant r (clock.weekday t l) (clock.minute t l) ≡ false)
      → effective_price clock base t location ≡ base
  unfolding effective_price NoneMatches
  effective_price-unmatched base t location none_matches =
      let l = or_utc clock location in
      ground (
        arith,
        first_price-none base (clock.weekday t l) (clock.minute t l) base.time_rules none_matches,
      )
