-- ===== src/Pricing/Effective.antt =====
-- go/stats.go, ruleContainsMinute, ruleMatchesInstant and effectivePrice.
use cpa_usage_plugin.Common.{
  ℕ, Bool, true, false, ◌&&◌, ◌||◌, Option, none, some, List, [], ◌∷◌, ltb, leb, ◌==◌,
  if◌then◌else◌, ◌<◌,
}
use cpa_usage_plugin.Common.Bits.{has_bit}
use cpa_usage_plugin.Pricing.{ModelPrice, ModelPriceRule, parse_pricing_minute, day_mask}

-- The half-open interval of minutes, which may cross midnight.
unfoldable pub minute_in : ℕ → ℕ → ℕ → Bool
minute_in start end minute =
    if start == end
    then false
    else if ltb start end
    then leb start minute && ltb minute end
    else leb start minute || ltb minute end

module _ {F : Type 0} where
  unfoldable pub rule_contains_minute : ModelPriceRule F → ℕ → Bool
  unfolding minute_in
  rule_contains_minute r minute = elim (parse_pricing_minute r.start) [
    | none ↦ false
    | some start ↦ elim (parse_pricing_minute r.end) [
      | none ↦ false
      | some end ↦ minute_in start end minute
    ]
  ]

  unfoldable pub rule_matches_instant : ModelPriceRule F → ℕ → ℕ → Bool
  unfolding rule_contains_minute
  rule_matches_instant r weekday minute =
      if has_bit (day_mask r.days) weekday then rule_contains_minute r minute else false

  abbrev pub override : Option F → F → F
  override none x = x
  override (some y) x = y

  -- `result := base` with the prices that the rule gives.
  abbrev pub apply_rule : ModelPrice F → ModelPriceRule F → ModelPrice F
  apply_rule base r = record base {
    prompt = override r.prompt base.prompt;
    completion = override r.completion base.completion;
    cache = override r.cache base.cache;
    cache_write = override r.cache_write base.cache_write;
  }

  -- The loop over base.TimeRules.
  unfoldable pub first_price : ModelPrice F → List (ModelPriceRule F) → ℕ → ℕ → ModelPrice F
  unfolding rule_matches_instant
  first_price base [] weekday minute = base
  first_price base (r ∷ rs) weekday minute =
      let rest = first_price base rs weekday minute in
      if rule_matches_instant r weekday minute then apply_rule base r else rest

-- What package time says of an instant: whether it is the zero time, and its weekday and minute of
-- the day in a location.
pub record Clock (Time Location : Type 0) : Type 0 where
  pub is_zero : Time → Bool
  pub utc : Location
  pub weekday : Time → Location → ℕ
  pub minute : Time → Location → ℕ
  pub weekday-lt : (t : Time) (l : Location) → weekday t l < 7
  pub minute-lt : (t : Time) (l : Location) → minute t l < 1440

abbrev pub is_no_rules : {F : Type 0} → List (ModelPriceRule F) → Bool
is_no_rules [] = true
is_no_rules (r ∷ rs) = false

module _ {Time Location : Type 0} (clock : Clock Time Location) where
  abbrev pub or_utc : Option Location → Location
  or_utc none = clock.utc
  or_utc (some l) = l

  unfoldable pub effective_price :
      {F : Type 0} → ModelPrice F → Time → Option Location → ModelPrice F
  unfolding first_price
  effective_price base t location =
      let l = or_utc location in
      if clock.is_zero t || is_no_rules base.time_rules
      then base
      else first_price base base.time_rules (clock.weekday t l) (clock.minute t l)
