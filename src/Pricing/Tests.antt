-- ===== src/Pricing/Tests.antt =====
-- Concrete rules and times, and the theorems of this part at them.
use cpa_usage_plugin.Common.{
  zero, suc, get_elem?, ◌<◌, ◌↔◌, ℕ, ◌≡◌, refl, true, false, none, some, List, [], ◌∷◌, arith, ◌%◌,
  ◌/◌, ◌+◌, ◌-◌, ltb,
}
use cpa_usage_plugin.Common.Int.{ℤ, pos, negsuc}
use cpa_usage_plugin.Pricing.{
  FloatTests, ModelPrice, ModelPriceRule, ok, err, overlap, parse_pricing_minute, day_mask,
  normalized_rule_days,
}
use cpa_usage_plugin.Common.Text.{trim_space}
use cpa_usage_plugin.Common.Bits.{has_bit}
use cpa_usage_plugin.Pricing.Validate.{
  validate_model_price_rules, check_rule, check_days, check_prices, rule_intervals,
}
use cpa_usage_plugin.Pricing.Effective.{Clock, minute_in, rule_matches_instant, effective_price}
use cpa_usage_plugin.Pricing.Charge.{PricedBy, effective_price-matching, effective_price-unmatched}
use cpa_usage_plugin.Pricing.Minutes.{clock_text, minute_in_clock, parse_pricing_minute_iff}
use cpa_usage_plugin.Pricing.Canonical.{normalized_rule_days_canonical}
use cpa_usage_plugin.Pricing.Unique.{validated_rule_unique}

-- Prices in whole cents stand for the floats.
abbrev cents : FloatTests ℕ
cents = record { at_least_zero = λ x. true; is_nan = λ x. false; is_inf = λ x. false }

abbrev workdays : List ℤ
workdays = pos 1 ∷ pos 2 ∷ pos 3 ∷ pos 4 ∷ pos 5 ∷ []

abbrev weekend : List ℤ
weekend = pos 0 ∷ pos 6 ∷ []

-- 22:00 to 06:00
abbrev night : List ℤ → ModelPriceRule ℕ
night days = record {
  id = [];
  name = b'n' ∷ [];
  days = days;
  start = b'2' ∷ b'2' ∷ b':' ∷ b'0' ∷ b'0' ∷ [];
  end = b'0' ∷ b'6' ∷ b':' ∷ b'0' ∷ b'0' ∷ [];
  prompt = some 5;
  completion = none;
  cache = none;
  cache_write = none;
}

abbrev nights : List (ModelPriceRule ℕ)
nights = night workdays ∷ night weekend ∷ []

nights-valid : validate_model_price_rules cents nights ≡ ok tt
unfolding validate_model_price_rules check_rule trim_space check_days parse_pricing_minute
    check_prices rule_intervals day_mask
nights-valid = refl

overlap_reported :
    validate_model_price_rules cents (night workdays ∷ night [] ∷ [])
    ≡ err (overlap (b'n' ∷ []) (b'n' ∷ []))
unfolding validate_model_price_rules check_rule trim_space check_days parse_pricing_minute
    check_prices rule_intervals day_mask
overlap_reported = refl

whole_week :
    normalized_rule_days (pos 3 ∷ pos 0 ∷ pos 9 ∷ pos 3 ∷ negsuc 0 ∷ []) ≡ pos 0 ∷ pos 3 ∷ []
unfolding normalized_rule_days
whole_week = refl

minute_in_clock_example :
    minute_in 1320 360 60 ≡ ltb ((60 + 1440 - 1320) % 1440) ((360 + 1440 - 1320) % 1440)
minute_in_clock_example = minute_in_clock 1320 360 60 (omega arith) (omega arith) (omega arith)

validated_rule_unique_example : ◌≡◌ {A = ℕ} 1 1
unfolding rule_matches_instant has_bit day_mask parse_pricing_minute
validated_rule_unique_example =
    validated_rule_unique cents 6 60 (omega arith) (omega arith) nights nights-valid 1 1
      (night weekend) (night weekend) refl refl refl refl

-- Instants are minutes from a Sunday's midnight, and there is one location.
abbrev weekly : Clock ℕ (Unit {0})
weekly = record {
  is_zero = λ t. false;
  utc = tt;
  weekday = λ t l. t / 1440 % 7;
  minute = λ t l. t % 1440;
  weekday-lt = λ t l. omega arith;
  minute-lt = λ t l. omega arith;
}

abbrev tariff : ModelPrice ℕ
tariff = record { prompt = 10; completion = 20; cache = 1; cache_write = 2; time_rules = nights }

-- Saturday at 01:00
effective_price-matching_example :
    PricedBy tariff (night weekend) (effective_price weekly tariff 8700 none)
unfolding rule_matches_instant has_bit day_mask parse_pricing_minute
effective_price-matching_example =
    effective_price-matching cents weekly tariff 8700 none nights-valid refl 1 (night weekend) refl
      refl

parse_pricing_minute_iff_example :
    (parse_pricing_minute (b'0' ∷ b'6' ∷ b':' ∷ b'3' ∷ b'0' ∷ []) ≡ some 390)
    ↔ ((390 < 1440) × (b'0' ∷ b'6' ∷ b':' ∷ b'3' ∷ b'0' ∷ [] ≡ clock_text 390))
parse_pricing_minute_iff_example =
    parse_pricing_minute_iff (b'0' ∷ b'6' ∷ b':' ∷ b'3' ∷ b'0' ∷ []) 390

normalized_rule_days_canonical_example :
    (day_mask (normalized_rule_days (pos 3 ∷ pos 0 ∷ pos 9 ∷ pos 3 ∷ []))
      ≡ day_mask (pos 3 ∷ pos 0 ∷ pos 9 ∷ pos 3 ∷ []))
    × ((normalized_rule_days (pos 3 ∷ pos 0 ∷ pos 9 ∷ pos 3 ∷ [])
          ≡ normalized_rule_days (pos 0 ∷ pos 3 ∷ []))
        ↔ (day_mask (pos 3 ∷ pos 0 ∷ pos 9 ∷ pos 3 ∷ []) ≡ day_mask (pos 0 ∷ pos 3 ∷ [])))
normalized_rule_days_canonical_example =
    normalized_rule_days_canonical (pos 3 ∷ pos 0 ∷ pos 9 ∷ pos 3 ∷ []) (pos 0 ∷ pos 3 ∷ [])

-- Sunday at noon, when no night rule holds
noon_unmatched :
    (i : ℕ) (r : ModelPriceRule ℕ)
    → get_elem? nights i ≡ some r
    → rule_matches_instant r 0 720 ≡ false
unfolding rule_matches_instant has_bit day_mask parse_pricing_minute
noon_unmatched zero r e = let same : night workdays ≡ r = cc in rw (← same) refl
noon_unmatched (suc zero) r e = let same : night weekend ≡ r = cc in rw (← same) refl
noon_unmatched (suc (suc i)) r e = absurd (cc)

effective_price-unmatched_example : effective_price weekly tariff 720 none ≡ tariff
effective_price-unmatched_example =
    effective_price-unmatched cents weekly tariff 720 none noon_unmatched
