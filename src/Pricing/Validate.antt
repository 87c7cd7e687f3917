-- ===== src/Pricing/Validate.antt =====
-- go/stats.go, validModelPrice and validateModelPriceRules.
use Prim.Native.Nat.{bit_and}
use cpa_usage_plugin.Common.{
  ℕ, suc, Bool, true, false, ◌&&◌, ◌||◌, not, Option, none, some, List, [], ◌∷◌, ◌++◌, length,
  get_elem?, ltb, ◌==◌, if◌then◌else◌,
}
use cpa_usage_plugin.Common.Int.{ℤ, pos, negsuc}
use cpa_usage_plugin.Common.Text.{Text, trim_space, text_eq, is_empty}
use cpa_usage_plugin.Pricing.{
  FloatTests, ModelPrice, ModelPriceRule, Result, ok, err, too_many_rules, name_required,
  id_repeated, too_many_days, day_out_of_range, day_repeated, start_malformed, end_malformed,
  start_equals_end, prompt_invalid, completion_invalid, cache_invalid, cache_write_invalid,
  no_price, overlap, ◌>>=◌, ◌>>◌, reject, or_reject, parse_pricing_minute, day_mask, contains_day,
}

-- modelPriceRuleInterval
pub record Interval : Type 0 where
  pub start : ℕ
  pub end : ℕ
  pub rule : ℕ
  pub days : ℕ

abbrev contains_text : List Text → Text → Bool
contains_text [] t = false
contains_text (u ∷ ts) t = text_eq u t || contains_text ts t

-- The loop over rule.Days, with the days seen so far.
unfoldable pub check_days : ℕ → List ℕ → List ℤ → Result (Unit {0})
check_days i seen [] = ok tt
check_days i seen (negsuc d ∷ ds) = err (day_out_of_range i)
check_days i seen (pos d ∷ ds) =
    let rest = check_days i (d ∷ seen) ds in
    if ltb 6 d
    then err (day_out_of_range i)
    else if contains_day seen d
    then err (day_repeated i)
    else rest

-- The interval, or the two halves of one that crosses midnight.
unfoldable pub rule_intervals : ℕ → ℕ → ℕ → ℕ → List Interval
rule_intervals i days start end =
    if ltb start end
    then record { start = start; end = end; rule = i; days = days } ∷ []
    else record { start = start; end = 1440; rule = i; days = days }
      ∷ record { start = 0; end = end; rule = i; days = days }
      ∷ []

module _ {F : Type 0} (floats : FloatTests F) where
  -- validPriceNumber
  abbrev pub valid_price_number : F → Bool
  valid_price_number x = floats.at_least_zero x && not (floats.is_nan x) && not (floats.is_inf x)

  -- A price that is given and is no valid number.
  abbrev pub bad_price : Option F → Bool
  bad_price none = false
  bad_price (some x) = not (valid_price_number x)

  abbrev pub is_nil : Option F → Bool
  is_nil none = true
  is_nil (some x) = false

  -- The prices that a rule overrides.
  unfoldable pub check_prices : ℕ → ModelPriceRule F → Result (Unit {0})
  check_prices i r = do
    reject (bad_price r.prompt) (prompt_invalid i)
    reject (bad_price r.completion) (completion_invalid i)
    reject (bad_price r.cache) (cache_invalid i)
    reject (bad_price r.cache_write) (cache_write_invalid i)
    reject (is_nil r.prompt && (is_nil r.completion && (is_nil r.cache && is_nil r.cache_write)))
        (no_price i)

  -- One round of the first loop: the identities seen from here on, and the rule's intervals.
  unfoldable pub check_rule : ℕ → List Text → ModelPriceRule F → Result (List Text × List Interval)
  check_rule i seen_ids r = do
    reject (is_empty (trim_space r.name)) (name_required i)
    let id = trim_space r.id
    reject (not (is_empty id) && contains_text seen_ids id) (id_repeated i)
    reject (ltb 7 (length r.days)) (too_many_days i)
    check_days i [] r.days
    start ← or_reject (parse_pricing_minute r.start) (start_malformed i)
    end ← or_reject (parse_pricing_minute r.end) (end_malformed i)
    reject (start == end) (start_equals_end i)
    check_prices i r
    ok (
      (if is_empty id then seen_ids else id ∷ seen_ids),
      rule_intervals i (day_mask r.days) start end,
    )

  -- The first loop, from rule `i` on.
  unfoldable pub check_rules : ℕ → List Text → List (ModelPriceRule F) → Result (List Interval)
  check_rules i seen_ids [] = ok []
  check_rules i seen_ids (r ∷ rs) = do
    (seen, intervals) ← check_rule i seen_ids r
    rest ← check_rules (suc i) seen rs
    ok (intervals ++ rest)

  -- modelPriceRuleLabel
  abbrev pub rule_label : ModelPriceRule F → Text
  rule_label r =
      let id = trim_space r.id in
      let name = trim_space r.name in
      if not (is_empty id) then id else if not (is_empty name) then name else b'?' ∷ []

  -- The label of rules[i]; the index of an interval is always in range.
  abbrev pub label_at : List (ModelPriceRule F) → ℕ → Text
  label_at rules i = elim (get_elem? rules i) [ none ↦ [] | some r ↦ rule_label r ]

-- Two intervals meet on a day and at a minute.
abbrev pub clash : Interval → Interval → Bool
clash a b = not (bit_and a.days b.days == 0) && (ltb a.start b.end && ltb b.start a.end)

-- The inner loop: the first later interval that meets `a`.
unfoldable pub first_clash : Interval → List Interval → Option Interval
first_clash a [] = none
first_clash a (b ∷ bs) = let rest = first_clash a bs in if clash a b then some b else rest

module _ {F : Type 0} (floats : FloatTests F) where
  -- The outer loop.
  unfoldable pub check_overlap : List (ModelPriceRule F) → List Interval → Result (Unit {0})
  unfolding first_clash
  check_overlap rules [] = ok tt
  check_overlap rules (a ∷ as') = elim (first_clash a as') [
    | none ↦ check_overlap rules as'
    | some b ↦ err (overlap (label_at floats rules a.rule) (label_at floats rules b.rule))
  ]

  unfoldable pub validate_model_price_rules : List (ModelPriceRule F) → Result (Unit {0})
  unfolding check_rules check_overlap
  validate_model_price_rules rules = do
    reject (ltb 16 (length rules)) too_many_rules
    intervals ← check_rules floats 0 [] rules
    check_overlap rules intervals

  abbrev pub is_ok {ℓ} : {A : Type ℓ} → Result A → Bool
  is_ok (ok a) = true
  is_ok (err e) = false

  unfoldable pub valid_model_price : ModelPrice F → Bool
  valid_model_price p =
      valid_price_number floats p.prompt
      && (valid_price_number floats p.completion
          && (valid_price_number floats p.cache
              && (valid_price_number floats p.cache_write
                  && is_ok (validate_model_price_rules p.time_rules))))
