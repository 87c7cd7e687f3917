-- ===== src/Pricing.antt =====
-- go/stats.go, the time rules of a model price: HH:mm parsing, weekday masks, validation and the
-- rule that applies at an instant. Prices are an abstract float64; the time zone conversion of
-- package time is a parameter.
pub mod Validate
pub mod Effective
pub mod Minutes
pub mod Days
pub mod Canonical
pub mod Cover
pub mod Unique
pub mod Charge
mod Tests
use Prim.Native.Nat.{bit_or}
use cpa_usage_plugin.Common.{
  ℕ, ◌+◌, ◌-◌, ◌*◌, ◌^◌, Bool, true, false, ◌&&◌, ◌||◌, Option, none, some, List, [], ◌∷◌, ◌++◌,
  length, ltb, leb, ◌==◌, if◌then◌else◌,
}
use cpa_usage_plugin.Common.Int.{ℤ, pos, negsuc}
use cpa_usage_plugin.Common.Text.{Text}

-- The tests that package math makes on a float64.
pub record FloatTests (F : Type 0) : Type 0 where
  pub at_least_zero : F → Bool
  pub is_nan : F → Bool
  pub is_inf : F → Bool

pub record ModelPriceRule (F : Type 0) : Type 0 where
  pub id : Text
  pub name : Text
  pub days : List ℤ
  pub start : Text
  pub end : Text
  pub prompt : Option F
  pub completion : Option F
  pub cache : Option F
  pub cache_write : Option F

pub record ModelPrice (F : Type 0) : Type 0 where
  pub prompt : F
  pub completion : F
  pub cache : F
  pub cache_write : F
  pub time_rules : List (ModelPriceRule F)

-- The errors of validateModelPriceRules, with the rule's index where the message has it.
pub data RuleError : Type 0 where
  too_many_rules : RuleError
  name_required : ℕ → RuleError
  id_repeated : ℕ → RuleError
  too_many_days : ℕ → RuleError
  day_out_of_range : ℕ → RuleError
  day_repeated : ℕ → RuleError
  start_malformed : ℕ → RuleError
  end_malformed : ℕ → RuleError
  start_equals_end : ℕ → RuleError
  prompt_invalid : ℕ → RuleError
  completion_invalid : ℕ → RuleError
  cache_invalid : ℕ → RuleError
  cache_write_invalid : ℕ → RuleError
  no_price : ℕ → RuleError
  overlap : Text → Text → RuleError

-- A value of type `T`, or the error that validation returns.
pub data Result {ℓ} (T : Type ℓ) : Type ℓ where
  ok : (value : T) → Result T
  err : (error : RuleError) → Result T

infixl 4 ◌>>◌ ◌>>=◌
abbrev pub ◌>>◌ {ℓ} : {T : Type ℓ} → Result (Unit {0}) → Result T → Result T
err error >> next = err error
ok unit >> next = next

abbrev pub ◌>>=◌ {ℓ κ} : {T : Type ℓ} {V : Type κ} → Result T → (T → Result V) → Result V
err error >>= next = err error
ok value >>= next = next value

-- `if test { return e }`
abbrev pub reject : Bool → RuleError → Result (Unit {0})
reject true e = err e
reject false e = ok tt

abbrev pub or_reject {ℓ} : {A : Type ℓ} → Option A → RuleError → Result A
or_reject (some a) e = ok a
or_reject none e = err e

abbrev is_digit : ℕ → Bool
is_digit c = leb b'0' c && leb c b'9'

-- The five characters of HH:mm, once the length is known.
minute_of : ℕ → ℕ → ℕ → ℕ → ℕ → Option ℕ
minute_of a b c d e =
    if c == b':' && (is_digit a && (is_digit b && (is_digit d && is_digit e)))
    then (let hour = (a - b'0') * 10 + (b - b'0') in
        let minute = (d - b'0') * 10 + (e - b'0') in
        if ltb 23 hour || ltb 59 minute then none else some (hour * 60 + minute))
    else none

-- Five bytes that are all digits or a colon are five code points.
unfoldable pub parse_pricing_minute : Text → Option ℕ
unfolding minute_of
parse_pricing_minute (a ∷ b ∷ c ∷ d ∷ e ∷ []) = minute_of a b c d e
parse_pricing_minute _ = none

abbrev pub all_weekdays_mask : ℕ
all_weekdays_mask = 0x7f

-- One round of the loop: `mask |= 1 << uint(day)` for a day of the week.
abbrev pub mask_day : ℕ → ℤ → ℕ
mask_day mask (pos d) = if leb d 6 then bit_or mask (2 ^ d) else mask
mask_day mask (negsuc d) = mask

unfoldable pub mask_days : ℕ → List ℤ → ℕ
mask_days mask [] = mask
mask_days mask (d ∷ ds) = mask_days (mask_day mask d) ds

-- modelPriceRuleDayMask, as a function of the rule's days.
unfoldable pub day_mask : List ℤ → ℕ
unfolding mask_days
day_mask [] = all_weekdays_mask
day_mask (d ∷ ds) = let mask = mask_days 0 (d ∷ ds) in if mask == 0 then all_weekdays_mask else mask

abbrev pub contains_day : List ℕ → ℕ → Bool
contains_day [] d = false
contains_day (e ∷ ds) d = e == d || contains_day ds d

-- The loop of normalizedRuleDays; `seen` and `normalized` grow together, so one list serves.
unfoldable pub collect_days : List ℕ → List ℤ → List ℕ
collect_days seen [] = seen
collect_days seen (pos d ∷ ds) =
    collect_days (if ltb 6 d || contains_day seen d then seen else seen ++ d ∷ []) ds
collect_days seen (negsuc d ∷ ds) = collect_days seen ds

unfoldable pub insert_day : ℕ → List ℕ → List ℕ
insert_day d [] = d ∷ []
insert_day d (e ∷ ds) = let rest = insert_day d ds in if leb d e then d ∷ e ∷ ds else e ∷ rest

-- sort.Ints
unfoldable pub sort_days : List ℕ → List ℕ
unfolding insert_day
sort_days [] = []
sort_days (d ∷ ds) = insert_day d (sort_days ds)

abbrev pub as_days : List ℕ → List ℤ
as_days [] = []
as_days (d ∷ ds) = pos d ∷ as_days ds

unfoldable pub normalized_rule_days : List ℤ → List ℤ
unfolding collect_days sort_days
normalized_rule_days days =
    let normalized = collect_days [] days in
    if length normalized == 0 || length normalized == 7 then [] else as_days (sort_days normalized)
