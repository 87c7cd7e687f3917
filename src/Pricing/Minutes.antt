-- ===== src/Pricing/Minutes.antt =====
-- go/stats.go, parsePricingMinute against the HH:mm notation, and a rule's minutes on the clock face.
use cpa_usage_plugin.Common.{
  ℕ, ◌+◌, ◌-◌, ◌/◌, ◌%◌, ◌<◌, ◌≡◌, ◌↔◌, ◌∙◌, some, [], ◌∷◌, ltb, arith, ap,
}
use cpa_usage_plugin.Common.Text.{Text}
use cpa_usage_plugin.Pricing.{minute_of, parse_pricing_minute}
use cpa_usage_plugin.Pricing.Effective.{minute_in}

-- A minute of the day as HH:mm.
abbrev pub clock_text : ℕ → Text
clock_text m =
    (b'0' + m / 60 / 10)
    ∷ (b'0' + m / 60 % 10)
    ∷ b':'
    ∷ (b'0' + m % 60 / 10)
    ∷ (b'0' + m % 60 % 10)
    ∷ []

parse-clock_text : (m : ℕ) → m < 1440 → parse_pricing_minute (clock_text m) ≡ some m
unfolding parse_pricing_minute
parse-clock_text m h = ground arith

-- The digits of an accepted text are those of its minute.
minute_of-digits :
    (a b c d e m : ℕ)
    → minute_of a b c d e ≡ some m
    → (m < 1440)
      × (c ≡ b':')
      × (a ≡ b'0' + m / 60 / 10)
      × (b ≡ b'0' + m / 60 % 10)
      × (d ≡ b'0' + m % 60 / 10)
      × (e ≡ b'0' + m % 60 % 10)
unfolding minute_of
minute_of-digits a b c d e m h = ground arith

clock_text-parse :
    (s : Text) (m : ℕ) → parse_pricing_minute s ≡ some m → (m < 1440) × (s ≡ clock_text m)
unfolding parse_pricing_minute
clock_text-parse [] m h = absurd (cc)
clock_text-parse (a ∷ []) m h = absurd (cc)
clock_text-parse (a ∷ b ∷ []) m h = absurd (cc)
clock_text-parse (a ∷ b ∷ c ∷ []) m h = absurd (cc)
clock_text-parse (a ∷ b ∷ c ∷ d ∷ []) m h = absurd (cc)
clock_text-parse (a ∷ b ∷ c ∷ d ∷ e ∷ []) m h =
    let (lt, pc, pa, pb, pd, pe) = minute_of-digits a b c d e m h in (lt, cc)
clock_text-parse (a ∷ b ∷ c ∷ d ∷ e ∷ f ∷ s) m h = absurd (cc)

-- A minute lies in a rule's interval exactly when, going round the clock from the start, it comes
-- before the end; so an interval that crosses midnight covers both of its halves.
pub minute_in_clock :
    (start end minute : ℕ)
    → start < 1440
    → end < 1440
    → minute < 1440
    → minute_in start end minute
      ≡ ltb ((minute + 1440 - start) % 1440) ((end + 1440 - start) % 1440)
unfolding minute_in
minute_in_clock start end minute hs he hm = ground arith

-- parsePricingMinute accepts exactly the texts HH:mm of the 1440 minutes of a day, and returns the
-- minute.
pub parse_pricing_minute_iff :
    (s : Text) (m : ℕ) → (parse_pricing_minute s ≡ some m) ↔ ((m < 1440) × (s ≡ clock_text m))
parse_pricing_minute_iff s m =
    (clock_text-parse s m, λ (h, e). ap parse_pricing_minute e ∙ parse-clock_text m h)
