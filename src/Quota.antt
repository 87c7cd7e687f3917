-- ===== src/Quota.antt =====
-- go/quota_types.go, go/quota_pricing.go and go/quota_cycles.go: the observations of a credential's
-- quota, the windows that collect them, and the instants and float operations that they use.
pub mod Reset
pub mod Sample
pub mod Compact
pub mod Archive
pub mod Observe
pub mod Apply
pub mod Order
pub mod Bounds
pub mod Effective
pub mod Invariant
pub mod Preserve
pub mod Keep
pub mod Late
pub mod Accept
pub mod Revoked
pub mod History
pub mod Repair
pub mod Facts
pub mod Deletion
pub mod Cycles
pub mod Advance
pub mod Tests
pub mod Scenarios
use cpa_usage_plugin.Common.{
  ℕ, ◌+◌, ◌-◌, ◌*◌, ◌/◌, ◌≤◌, ◌<◌, min, Bool, true, false, ◌&&◌, ◌||◌, not, Option, none, some,
  List, ltb, leb, ◌==◌,
}
pub use cpa_usage_plugin.Common.Instant.{zero_time, is_zero, second, minute, seconds, time_sub}
use cpa_usage_plugin.Common.Text.{Text}

-- The float64 operations on usage ratios: the constants 0 and 1, `<` and `==`, the tests for NaN and
-- infinity, `x - .02`, `(x + y) / 2` and `x * 100`.
pub record UsageFloat (U : Type 0) : Type 0 where
  pub zero : U
  pub one : U
  pub lt : U → U → Bool
  pub eq : U → U → Bool
  pub le : U → U → Bool
  pub is_nan : U → Bool
  pub is_inf : U → Bool
  pub less_tolerance : U → U
  pub midpoint : U → U → U
  pub percent : U → U

pub record Observation (U : Type 0) : Type 0 where
  pub source : Text
  pub collection_started_at : ℕ
  pub provider : Text
  pub auth_index : Text
  pub auth_id : Text
  pub group : Text
  pub name : Text
  pub slot : Text
  pub seconds : ℕ
  pub reset : ℕ
  pub observed_at : ℕ
  pub used : U
  pub model : Text
  pub unmapped : Bool
  pub revoked : Bool

pub record Period (U : Type 0) : Type 0 where
  pub ended_by_reset : Bool
  pub reset_time_estimated : Bool
  pub start : ℕ
  pub end : ℕ
  pub collection_started_at : ℕ
  pub samples : List (Observation U)

pub record Window (U : Type 0) : Type 0 where
  pub source : Text
  pub provider : Text
  pub auth_index : Text
  pub auth_id : Text
  pub group : Text
  pub name : Text
  pub slot : Text
  pub seconds : ℕ
  pub model : Text
  pub unmapped : Bool
  pub hidden : Bool
  pub updated_at : ℕ
  pub current : Option (Period U)
  pub previous : Option (Period U)

-- quotaResetDriftIsSmall
unfoldable pub reset_drift_is_small : ℕ → ℕ → ℕ → Bool
reset_drift_is_small previous next n =
    let tolerance = min minute (seconds n / 4) in
    leb previous (next + tolerance) && leb next (previous + tolerance)

-- quotaPeriodPrecedes
unfoldable pub period_precedes : ℕ → ℕ → ℕ → Bool
unfolding reset_drift_is_small
period_precedes end start n = leb end start || reset_drift_is_small end start n
