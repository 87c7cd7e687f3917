-- ===== src/Correlation.antt =====
-- go/protocol_fallback.go: whether a fallback record and a native record are of one request, from
-- the tokens that each reports and the instants of the two.
pub mod Shapes
pub mod Evidence
pub mod ShapeLaws
pub mod EdgeLaws
mod Tests
use cpa_usage_plugin.Common.{ℕ, Bool, List}
use cpa_usage_plugin.Common.Text.{Text}

-- The role of an observation.
pub data Role : Type 0 where
  unknown_role : Role
  fallback_role : Role
  native_role : Role

-- The input, output and cache modes; the last of each is any other text.
pub data InputMode : Type 0 where
  cache_subset : InputMode
  cache_subset_normalized : InputMode
  cache_independent : InputMode
  input_ambiguous : InputMode
  input_other : InputMode

pub data OutputMode : Type 0 where
  reasoning_subset : OutputMode
  reasoning_independent : OutputMode
  output_ambiguous : OutputMode
  output_other : OutputMode

pub data CacheMode : Type 0 where
  split : CacheMode
  combined : CacheMode
  cache_ambiguous : CacheMode
  cache_other : CacheMode

-- protocolTokenShape
pub record TokenShape : Type 0 where
  pub full_input : ℕ
  pub full_output : ℕ
  pub total : ℕ
  pub strength : ℕ

-- The bits of KnownFields.
pub record KnownFields : Type 0 where
  pub input : Bool
  pub output : Bool
  pub reasoning : Bool
  pub cache_read : Bool
  pub cache_write : Bool
  pub cache_combined : Bool
  pub total : Bool

-- protocolTokenEvidence; the counts are those of valid evidence, which are not negative.
pub record TokenEvidence : Type 0 where
  pub input : ℕ
  pub output : ℕ
  pub reasoning : ℕ
  pub cache_read : ℕ
  pub cache_write : ℕ
  pub cache_combined : ℕ
  pub total : ℕ
  pub known : KnownFields
  pub input_mode : InputMode
  pub output_mode : OutputMode
  pub cache_mode : CacheMode
  pub shapes : List TokenShape
  pub invalid : Bool

-- protocolCorrelationObservation, less its stable order; an instant and a latency count
-- nanoseconds, and a latency that is not above 0 is 0.
pub record CorrelationObservation : Type 0 where
  pub role : Role
  pub requested_model : Text
  pub client_identity : Text
  pub failed : Bool
  pub status_code : ℕ
  pub endpoint : Text
  pub timestamp : ℕ
  pub latency : ℕ
  pub synthetic_time : Bool
  pub invalid : Bool
  pub tokens : TokenEvidence
