-- ===== src/Fallback.antt =====
-- go/response_intercept.go: the coordinator that holds a usage record made from an intercepted
-- response until the native record of the same request arrives, or records it after a delay.
pub mod Select
pub mod Cleanup
pub mod Operations
pub mod Handlers
pub mod Indexes
pub mod Accounted
pub mod Steps
pub mod Run
pub mod Once
pub mod Flushed
pub mod Delivery
pub mod Best
mod Tests
use cpa_usage_plugin.Common.{ℕ, Bool, Option, List}
use cpa_usage_plugin.Common.Text.{Text}

-- protocolCorrelationEdgeResult, less the two token shapes
pub record Edge : Type 0 where
  pub strength : ℕ
  pub distance : ℕ

-- What the coordinator uses of go/protocol_fallback.go, of the statistics and of usage records: a
-- record's instant, its fingerprint, the correlation keys that it has as a fallback and as a native
-- record (none where it is not one), the edge between a fallback and a native record on the live
-- path and on the path by keys, the order of two records, and protocolFallbackTolerance of its
-- latency; enrichUsageRecord, the record with the credential's learned index, and whether
-- RemoveRecordedUsage finds a record.
pub record Correlation (U : Type 0) : Type 0 where
  pub requested_at : U → ℕ
  pub with_requested_at : U → ℕ → U
  pub fingerprint : U → Text
  pub fallback_keys : U → List Text
  pub native_keys : U → List Text
  pub live_edge : U → U → Option Edge
  pub key_edge : U → U → Option Edge
  pub stable_less : U → U → Bool
  pub tolerance : U → ℕ
  pub enrich : U → U → U
  pub learned : U → U
  pub is_recorded : U → Bool

-- pendingUsageFallback, less its timer: a timer that fires calls commit.
pub record PendingFallback (U : Type 0) : Type 0 where
  pub key : Text
  pub correlation_key : Text
  pub correlation_keys : List Text
  pub usage : U
  pub request_at : ℕ
  pub cancelled : Bool

-- usageFallbackOccurrence
pub record Occurrence (U : Type 0) : Type 0 where
  pub key : Text
  pub correlation_key : Text
  pub correlation_keys : List Text
  pub request_at : ℕ
  pub observed_at : ℕ
  pub usage : U

-- usageFallbackCoordinator, with the memory of its pending fallbacks and of its occurrences: a
-- pointer is a place in `items` or in `occurrences`.
pub record Coordinator (U : Type 0) : Type 0 where
  pub items : List (PendingFallback U)
  pub occurrences : List (Occurrence U)
  pub pending : List (Text × List ℕ)
  pub pending_correlated : List (Text × List ℕ)
  pub native_recent : List (Text × List ℕ)
  pub native_recent_correlated : List (Text × List ℕ)
  pub fallback_recent : List (Text × List ℕ)
  pub fallback_recent_correlated : List (Text × List ℕ)
  pub closed : Bool
