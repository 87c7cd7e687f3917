-- ===== src/Counters.antt =====
-- go/stats.go and go/protocol_fallback.go: the saturating counters of tokens and requests, and the
-- aggregates that are made of them.
pub mod Saturating
pub mod Providers
pub mod Undo
pub mod TimeSeries
pub mod Finalize
pub mod Tests
use cpa_usage_plugin.Common.Int.{ℤ}
use cpa_usage_plugin.Common.Text.{Text}

-- TokenStats
pub record TokenStats : Type 0 where
  pub input_tokens : ℤ
  pub output_tokens : ℤ
  pub reasoning_tokens : ℤ
  pub cached_tokens : ℤ
  pub cache_read_tokens : ℤ
  pub cache_tokens : ℤ
  pub cache_write_tokens : ℤ
  pub total_tokens : ℤ

-- detailTotals
pub record DetailTotals : Type 0 where
  pub total_tokens : ℤ
  pub input_tokens : ℤ
  pub output_tokens : ℤ
  pub cached_tokens : ℤ
  pub cache_write_tokens : ℤ
  pub reasoning_tokens : ℤ
  pub latency_sum : ℤ
  pub latency_n : ℤ

-- ModelProviderStat
pub record ModelProviderStat : Type 0 where
  pub provider : Text
  pub total_requests : ℤ
  pub success_count : ℤ
  pub failure_count : ℤ
  pub total_tokens : ℤ
  pub input_tokens : ℤ
  pub output_tokens : ℤ
  pub cached_tokens : ℤ
  pub cache_write_tokens : ℤ
  pub reasoning_tokens : ℤ

-- TimeSeriesTokenStat
pub record TimeSeriesTokenStat : Type 0 where
  pub model : Text
  pub provider : Text
  pub total_tokens : ℤ
  pub input_tokens : ℤ
  pub output_tokens : ℤ
  pub cached_tokens : ℤ
  pub cache_write_tokens : ℤ
  pub reasoning_tokens : ℤ
