-- ===== src/Counters/Providers.antt =====
-- go/stats.go: the counters of one provider of a model, the map of them, and the list that a
-- response carries. A map is the list of its entries in the order in which the code ranges over it.
use cpa_usage_plugin.Common.{Bool, List, [], ◌∷◌, if◌then◌else◌}
use cpa_usage_plugin.Common.Int.{pos, is_positive}
use cpa_usage_plugin.Common.Text.{Text, text_eq, trim_space}
use cpa_usage_plugin.Counters.{DetailTotals, ModelProviderStat}
use cpa_usage_plugin.Counters.Saturating.{saturating_protocol_add, subtract_non_negative}

-- A ModelProviderStat of a provider with nothing counted.
abbrev pub no_requests : Text → ModelProviderStat
no_requests p = record {
  provider = p;
  total_requests = pos 0;
  success_count = pos 0;
  failure_count = pos 0;
  total_tokens = pos 0;
  input_tokens = pos 0;
  output_tokens = pos 0;
  cached_tokens = pos 0;
  cache_write_tokens = pos 0;
  reasoning_tokens = pos 0;
}

-- incrementModelProviderStat
unfoldable pub increment_stat : ModelProviderStat → Bool → DetailTotals → ModelProviderStat
increment_stat s failed t = record {
  provider = s.provider;
  total_requests = saturating_protocol_add s.total_requests (pos 1);
  success_count =
      if failed then s.success_count else saturating_protocol_add s.success_count (pos 1);
  failure_count =
      if failed then saturating_protocol_add s.failure_count (pos 1) else s.failure_count;
  total_tokens = saturating_protocol_add s.total_tokens t.total_tokens;
  input_tokens = saturating_protocol_add s.input_tokens t.input_tokens;
  output_tokens = saturating_protocol_add s.output_tokens t.output_tokens;
  cached_tokens = saturating_protocol_add s.cached_tokens t.cached_tokens;
  cache_write_tokens = saturating_protocol_add s.cache_write_tokens t.cache_write_tokens;
  reasoning_tokens = saturating_protocol_add s.reasoning_tokens t.reasoning_tokens;
}

-- The subtractions of decrementModelProviderStats.
unfoldable pub decrement_stat : ModelProviderStat → Bool → DetailTotals → ModelProviderStat
decrement_stat s failed t = record {
  provider = s.provider;
  total_requests = subtract_non_negative s.total_requests (pos 1);
  success_count = if failed then s.success_count else subtract_non_negative s.success_count (pos 1);
  failure_count = if failed then subtract_non_negative s.failure_count (pos 1) else s.failure_count;
  total_tokens = subtract_non_negative s.total_tokens t.total_tokens;
  input_tokens = subtract_non_negative s.input_tokens t.input_tokens;
  output_tokens = subtract_non_negative s.output_tokens t.output_tokens;
  cached_tokens = subtract_non_negative s.cached_tokens t.cached_tokens;
  cache_write_tokens = subtract_non_negative s.cache_write_tokens t.cache_write_tokens;
  reasoning_tokens = subtract_non_negative s.reasoning_tokens t.reasoning_tokens;
}

abbrev pub ProviderStats : Type 0
ProviderStats = List (Text × ModelProviderStat)

-- incrementModelProviderStats at a key
unfoldable pub increment_at : Text → Text → Bool → DetailTotals → ProviderStats → ProviderStats
increment_at key provider failed t [] =
    (key, increment_stat (no_requests (trim_space provider)) failed t) ∷ []
increment_at key provider failed t ((k, s) ∷ rest) =
    let later = increment_at key provider failed t rest in
    if text_eq k key then (k, increment_stat s failed t) ∷ rest else (k, s) ∷ later

-- decrementModelProviderStats at a key
unfoldable pub decrement_at : Text → Bool → DetailTotals → ProviderStats → ProviderStats
decrement_at key failed t [] = []
decrement_at key failed t ((k, s) ∷ rest) =
    let later = decrement_at key failed t rest in
    let less = decrement_stat s failed t in
    if text_eq k key
    then if is_positive less.total_requests then (k, less) ∷ rest else rest
    else (k, s) ∷ later

-- Lower case, of package strings over Unicode.
module _ (to_lower : Text → Text) where
  -- modelProviderStatsKey
  abbrev pub model_provider_stats_key : Text → Text
  model_provider_stats_key provider = to_lower (trim_space provider)

  unfoldable pub increment_model_provider_stats :
      ProviderStats → Text → Bool → DetailTotals → ProviderStats
  increment_model_provider_stats stats provider failed t =
      increment_at (model_provider_stats_key provider) provider failed t stats

  unfoldable pub decrement_model_provider_stats :
      ProviderStats → Text → Bool → DetailTotals → ProviderStats
  decrement_model_provider_stats stats provider failed t =
      decrement_at (model_provider_stats_key provider) failed t stats
