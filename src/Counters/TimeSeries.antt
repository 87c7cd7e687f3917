-- ===== src/Counters/TimeSeries.antt =====
-- go/stats.go: the token counters of a model and provider within a time series.
use cpa_usage_plugin.Common.{Bool, true, false, ◌||◌, List, [], ◌∷◌, ◌++◌, if◌then◌else◌}
use cpa_usage_plugin.Common.Int.{pos, is_positive}
use cpa_usage_plugin.Common.Text.{Text, text_eq, trim_space}
use cpa_usage_plugin.Counters.{DetailTotals, TimeSeriesTokenStat}
use cpa_usage_plugin.Counters.Saturating.{saturating_protocol_add, subtract_non_negative}

-- timeSeriesTokenKey, with normalizeModelPriceKey a parameter that lowers and trims.
abbrev pub time_series_token_key : (Text → Text) → Text → Text → Text
time_series_token_key normalize model provider = normalize provider ++ 0 ∷ normalize model

unfoldable pub add_tokens : TimeSeriesTokenStat → DetailTotals → TimeSeriesTokenStat
add_tokens s t = record {
  model = s.model;
  provider = s.provider;
  total_tokens = saturating_protocol_add s.total_tokens t.total_tokens;
  input_tokens = saturating_protocol_add s.input_tokens t.input_tokens;
  output_tokens = saturating_protocol_add s.output_tokens t.output_tokens;
  cached_tokens = saturating_protocol_add s.cached_tokens t.cached_tokens;
  cache_write_tokens = saturating_protocol_add s.cache_write_tokens t.cache_write_tokens;
  reasoning_tokens = saturating_protocol_add s.reasoning_tokens t.reasoning_tokens;
}

unfoldable pub subtract_tokens : TimeSeriesTokenStat → DetailTotals → TimeSeriesTokenStat
subtract_tokens s t = record {
  model = s.model;
  provider = s.provider;
  total_tokens = subtract_non_negative s.total_tokens t.total_tokens;
  input_tokens = subtract_non_negative s.input_tokens t.input_tokens;
  output_tokens = subtract_non_negative s.output_tokens t.output_tokens;
  cached_tokens = subtract_non_negative s.cached_tokens t.cached_tokens;
  cache_write_tokens = subtract_non_negative s.cache_write_tokens t.cache_write_tokens;
  reasoning_tokens = subtract_non_negative s.reasoning_tokens t.reasoning_tokens;
}

-- Some counter is above 0.
abbrev pub has_tokens : TimeSeriesTokenStat → Bool
has_tokens s =
    is_positive s.total_tokens
    || (is_positive s.input_tokens
        || (is_positive s.output_tokens
            || (is_positive s.cached_tokens
                || (is_positive s.cache_write_tokens || is_positive s.reasoning_tokens))))

abbrev pub TokenSeries : Type 0
TokenSeries = List (Text × TimeSeriesTokenStat)

abbrev pub no_tokens : Text → Text → TimeSeriesTokenStat
no_tokens model provider = record {
  model = model;
  provider = provider;
  total_tokens = pos 0;
  input_tokens = pos 0;
  output_tokens = pos 0;
  cached_tokens = pos 0;
  cache_write_tokens = pos 0;
  reasoning_tokens = pos 0;
}

unfoldable pub add_tokens_at : Text → TimeSeriesTokenStat → DetailTotals → TokenSeries → TokenSeries
add_tokens_at key fresh t [] = (key, add_tokens fresh t) ∷ []
add_tokens_at key fresh t ((k, s) ∷ rest) =
    let later = add_tokens_at key fresh t rest in
    if text_eq k key then (k, add_tokens s t) ∷ rest else (k, s) ∷ later

-- incrementTimeSeriesTokenStats
unfoldable pub increment_time_series_token_stats :
    (Text → Text) → TokenSeries → Text → Text → DetailTotals → TokenSeries
increment_time_series_token_stats normalize stats model provider t =
    let m = trim_space model in
    let p = trim_space provider in
    add_tokens_at (time_series_token_key normalize m p) (no_tokens m p) t stats

-- The entry's counters less the tokens, and whether there was an entry.
unfoldable pub subtract_tokens_at : Text → DetailTotals → TokenSeries → TokenSeries × Bool
subtract_tokens_at key t [] = ([], false)
subtract_tokens_at key t ((k, s) ∷ rest) =
    let (later, found) = subtract_tokens_at key t rest in
    let less = subtract_tokens s t in
    if text_eq k key
    then ((if has_tokens less then (k, less) ∷ rest else rest), true)
    else ((k, s) ∷ later, found)

-- decrementTimeSeriesTokenStats
unfoldable pub decrement_time_series_token_stats :
    (Text → Text) → TokenSeries → Text → Text → DetailTotals → TokenSeries × Bool
decrement_time_series_token_stats normalize stats model provider t =
    subtract_tokens_at (time_series_token_key normalize model provider) t stats
