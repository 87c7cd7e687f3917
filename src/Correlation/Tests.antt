-- ===== src/Correlation/Tests.antt =====
-- Concrete records, and the theorems of this part at them.
use cpa_usage_plugin.Common.{◌+◌, ◌*◌, ◌≡◌, ◌≤◌, refl, true, false, some, [], ◌∷◌, All}
use cpa_usage_plugin.Common.Bits.{bool_eq}
use cpa_usage_plugin.Common.Instant.{zero_time, second}
use cpa_usage_plugin.Common.Text.{text_eq, trim_space, trim_left, is_space}
use cpa_usage_plugin.Correlation.{
  fallback_role, native_role, cache_subset, cache_independent, reasoning_subset, split, KnownFields,
  TokenEvidence, CorrelationObservation,
}
use cpa_usage_plugin.Correlation.Shapes.{
  build_token_shapes, is_fallback, is_native, input_variants, output_variants, independent_inputs,
  add_split, add_sum, add_variant, checked_sum, raw_shapes, all_pairs, pairs_with, add_shape,
  merge_shape, of_total, sort_shapes, insert_shape,
}
use cpa_usage_plugin.Correlation.ShapeLaws.{Fitting, build_token_shapes-Fitting}
use cpa_usage_plugin.Correlation.Evidence.{
  Strings, fallback_tolerance, time_distance, tokens_compatible, may_correlate,
  correlation_evidence, correlation_edge, reasoning_compatible, cache_compatible, cache_comparable,
  best_strength, best_with, endpoints_compatible,
}
use cpa_usage_plugin.Correlation.EdgeLaws.{correlation_edge-near}

abbrev some_known : KnownFields
some_known = record {
  input = true;
  output = true;
  reasoning = false;
  cache_read = true;
  cache_write = true;
  cache_combined = false;
  total = false;
}

-- 100 tokens of input, 20 of them in the cache, and 7 of output.
abbrev fallback_tokens : TokenEvidence
fallback_tokens = record {
  input = 100;
  output = 7;
  reasoning = 0;
  cache_read = 20;
  cache_write = 0;
  cache_combined = 0;
  total = 0;
  known = some_known;
  input_mode = cache_subset;
  output_mode = reasoning_subset;
  cache_mode = split;
  shapes = [];
  invalid = false;
}

-- The same request as a protocol reports it that leaves the cache out of the input.
abbrev native_tokens : TokenEvidence
native_tokens = record fallback_tokens { input = 80; total = 107; input_mode = cache_independent }

native_shapes :
    build_token_shapes native_tokens native_role
    ≡ (record { full_input = 100; full_output = 7; total = 107; strength = 90 } ∷ [])
unfolding build_token_shapes input_variants output_variants independent_inputs add_split add_sum
    add_variant checked_sum raw_shapes all_pairs pairs_with add_shape merge_shape of_total
    sort_shapes insert_shape
native_shapes = refl

build_token_shapes-Fitting_example :
    All (Fitting native_tokens native_role) (build_token_shapes native_tokens native_role)
build_token_shapes-Fitting_example = build_token_shapes-Fitting native_tokens native_role

abbrev plain_strings : Strings
plain_strings = record { equal_fold = text_eq; plain_endpoint = λ t. t }

abbrev fallback_seen : CorrelationObservation
fallback_seen = record {
  role = fallback_role;
  requested_model = b'm' ∷ [];
  client_identity = b'c' ∷ [];
  failed = false;
  status_code = 0;
  endpoint = [];
  timestamp = zero_time + 12 * second;
  latency = 0;
  synthetic_time = false;
  invalid = false;
  tokens = record fallback_tokens {
    shapes = record { full_input = 100; full_output = 7; total = 107; strength = 90 } ∷ [];
  };
}

abbrev native_seen : CorrelationObservation
native_seen = record fallback_seen {
  role = native_role;
  timestamp = zero_time + 2 * second;
  latency = 9 * second + 500000000;
  tokens = record native_tokens {
    shapes = record { full_input = 100; full_output = 7; total = 107; strength = 90 } ∷ [];
  };
}

an_edge : correlation_edge plain_strings fallback_seen native_seen ≡ some (200, 500000000)
unfolding correlation_edge correlation_evidence may_correlate tokens_compatible fallback_tolerance
    reasoning_compatible cache_compatible cache_comparable best_strength best_with
    endpoints_compatible trim_space trim_left is_space
an_edge = refl

correlation_edge-near_example :
    (is_fallback fallback_seen.role ≡ true)
    × (is_native native_seen.role ≡ true)
    × (text_eq (trim_space (b'c' ∷ [])) (trim_space (b'c' ∷ [])) ≡ true)
    × (bool_eq false false ≡ true)
    × (500000000
        ≡ time_distance fallback_seen.timestamp (native_seen.timestamp + native_seen.latency))
    × (500000000 ≤ fallback_tolerance native_seen.latency)
    × (500000000 ≤ 5 * second)
correlation_edge-near_example =
    correlation_edge-near plain_strings fallback_seen native_seen 200 500000000 an_edge
