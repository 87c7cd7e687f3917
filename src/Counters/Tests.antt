-- ===== src/Counters/Tests.antt =====
-- Concrete counters, and the theorems of this part at them.
use cpa_usage_plugin.Common.{ℕ, ◌≡◌, refl, true, [], ◌∷◌, arith, ◌+◌}
use cpa_usage_plugin.Common.Int.{pos, negsuc}
use cpa_usage_plugin.Common.Text.{Text, trim_space}
use cpa_usage_plugin.Counters.{DetailTotals, ModelProviderStat}
use cpa_usage_plugin.Counters.Saturating.{
  saturating_protocol_add, subtract_non_negative, subtract-add,
}
use cpa_usage_plugin.Counters.Providers.{
  ProviderStats, increment_model_provider_stats, decrement_model_provider_stats,
}
use cpa_usage_plugin.Counters.Undo.{decrement-increment_model_provider_stats}
use cpa_usage_plugin.Counters.Finalize.{
  active_providers, requests, finalized_model_provider_stats, requests-finalized,
}

abbrev same_case : Text → Text
same_case t = t

abbrev twenty_tokens : DetailTotals
twenty_tokens = record {
  total_tokens = pos 20;
  input_tokens = pos 15;
  output_tokens = pos 5;
  cached_tokens = pos 3;
  cache_write_tokens = pos 0;
  reasoning_tokens = negsuc 0;
  latency_sum = pos 0;
  latency_n = pos 0;
}

abbrev counted : Text → ℕ → ModelProviderStat
counted name n = record {
  provider = name;
  total_requests = pos n;
  success_count = pos n;
  failure_count = pos 0;
  total_tokens = pos (20 + n);
  input_tokens = pos 15;
  output_tokens = pos 5;
  cached_tokens = pos 3;
  cache_write_tokens = pos 0;
  reasoning_tokens = pos 0;
}

abbrev two_providers : ProviderStats
two_providers = (b'a' ∷ [], counted (b'a' ∷ []) 2) ∷ (b'b' ∷ [], counted (b'b' ∷ []) 5) ∷ []

decrement-increment_model_provider_stats_example :
    decrement_model_provider_stats same_case
      (increment_model_provider_stats same_case two_providers (b'b' ∷ []) true twenty_tokens)
      (b'b' ∷ [])
      true
      twenty_tokens
    ≡ two_providers
unfolding trim_space
decrement-increment_model_provider_stats_example =
    decrement-increment_model_provider_stats same_case two_providers (b'b' ∷ []) true twenty_tokens
      (record {
        total = omega arith;
        input = omega arith;
        output = omega arith;
        cached = omega arith;
        written = omega arith;
        reasoning = omega arith;
      })
      (
        (λ e. absurd (cc)),
        (
          (λ e. (
            record {
              requests = record { counter = refl; room = omega arith };
              successes = record { counter = refl; room = omega arith };
              failures = record { counter = refl; room = omega arith };
              total = record { counter = refl; room = omega arith };
              input = record { counter = refl; room = omega arith };
              output = record { counter = refl; room = omega arith };
              cached = record { counter = refl; room = omega arith };
              written = record { counter = refl; room = omega arith };
              reasoning = record { counter = refl; room = omega arith };
            },
            refl,
          )),
          tt,
        ),
      )

subtract-add_example :
    subtract_non_negative (saturating_protocol_add (pos 7) (negsuc 2)) (negsuc 2) ≡ pos 7
subtract-add_example =
    subtract-add (pos 7) (negsuc 2) (record { counter = refl; room = omega arith })

requests-finalized_example :
    requests (finalized_model_provider_stats two_providers (counted [] 9)) ≡ 9
unfolding active_providers
requests-finalized_example = requests-finalized two_providers (counted [] 9) (omega arith)
