-- ===== src/Counters/Undo.antt =====
-- go/stats.go: the removal of a request from the counters of its model's providers.
use cpa_usage_plugin.Common.{
  ◌≡◌, refl, ap, Bool, true, false, [], ◌∷◌, All, arith, Bool-cases, inl, inr,
}
use cpa_usage_plugin.Common.Int.{ℤ, pos, is_positive}
use cpa_usage_plugin.Common.Text.{Text, text_eq, text_eq_refl, trim_space}
use cpa_usage_plugin.Counters.{DetailTotals, ModelProviderStat}
use cpa_usage_plugin.Counters.Saturating.{IsInt64, Fits, subtract-add}
use cpa_usage_plugin.Counters.Providers.{
  no_requests, increment_stat, decrement_stat, ProviderStats, increment_at, decrement_at,
  increment_model_provider_stats, decrement_model_provider_stats, model_provider_stats_key,
}

-- Each counter is not negative and has room for the request.
pub record StatFits (s : ModelProviderStat) (t : DetailTotals) : Type 0 where
  pub requests : Fits s.total_requests (pos 1)
  pub successes : Fits s.success_count (pos 1)
  pub failures : Fits s.failure_count (pos 1)
  pub total : Fits s.total_tokens t.total_tokens
  pub input : Fits s.input_tokens t.input_tokens
  pub output : Fits s.output_tokens t.output_tokens
  pub cached : Fits s.cached_tokens t.cached_tokens
  pub written : Fits s.cache_write_tokens t.cache_write_tokens
  pub reasoning : Fits s.reasoning_tokens t.reasoning_tokens

decrement-increment_stat :
    (s : ModelProviderStat) (failed : Bool) (t : DetailTotals)
    → StatFits s t
    → decrement_stat (increment_stat s failed t) failed t ≡ s
unfolding decrement_stat increment_stat
decrement-increment_stat s false t fits =
    rw
      (
        subtract-add _ _ fits.requests,
        subtract-add _ _ fits.successes,
        subtract-add _ _ fits.total,
        subtract-add _ _ fits.input,
        subtract-add _ _ fits.output,
        subtract-add _ _ fits.cached,
        subtract-add _ _ fits.written,
        subtract-add _ _ fits.reasoning,
      )
      refl
decrement-increment_stat s true t fits =
    rw
      (
        subtract-add _ _ fits.requests,
        subtract-add _ _ fits.failures,
        subtract-add _ _ fits.total,
        subtract-add _ _ fits.input,
        subtract-add _ _ fits.output,
        subtract-add _ _ fits.cached,
        subtract-add _ _ fits.written,
        subtract-add _ _ fits.reasoning,
      )
      refl

-- The counts of a request are int64.
pub record TotalsInt64 (t : DetailTotals) : Type 0 where
  pub total : IsInt64 t.total_tokens
  pub input : IsInt64 t.input_tokens
  pub output : IsInt64 t.output_tokens
  pub cached : IsInt64 t.cached_tokens
  pub written : IsInt64 t.cache_write_tokens
  pub reasoning : IsInt64 t.reasoning_tokens

zero-Fits : (b : ℤ) → IsInt64 b → Fits (pos 0) b
zero-Fits b h = record { counter = refl; room = omega (arith, h) }

no_requests-StatFits : (p : Text) (t : DetailTotals) → TotalsInt64 t → StatFits (no_requests p) t
no_requests-StatFits p t h = record {
  requests = zero-Fits (pos 1) (omega arith);
  successes = zero-Fits (pos 1) (omega arith);
  failures = zero-Fits (pos 1) (omega arith);
  total = zero-Fits t.total_tokens h.total;
  input = zero-Fits t.input_tokens h.input;
  output = zero-Fits t.output_tokens h.output;
  cached = zero-Fits t.cached_tokens h.cached;
  written = zero-Fits t.cache_write_tokens h.written;
  reasoning = zero-Fits t.reasoning_tokens h.reasoning;
}

-- The entry of a key, where there is one, has counted a request and has room for another.
abbrev pub Undoable : Text → DetailTotals → ProviderStats → Type 0
Undoable key t stats =
    All (λ e. text_eq e.0 key ≡ true → StatFits e.1 t × (is_positive e.1.total_requests ≡ true))
      stats

decrement-increment_at :
    (key provider : Text) (failed : Bool) (t : DetailTotals)
    → TotalsInt64 t
    → (stats : ProviderStats) → Undoable key t stats
    → decrement_at key failed t (increment_at key provider failed t stats) ≡ stats
unfolding decrement_at increment_at
decrement-increment_at key provider failed t h [] ok =
    let fresh = no_requests (trim_space provider) in
    rw
      (
        text_eq_refl key,
        decrement-increment_stat fresh failed t (no_requests-StatFits (trim_space provider) t h),
      )
      refl
decrement-increment_at key provider failed t h ((k, s) ∷ rest) ok =
    elim (Bool-cases (text_eq k key)) [
      | inl e ↦
          rw (e, decrement_at, e, decrement-increment_stat s failed t (ok.0 e).0, (ok.0 e).1) refl
      | inr e ↦
          rw (e, decrement_at, e)
            (ap (λ l. (k, s) ∷ l) (decrement-increment_at key provider failed t h rest ok.1))
    ]

-- Removing a request from the counters of a model's providers gives back the counters before it was
-- recorded, the entry that it created included: for int64 counts, and where the provider's entry, if
-- there is one, has counted a request before, has no negative counter and has room below the largest
-- int64.
pub decrement-increment_model_provider_stats :
    (to_lower : Text → Text) (stats : ProviderStats) (provider : Text) (failed : Bool)
    (t : DetailTotals)
    → TotalsInt64 t
    → Undoable (model_provider_stats_key to_lower provider) t stats
    → decrement_model_provider_stats to_lower
        (increment_model_provider_stats to_lower stats provider failed t)
        provider
        failed
        t
      ≡ stats
unfolding decrement_model_provider_stats increment_model_provider_stats
decrement-increment_model_provider_stats to_lower stats provider failed t h ok =
    decrement-increment_at (model_provider_stats_key to_lower provider) provider failed t h stats ok
