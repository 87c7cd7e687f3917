-- ===== src/Counters/Finalize.antt =====
-- go/stats.go, finalizedModelProviderStats: the providers of a model with what no provider accounts
-- for, most requests first.
use cpa_usage_plugin.Common.{
  ℕ, ◌+◌, ◌-◌, ◌≤◌, ◌≡◌, refl, ap, ◌∙◌, Bool, true, false, ◌&&◌, ◌||◌, List, [], ◌∷◌, ◌++◌, ltb,
  ◌==◌, if◌then◌else◌, max, min, arith, Bool-cases, inl, inr,
}
use cpa_usage_plugin.Common.Int.{ℤ, pos, non_negative, max_int64, is_positive}
use cpa_usage_plugin.Common.Text.{Text}
use cpa_usage_plugin.Counters.{ModelProviderStat}
use cpa_usage_plugin.Counters.Saturating.{saturating_protocol_add, saturating_protocol_add-min}
use cpa_usage_plugin.Counters.Providers.{ProviderStats}

-- `<` on strings.
unfoldable pub text_lt : Text → Text → Bool
text_lt s [] = false
text_lt [] (d ∷ t) = true
text_lt (c ∷ s) (d ∷ t) = let rest = text_lt s t in ltb c d || (c == d && rest)

-- The providers that have requests.
unfoldable pub active_providers : ProviderStats → List ModelProviderStat
active_providers [] = []
active_providers ((k, s) ∷ rest) =
    let later = active_providers rest in if is_positive s.total_requests then s ∷ later else later

-- The saturating sum of a counter over them, in the order of the loop.
unfoldable pub sum_counter : (ModelProviderStat → ℤ) → ℤ → List ModelProviderStat → ℤ
sum_counter field sum [] = sum
sum_counter field sum (s ∷ rest) = sum_counter field (saturating_protocol_add sum (field s)) rest

-- maxInt64(total - sum, 0), of two counters that are not negative.
abbrev pub remaining : ℤ → ℤ → ℤ
remaining total sum = pos (non_negative total - non_negative sum)

-- What the providers do not account for.
unfoldable pub remainder : ModelProviderStat → List ModelProviderStat → ModelProviderStat
remainder total providers = record {
  provider = [];
  total_requests =
      remaining total.total_requests (sum_counter (λ s. s.total_requests) (pos 0) providers);
  success_count =
      remaining total.success_count (sum_counter (λ s. s.success_count) (pos 0) providers);
  failure_count =
      remaining total.failure_count (sum_counter (λ s. s.failure_count) (pos 0) providers);
  total_tokens = remaining total.total_tokens (sum_counter (λ s. s.total_tokens) (pos 0) providers);
  input_tokens = remaining total.input_tokens (sum_counter (λ s. s.input_tokens) (pos 0) providers);
  output_tokens =
      remaining total.output_tokens (sum_counter (λ s. s.output_tokens) (pos 0) providers);
  cached_tokens =
      remaining total.cached_tokens (sum_counter (λ s. s.cached_tokens) (pos 0) providers);
  cache_write_tokens =
      remaining total.cache_write_tokens
        (sum_counter (λ s. s.cache_write_tokens) (pos 0) providers);
  reasoning_tokens =
      remaining total.reasoning_tokens (sum_counter (λ s. s.reasoning_tokens) (pos 0) providers);
}

abbrev pub is_worth_listing : ModelProviderStat → Bool
is_worth_listing s =
    is_positive s.total_requests
    || (is_positive s.total_tokens
        || (is_positive s.input_tokens
            || (is_positive s.output_tokens
                || (is_positive s.cached_tokens
                    || (is_positive s.cache_write_tokens || is_positive s.reasoning_tokens)))))

-- The order of the list: more requests first, then by name. The counts listed are not negative.
abbrev pub comes_before : ModelProviderStat → ModelProviderStat → Bool
comes_before a b =
    if non_negative a.total_requests == non_negative b.total_requests
    then text_lt a.provider b.provider
    else ltb (non_negative b.total_requests) (non_negative a.total_requests)

unfoldable pub insert_provider : ModelProviderStat → List ModelProviderStat → List ModelProviderStat
insert_provider s [] = s ∷ []
insert_provider s (u ∷ rest) =
    let later = insert_provider s rest in if comes_before u s then u ∷ later else s ∷ u ∷ rest

-- sort.SliceStable
unfoldable pub sort_providers : List ModelProviderStat → List ModelProviderStat
sort_providers [] = []
sort_providers (s ∷ rest) = insert_provider s (sort_providers rest)

abbrev pub with_remainder : List ModelProviderStat → ModelProviderStat → List ModelProviderStat
with_remainder providers r = if is_worth_listing r then providers ++ r ∷ [] else providers

-- finalizedModelProviderStats, with the model's own counters in one record.
unfoldable pub finalized_model_provider_stats :
    ProviderStats → ModelProviderStat → List ModelProviderStat
finalized_model_provider_stats stats total =
    let providers = active_providers stats in
    sort_providers (with_remainder providers (remainder total providers))

-- The requests of a list of providers.
abbrev pub requests : List ModelProviderStat → ℕ
requests [] = 0
requests (s ∷ rest) = non_negative s.total_requests + requests rest

requests-insert :
    (s : ModelProviderStat) (l : List ModelProviderStat)
    → requests (insert_provider s l) ≡ non_negative s.total_requests + requests l
unfolding insert_provider
requests-insert s [] = refl
requests-insert s (u ∷ rest) = elim (Bool-cases (comes_before u s)) [
  | inl e ↦ rw e (omega (arith, requests-insert s rest))
  | inr e ↦ rw e
]

requests-sort : (l : List ModelProviderStat) → requests (sort_providers l) ≡ requests l
unfolding sort_providers
requests-sort [] = refl
requests-sort (s ∷ rest) =
    requests-insert s (sort_providers rest)
    ∙ ap (λ n. non_negative s.total_requests + n) (requests-sort rest)

requests-append : (l m : List ModelProviderStat) → requests (l ++ m) ≡ requests l + requests m
requests-append [] m = omega arith
requests-append (s ∷ l) m = omega (arith, requests-append l m)

sum_counter-requests :
    (n : ℕ) (l : List ModelProviderStat)
    → n + requests l ≤ max_int64
    → sum_counter (λ s. s.total_requests) (pos n) l ≡ pos (n + requests l)
unfolding sum_counter
sum_counter-requests n [] h = ap pos (omega arith)
sum_counter-requests n (s ∷ l) h =
    let sum =
      saturating_protocol_add-min (pos n) s.total_requests (omega (arith, h)) (omega (arith, h)) in
    let whole : min (n + non_negative s.total_requests) max_int64
        ≡ n + non_negative s.total_requests =
      omega (arith, h) in
    rw (sum, whole)
      (sum_counter-requests (n + non_negative s.total_requests) l (omega (arith, h))
        ∙ ap pos (omega arith))

listed :
    (providers : List ModelProviderStat) (r : ModelProviderStat)
    → requests (with_remainder providers r) ≡ requests providers + non_negative r.total_requests
listed providers r = elim (Bool-cases (is_worth_listing r)) [
  | inl e ↦ rw e (requests-append providers (r ∷ []) ∙ omega arith)
  | inr e ↦ rw e (ground (arith, e))
]

-- The requests of the providers that are listed for a model add up to the model's requests, or to
-- those of its providers where they have more, for providers whose requests add up to an int64.
pub requests-finalized :
    (stats : ProviderStats) (total : ModelProviderStat)
    → requests (active_providers stats) ≤ max_int64
    → requests (finalized_model_provider_stats stats total)
      ≡ max (non_negative total.total_requests) (requests (active_providers stats))
unfolding finalized_model_provider_stats remainder
requests-finalized stats total h =
    let providers = active_providers stats in
    requests-sort (with_remainder providers (remainder total providers))
    ∙ listed providers (remainder total providers)
    ∙ rw (sum_counter-requests 0 providers (omega (arith, h))) (omega arith)
