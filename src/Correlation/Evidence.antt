-- ===== src/Correlation/Evidence.antt =====
-- go/protocol_fallback.go: the evidence that two observations are of one request, and the edge
-- between them. Package strings' TrimRight, ToLower and EqualFold, over all of Unicode, are
-- parameters.
use cpa_usage_plugin.Common.{
  ℕ, ◌+◌, ◌-◌, ◌*◌, ◌/◌, Bool, true, false, ◌&&◌, ◌||◌, not, ltb, leb, ◌==◌, if◌then◌else◌, Option,
  none, some, List, [], ◌∷◌,
}
use cpa_usage_plugin.Common.Bits.{bool_eq}
use cpa_usage_plugin.Common.Instant.{second, is_zero}
use cpa_usage_plugin.Common.Text.{Text, text_eq, trim_space, is_empty}
use cpa_usage_plugin.Correlation.{
  OutputMode, reasoning_subset, reasoning_independent, output_ambiguous, CacheMode, split, combined,
  TokenShape, TokenEvidence, CorrelationObservation,
}
use cpa_usage_plugin.Correlation.Shapes.{checked_sum, is_fallback, is_native}

-- What the code takes from package strings: EqualFold, and the endpoint in lower case without
-- spaces and the slashes at its end.
pub record Strings : Type 0 where
  pub equal_fold : Text → Text → Bool
  pub plain_endpoint : Text → Text

-- "unknown", "/v1/chat/completions" and "/v1/responses"
abbrev pub unknown_model : Text
unknown_model = b'u' ∷ (b'n' ∷ (b'k' ∷ (b'n' ∷ (b'o' ∷ (b'w' ∷ (b'n' ∷ []))))))

abbrev pub responses_path : Text
responses_path =
    b'/'
    ∷ (b'v'
        ∷ (b'1'
            ∷ (b'/'
                ∷ (b'r'
                    ∷ (b'e' ∷ (b's' ∷ (b'p' ∷ (b'o' ∷ (b'n' ∷ (b's' ∷ (b'e' ∷ (b's' ∷ []))))))))))))

abbrev pub completions_path : Text
completions_path =
    b'/'
    ∷ (b'v'
        ∷ (b'1'
            ∷ (b'/'
                ∷ (b'c'
                    ∷ (b'h'
                        ∷ (b'a'
                            ∷ (b't'
                                ∷ (b'/'
                                    ∷ (b'c'
                                        ∷ (b'o'
                                            ∷ (b'm'
                                                ∷ (b'p'
                                                    ∷ (b'l'
                                                        ∷ (b'e'
                                                            ∷ (b't'
                                                            ∷ (b'i'
                                                            ∷ (b'o'
                                                            ∷ (b'n' ∷ (b's' ∷ [])))))))))))))))))))

-- protocolFallbackCompletionTolerance and its largest value
abbrev pub completion_tolerance : ℕ
completion_tolerance = second

abbrev pub completion_tolerance_max : ℕ
completion_tolerance_max = 5 * second

-- protocolFallbackTolerance, of a latency that is 0 where it is not positive
unfoldable pub fallback_tolerance : ℕ → ℕ
fallback_tolerance latency =
    if latency == 0
    then completion_tolerance
    else let extra = latency / 200 in
      if leb (completion_tolerance_max - completion_tolerance) extra
      then completion_tolerance_max
      else completion_tolerance + extra

-- absoluteProtocolDuration of the difference of two instants
abbrev pub time_distance : ℕ → ℕ → ℕ
time_distance a b = (a - b) + (b - a)

abbrev pub output_mode_eq : OutputMode → OutputMode → Bool
output_mode_eq reasoning_subset reasoning_subset = true
output_mode_eq reasoning_independent reasoning_independent = true
output_mode_eq output_ambiguous output_ambiguous = true
output_mode_eq _ _ = false

abbrev pub is_ambiguous : OutputMode → Bool
is_ambiguous output_ambiguous = true
is_ambiguous _ = false

abbrev pub is_split : CacheMode → Bool
is_split split = true
is_split _ = false

abbrev pub is_combined : CacheMode → Bool
is_combined combined = true
is_combined _ = false

abbrev pub same_shape : TokenShape → TokenShape → Bool
same_shape a b = a.full_input == b.full_input && a.full_output == b.full_output

abbrev pub larger : Option ℕ → ℕ → Option ℕ
larger none n = some n
larger (some best) n = if ltb best n then some n else some best

-- The best strength of two shapes that agree, over the shapes of the native record.
unfoldable pub best_with : TokenShape → List TokenShape → Option ℕ → Option ℕ
best_with a [] best = best
best_with a (b ∷ rest) best =
    best_with a rest (if same_shape a b then larger best (a.strength + b.strength) else best)

unfoldable pub best_strength : List TokenShape → List TokenShape → Option ℕ → Option ℕ
best_strength [] natives best = best
best_strength (a ∷ rest) natives best = best_strength rest natives (best_with a natives best)

-- protocolReasoningCompatible
unfoldable pub reasoning_compatible : TokenEvidence → TokenEvidence → Bool
reasoning_compatible f n =
    if not f.known.reasoning || not n.known.reasoning
    then true
    else if is_ambiguous f.output_mode
        || is_ambiguous n.output_mode
        || not (output_mode_eq f.output_mode n.output_mode)
    then true
    else f.reasoning == n.reasoning

abbrev pub sum_is : Option ℕ → ℕ → Bool
sum_is none n = false
sum_is (some sum) n = n == sum

-- protocolCacheEvidenceCompatible
unfoldable pub cache_compatible : TokenEvidence → TokenEvidence → Bool
cache_compatible f n =
    let fc = f.known.cache_combined && is_combined f.cache_mode in
    let nc = n.known.cache_combined && is_combined n.cache_mode in
    if fc && nc
    then f.cache_combined == n.cache_combined
    else if fc && is_split n.cache_mode && n.known.cache_read && n.known.cache_write
    then sum_is (checked_sum n.cache_read n.cache_write) f.cache_combined
    else if nc && is_split f.cache_mode && f.known.cache_read && f.known.cache_write
    then sum_is (checked_sum f.cache_read f.cache_write) n.cache_combined
    else if is_split f.cache_mode && is_split n.cache_mode
    then not (f.known.cache_read && n.known.cache_read && not (f.cache_read == n.cache_read))
      && not (f.known.cache_write && n.known.cache_write && not (f.cache_write == n.cache_write))
    else true

-- protocolCacheEvidenceKnownAndComparable
unfoldable pub cache_comparable : TokenEvidence → TokenEvidence → Bool
cache_comparable f n =
    if is_split f.cache_mode && is_split n.cache_mode
    then f.known.cache_read && n.known.cache_read
    else is_combined f.cache_mode
      && is_combined n.cache_mode
      && f.known.cache_combined
      && n.known.cache_combined

abbrev pub bonus : Bool → ℕ
bonus b = if b then 20 else 0

-- protocolTokenEvidenceCompatible: the strength, where the evidence is compatible
unfoldable pub tokens_compatible : TokenEvidence → TokenEvidence → Option ℕ
tokens_compatible f n =
    if f.invalid || n.invalid then none else elim (best_strength f.shapes n.shapes none) [
      | none ↦ none
      | some best ↦
          if not (reasoning_compatible f n) || not (cache_compatible f n)
          then none
          else some (
              best
              + bonus (
                  f.known.reasoning
                  && n.known.reasoning
                  && output_mode_eq f.output_mode n.output_mode
                  && not (is_ambiguous f.output_mode))
              + bonus (cache_comparable f n))
    ]

module _ (s : Strings) where
  -- isOpenAIProtocolFallbackEndpoint of a plain endpoint
  abbrev pub is_openai_path : Text → Bool
  is_openai_path endpoint = text_eq endpoint completions_path || text_eq endpoint responses_path

  -- protocolEndpointsCompatible
  unfoldable pub endpoints_compatible : Text → Text → Bool
  endpoints_compatible fallback native =
      let f = s.plain_endpoint fallback in
      let n = s.plain_endpoint native in
      if is_empty n || is_empty f || not (is_openai_path n) || not (is_openai_path f)
      then true
      else text_eq n f

  -- The vetoes of protocolCorrelationEvidence before the tokens.
  unfoldable pub may_correlate : CorrelationObservation → CorrelationObservation → Bool
  may_correlate f n =
      let model = trim_space f.requested_model in
      let client = trim_space f.client_identity in
      is_fallback f.role
      && is_native n.role
      && not (f.invalid || n.invalid)
      && not (is_empty model || is_empty (trim_space n.requested_model))
      && not (s.equal_fold model unknown_model)
      && s.equal_fold model (trim_space n.requested_model)
      && not (is_empty client || is_empty (trim_space n.client_identity))
      && s.equal_fold client (trim_space n.client_identity)
      && bool_eq f.failed n.failed
      && not (
          f.failed
          && ltb 0 f.status_code
          && ltb 0 n.status_code
          && not (f.status_code == n.status_code))
      && endpoints_compatible f.endpoint n.endpoint
      && not (f.synthetic_time || n.synthetic_time)
      && not (is_zero f.timestamp || is_zero n.timestamp)
      && ltb 0 n.latency

  -- protocolCorrelationEvidence
  unfoldable pub correlation_evidence : CorrelationObservation → CorrelationObservation → Option ℕ
  correlation_evidence f n = if may_correlate f n then tokens_compatible f.tokens n.tokens else none

  -- protocolCorrelationEdge: the strength and the distance
  unfoldable pub correlation_edge : CorrelationObservation → CorrelationObservation → Option (ℕ × ℕ)
  correlation_edge f n = elim (correlation_evidence f n) [
    | none ↦ none
    | some strength ↦
        let distance = time_distance f.timestamp (n.timestamp + n.latency) in
        if ltb (fallback_tolerance n.latency) distance then none else some (strength, distance)
  ]
