-- ===== src/Correlation/EdgeLaws.antt =====
-- go/protocol_fallback.go, protocolCorrelationEdge: two records that have an edge.
use cpa_usage_plugin.Common.{
  ℕ, ◌+◌, ◌*◌, ◌≤◌, ◌≡◌, refl, sym, ◌∙◌, true, ltb, none, some, arith, Bool-cases, Option-cases,
  inl, inr,
}
use cpa_usage_plugin.Common.Bits.{bool_eq}
use cpa_usage_plugin.Common.Text.{trim_space}
use cpa_usage_plugin.Common.Instant.{second}
use cpa_usage_plugin.Correlation.{CorrelationObservation}
use cpa_usage_plugin.Correlation.Shapes.{is_fallback, is_native}
use cpa_usage_plugin.Correlation.Evidence.{
  Strings, fallback_tolerance, time_distance, tokens_compatible, may_correlate,
  correlation_evidence, correlation_edge,
}

fallback_tolerance-max : (latency : ℕ) → fallback_tolerance latency ≤ 5 * second
unfolding fallback_tolerance
fallback_tolerance-max latency = ground arith

evidence-some :
    (s : Strings) (f n : CorrelationObservation) (strength : ℕ)
    → correlation_evidence s f n ≡ some strength
    → (may_correlate s f n ≡ true) × (tokens_compatible f.tokens n.tokens ≡ some strength)
unfolding correlation_evidence
evidence-some s f n strength h = elim (Bool-cases (may_correlate s f n)) [
  | inl e ↦ (e, sym (rw (correlation_evidence, e) refl) ∙ h)
  | inr e ↦
      let no : none ≡ some strength = sym (rw (correlation_evidence, e) refl) ∙ h in absurd (cc)
]

-- Where protocolCorrelationEdge gives an edge, the first record is a fallback and the second a
-- native one, of one client, with one outcome, and the fallback was seen at most the tolerance for
-- the native latency, which is five seconds at most, from the native completion; the distance of
-- the edge is that between the two.
pub correlation_edge-near :
    (s : Strings) (f n : CorrelationObservation) (strength distance : ℕ)
    → correlation_edge s f n ≡ some (strength, distance)
    → (is_fallback f.role ≡ true)
      × (is_native n.role ≡ true)
      × (s.equal_fold (trim_space f.client_identity) (trim_space n.client_identity) ≡ true)
      × (bool_eq f.failed n.failed ≡ true)
      × (distance ≡ time_distance f.timestamp (n.timestamp + n.latency))
      × (distance ≤ fallback_tolerance n.latency)
      × (distance ≤ 5 * second)
unfolding correlation_edge may_correlate
correlation_edge-near s f n strength distance h = elim (Option-cases (correlation_evidence s f n)) [
  | inl gone ↦
      let no : none ≡ some (strength, distance) = sym (rw (correlation_edge, gone) refl) ∙ h in
      absurd (cc)
  | inr (found, here) ↦
      let far = time_distance f.timestamp (n.timestamp + n.latency) in
      elim (Bool-cases (ltb (fallback_tolerance n.latency) far)) [
        | inl late ↦
            let no : none ≡ some (strength, distance) =
              sym (rw (correlation_edge, here, late) refl) ∙ h in
            absurd (cc)
        | inr near ↦
            let yes : some (found, far) ≡ some (strength, distance) =
              sym (rw (correlation_edge, here, near) refl) ∙ h in
            let same : far ≡ distance = cc in
            let fine = (evidence-some s f n found here).0 in
            let close : far ≤ fallback_tolerance n.latency = ground (arith, near) in
            (
              ground (arith, fine),
              ground (arith, fine),
              ground (arith, fine),
              ground (arith, fine),
              sym same,
              omega (arith, same, close),
              omega (arith, same, close, fallback_tolerance-max n.latency),
            )
      ]
]
