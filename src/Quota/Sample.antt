-- ===== src/Quota/Sample.antt =====
-- go/quota_cycles.go and go/quota_storage.go: which observations are equal and which are valid, and
-- the order of a period's samples.
use cpa_usage_plugin.Common.{
  ℕ, ◌-◌, ◌*◌, Bool, true, false, ◌&&◌, ◌||◌, not, List, [], ◌∷◌, ltb, leb, ◌==◌, if◌then◌else◌,
}
use cpa_usage_plugin.Common.Text.{Text, text_eq, is_empty, byte_length}
use cpa_usage_plugin.Quota.{Observation, Period, UsageFloat, is_zero, seconds}

abbrev pub bool_eq : Bool → Bool → Bool
bool_eq true b = b
bool_eq false b = not b

-- What go/quota_signals.go says of a provider and of a source's name.
pub record Providers : Type 0 where
  pub is_quota_provider : Text → Bool
  pub is_valid_source : Text → Text → Bool

module _ {U : Type 0} (f : UsageFloat U) where
  -- quotaSameObservation; `==` on instants is Time.Equal.
  unfoldable pub same_observation : Observation U → Observation U → Bool
  same_observation a b =
      text_eq a.provider b.provider
      && (text_eq a.auth_index b.auth_index
          && (text_eq a.auth_id b.auth_id
              && (text_eq a.source b.source
                  && (text_eq a.group b.group
                      && (text_eq a.name b.name
                          && (text_eq a.slot b.slot
                              && (a.seconds == b.seconds
                                  && (a.reset == b.reset
                                      && (a.observed_at == b.observed_at
                                          && (f.eq a.used b.used
                                              && (text_eq a.model b.model
                                                  && (bool_eq a.unmapped b.unmapped
                                                      && bool_eq a.revoked b.revoked))))))))))))

  -- The identity of an observation, as validQuotaObservation wants it.
  unfoldable pub identity_valid : Providers → Observation U → Bool
  identity_valid providers o =
      providers.is_quota_provider o.provider
      && ((not (is_empty o.auth_index) || not (is_empty o.auth_id))
          && (leb (byte_length o.auth_id) 512
              && (leb (byte_length o.auth_index) 512
                  && (not (is_empty o.group)
                      && (leb (byte_length o.group) 256
                          && (not (is_empty o.slot)
                              && (leb (byte_length o.slot) 64
                                  && (leb (byte_length o.name) 256
                                      && (not (is_zero o.observed_at)
                                          && providers.is_valid_source o.provider o.source)))))))))

  -- validQuotaObservation
  unfoldable pub valid_observation : Providers → Observation U → Bool
  unfolding identity_valid
  valid_observation providers o =
      let valid = identity_valid providers o in
      if not valid || o.revoked
      then valid && o.revoked
      else ltb 0 o.seconds
        && (leb o.seconds (366 * 86400)
            && (not (is_zero o.reset)
                && (not (f.is_nan o.used)
                    && (not (f.is_inf o.used)
                        && (f.le f.zero o.used
                            && (f.le o.used f.one
                                && (leb (o.reset - seconds o.seconds) o.observed_at
                                    && leb o.observed_at o.reset)))))))

  -- The loop over period.Samples that looks for the observation.
  unfoldable pub has_sample : List (Observation U) → Observation U → Bool
  unfolding same_observation
  has_sample [] o = false
  has_sample (s ∷ rest) o = same_observation s o || has_sample rest o

module _ {U : Type 0} where
  unfoldable pub insert_sample : Observation U → List (Observation U) → List (Observation U)
  insert_sample o [] = o ∷ []
  insert_sample o (s ∷ rest) =
      let below = insert_sample o rest in
      if ltb s.observed_at o.observed_at then s ∷ below else o ∷ s ∷ rest

  -- sort.SliceStable by ObservedAt
  unfoldable pub sort_samples : List (Observation U) → List (Observation U)
  unfolding insert_sample
  sort_samples [] = []
  sort_samples (s ∷ rest) = insert_sample s (sort_samples rest)

  -- quotaSamplesSorted
  unfoldable pub samples_sorted : List (Observation U) → Bool
  samples_sorted [] = true
  samples_sorted (s ∷ []) = true
  samples_sorted (s ∷ t ∷ rest) = not (ltb t.observed_at s.observed_at) && samples_sorted (t ∷ rest)

  -- validQuotaPeriodSpan
  unfoldable pub valid_period_span : Period U → ℕ → Bool
  valid_period_span p n =
      let duration = p.end - p.start in
      ltb 0 duration && (leb duration (seconds n) && (p.ended_by_reset || duration == seconds n))
