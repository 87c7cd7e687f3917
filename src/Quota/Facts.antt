-- ===== src/Quota/Facts.antt =====
-- go/quota_cycles.go, go/quota_storage.go and go/quota_signals.go: the state of the quota cycles, and
-- its facts, the requests that count towards a period. Conversion to lower case and the record id of
-- a request without one (a SHA-256 of the request) are parameters.
use cpa_usage_plugin.Common.{
  ℕ, ◌+◌, ◌*◌, ◌%◌, ◌^◌, Bool, true, false, ◌&&◌, ◌||◌, not, Option, none, some, List, [], ◌∷◌,
  ◌++◌, ltb, leb, ◌==◌, if◌then◌else◌,
}
use cpa_usage_plugin.Common.Int.{ℤ, pos, negsuc}
use cpa_usage_plugin.Common.Instant.{zero_time, is_zero}
use cpa_usage_plugin.Common.Maps.{lookup, insert, delete}
use cpa_usage_plugin.Common.Text.{Text, text_eq, trim_space, is_empty, byte_length}
use cpa_usage_plugin.Counters.{TokenStats}
use cpa_usage_plugin.Quota.{Window}
use cpa_usage_plugin.Quota.Sample.{bool_eq}

-- RequestDetail, the fields that this part reads.
pub record RequestDetail : Type 0 where
  pub record_id : Text
  pub model : Text
  pub timestamp : ℕ
  pub timestamp_synthetic : Bool
  pub latency_ms : ℤ
  pub provider : Text
  pub auth_id : Text
  pub auth_index : Text
  pub auth_type : Text
  pub tokens : TokenStats
  pub failed : Bool

-- quotaFact
pub record QuotaFact : Type 0 where
  pub id : Text
  pub api : Text
  pub provider : Text
  pub auth_index : Text
  pub auth_id : Text
  pub model : Text
  pub timestamp : ℕ
  pub timestamp_synthetic : Bool
  pub completed_at : ℕ
  pub failed : Bool
  pub tokens : TokenStats

-- quotaState, with its snapshot's fields in it.
pub record QuotaState (U : Type 0) : Type 0 where
  pub version : ℕ
  pub started_at : ℕ
  pub facts : List (Text × QuotaFact)
  pub windows : List (Text × Window U)
  pub deleted : List (Text × ℕ)
  pub version_counter : ℕ
  pub next_prune : ℕ

-- `q.VersionCounter++`
abbrev pub bump : {U : Type 0} → QuotaState U → QuotaState U
bump q = record q { version_counter = (q.version_counter + 1) % 2 ^ 64 }

-- ensureQuotaLocked
unfoldable pub ensure_quota : {U : Type 0} → ℕ → Option (QuotaState U) → QuotaState U
ensure_quota started_at (some q) = q
ensure_quota started_at none = record {
  version = 1;
  started_at = started_at;
  facts = [];
  windows = [];
  deleted = [];
  version_counter = 0;
  next_prune = zero_time;
}

abbrev pub provider_names : List Text
provider_names =
    (b'c' ∷ b'l' ∷ b'a' ∷ b'u' ∷ b'd' ∷ b'e' ∷ [])
    ∷ (b'c' ∷ b'o' ∷ b'd' ∷ b'e' ∷ b'x' ∷ [])
    ∷ (b'd' ∷ b'e' ∷ b'v' ∷ b'i' ∷ b'n' ∷ [])
    ∷ (b'a' ∷ b'n' ∷ b't' ∷ b'i' ∷ b'g' ∷ b'r' ∷ b'a' ∷ b'v' ∷ b'i' ∷ b't' ∷ b'y' ∷ [])
    ∷ []

abbrev pub api_key_names : List Text
api_key_names =
    (b'a' ∷ b'p' ∷ b'i' ∷ b'_' ∷ b'k' ∷ b'e' ∷ b'y' ∷ [])
    ∷ (b'a' ∷ b'p' ∷ b'i' ∷ b'k' ∷ b'e' ∷ b'y' ∷ [])
    ∷ (b'a' ∷ b'p' ∷ b'i' ∷ b'-' ∷ b'k' ∷ b'e' ∷ b'y' ∷ [])
    ∷ []

abbrev pub is_one_of : List Text → Text → Bool
is_one_of [] t = false
is_one_of (s ∷ rest) t = text_eq t s || is_one_of rest t

abbrev pub not_negative : ℤ → Bool
not_negative (pos n) = true
not_negative (negsuc n) = false

abbrev pub int_eq : ℤ → ℤ → Bool
int_eq (pos a) (pos b) = a == b
int_eq (pos a) (negsuc b) = false
int_eq (negsuc a) (pos b) = false
int_eq (negsuc a) (negsuc b) = a == b

abbrev pub tokens_eq : TokenStats → TokenStats → Bool
tokens_eq a b =
    int_eq a.input_tokens b.input_tokens
    && (int_eq a.output_tokens b.output_tokens
        && (int_eq a.reasoning_tokens b.reasoning_tokens
            && (int_eq a.cached_tokens b.cached_tokens
                && (int_eq a.cache_read_tokens b.cache_read_tokens
                    && (int_eq a.cache_tokens b.cache_tokens
                        && (int_eq a.cache_write_tokens b.cache_write_tokens
                            && int_eq a.total_tokens b.total_tokens))))))

-- quotaFactsEqual
unfoldable pub quota_facts_equal : QuotaFact → QuotaFact → Bool
quota_facts_equal a b =
    a.timestamp == b.timestamp
    && (a.completed_at == b.completed_at
        && (text_eq a.id b.id
            && (text_eq a.api b.api
                && (text_eq a.provider b.provider
                    && (text_eq a.auth_index b.auth_index
                        && (text_eq a.auth_id b.auth_id
                            && (text_eq a.model b.model
                                && (bool_eq a.timestamp_synthetic b.timestamp_synthetic
                                    && (bool_eq a.failed b.failed
                                        && tokens_eq a.tokens b.tokens)))))))))

abbrev tokens_not_negative : TokenStats → Bool
tokens_not_negative t =
    not_negative t.input_tokens
    && (not_negative t.output_tokens
        && (not_negative t.reasoning_tokens
            && (not_negative t.cached_tokens
                && (not_negative t.cache_read_tokens
                    && (not_negative t.cache_write_tokens
                        && (not_negative t.cache_tokens && not_negative t.total_tokens))))))

-- The largest latency, of 366 days in milliseconds.
abbrev max_latency : ℕ
max_latency = 31622400000

abbrev completed : ℕ → ℤ → ℕ
completed timestamp (pos ms) = if leb ms max_latency then timestamp + ms * 1000000 else zero_time
completed timestamp (negsuc ms) = zero_time

module _ (to_lower : Text → Text) where
  -- quotaProvider
  unfoldable pub quota_provider : Text → Bool
  quota_provider provider = is_one_of provider_names (to_lower (trim_space provider))

  -- quotaCredentialKey
  abbrev pub quota_credential_key : Text → Text → Text → Text
  quota_credential_key provider index id = to_lower (trim_space provider) ++ 0 ∷ (index ++ 0 ∷ id)

  -- quotaEligible
  unfoldable pub quota_eligible : RequestDetail → Bool
  quota_eligible d =
      quota_provider d.provider
      && ((not (is_empty d.auth_index) || not (is_empty d.auth_id))
          && not (is_one_of api_key_names (to_lower (trim_space d.auth_type))))

  -- quotaFactFromDetail
  unfoldable pub quota_fact_from_detail : Text → RequestDetail → QuotaFact
  quota_fact_from_detail api d = record {
    id = d.record_id;
    api = api;
    provider = to_lower (trim_space d.provider);
    auth_index = d.auth_index;
    auth_id = d.auth_id;
    model = d.model;
    timestamp = d.timestamp;
    timestamp_synthetic = d.timestamp_synthetic;
    completed_at = completed d.timestamp d.latency_ms;
    failed = d.failed;
    tokens = d.tokens;
  }

  -- validQuotaFact
  unfoldable pub valid_quota_fact : QuotaFact → Bool
  valid_quota_fact f =
      not (is_empty f.id)
      && (leb (byte_length f.id) 256
          && (quota_provider f.provider
              && ((not (is_empty f.auth_index) || not (is_empty f.auth_id))
                  && (leb (byte_length f.auth_id) 512
                      && (leb (byte_length f.auth_index) 512
                          && (leb (byte_length f.api) 4096
                              && (leb (byte_length f.model) 1024
                                  && (not (is_zero f.timestamp)
                                      && tokens_not_negative f.tokens))))))))

abbrev pub is_known : Option QuotaFact → QuotaFact → Bool
is_known none f = false
is_known (some old) f = quota_facts_equal old f

abbrev pub is_there {ℓ} : {A : Type ℓ} → Option A → Bool
is_there none = false
is_there (some a) = true

module _ (to_lower : Text → Text) (legacy_record_id : Text → Text → RequestDetail → Text) where
  abbrev pub fact_id : Text → RequestDetail → Text
  fact_id api d = if is_empty d.record_id then legacy_record_id api d.model d else d.record_id

  abbrev pub the_fact : Text → RequestDetail → QuotaFact
  the_fact api d = record (quota_fact_from_detail to_lower api d) { id = fact_id api d }

  -- addQuotaFactLocked, of a state that is there where the detail is eligible.
  unfoldable pub add_quota_fact : {U : Type 0} → QuotaState U → Text → RequestDetail → QuotaState U
  add_quota_fact q api d =
      let id = fact_id api d in
      let f = the_fact api d in
      if not (quota_eligible to_lower d)
        || (is_there (lookup q.deleted id)
            || (not (valid_quota_fact to_lower f) || is_known (lookup q.facts id) f))
      then q
      else bump (record q { facts = insert q.facts id f })

-- removeQuotaFactLocked; the cached responses are dropped exactly where the state changes.
unfoldable pub remove_quota_fact : {U : Type 0} → QuotaState U → RequestDetail → QuotaState U
remove_quota_fact q d =
    let less = record q { facts = delete q.facts d.record_id } in
    if is_empty d.record_id
    then q
    else if ltb 256 (byte_length d.record_id) || is_zero d.timestamp
    then bump less
    else bump (record less { deleted = insert q.deleted d.record_id d.timestamp })
