-- ===== src/Quota/Deletion.antt =====
-- go/quota_cycles.go, removeQuotaFactLocked and addQuotaFactLocked: the tombstone of a request.
use cpa_usage_plugin.Common.{ℕ, ◌≤◌, ◌≡◌, refl, false, none, some, ltb, arith, Bool-cases, inl, inr}
use cpa_usage_plugin.Common.Instant.{is_zero}
use cpa_usage_plugin.Common.Maps.{lookup, lookup-insert, lookup-delete}
use cpa_usage_plugin.Common.Text.{Text, is_empty, byte_length}
use cpa_usage_plugin.Quota.Facts.{
  RequestDetail, QuotaState, fact_id, quota_eligible, add_quota_fact, remove_quota_fact,
}

removed :
    {U : Type 0} (q : QuotaState U) (d : RequestDetail)
    → is_empty d.record_id ≡ false
    → byte_length d.record_id ≤ 256
    → is_zero d.timestamp ≡ false
    → (lookup (remove_quota_fact q d).facts d.record_id ≡ none)
      × (lookup (remove_quota_fact q d).deleted d.record_id ≡ some d.timestamp)
unfolding remove_quota_fact
removed q d named short timed =
    let fits : ltb 256 (byte_length d.record_id) ≡ false = ground (arith, short) in
    rw (named, fits, timed)
      (lookup-delete q.facts d.record_id, lookup-insert q.deleted d.record_id d.timestamp)

module _ (to_lower : Text → Text) (legacy_record_id : Text → Text → RequestDetail → Text) where
  -- A tombstone of the id blocks the request.
  blocked :
      {U : Type 0} (q : QuotaState U) (api : Text) (d : RequestDetail) (at : ℕ)
      → lookup q.deleted (fact_id to_lower legacy_record_id api d) ≡ some at
      → add_quota_fact to_lower legacy_record_id q api d ≡ q
  unfolding add_quota_fact
  blocked q api d at there = elim (Bool-cases (quota_eligible to_lower d)) [
    | inl e ↦ rw (e, there) refl
    | inr e ↦ rw e refl
  ]

  -- Once a request with a record id of at most 256 bytes and a time was removed, no fact has its id,
  -- and adding any request with that id again, from any interface, changes nothing.
  pub add-remove_quota_fact :
      {U : Type 0} (q : QuotaState U) (d d' : RequestDetail) (api : Text)
      → is_empty d.record_id ≡ false
      → byte_length d.record_id ≤ 256
      → is_zero d.timestamp ≡ false
      → d'.record_id ≡ d.record_id
      → (add_quota_fact to_lower legacy_record_id (remove_quota_fact q d) api d'
          ≡ remove_quota_fact q d)
        × (lookup (remove_quota_fact q d).facts d.record_id ≡ none)
  add-remove_quota_fact q d d' api named short timed same =
      let (gone, dead) = removed q d named short timed in
      let id : fact_id to_lower legacy_record_id api d' ≡ d.record_id = rw (same, named) refl in
      (blocked (remove_quota_fact q d) api d' d.timestamp (rw id dead), gone)
