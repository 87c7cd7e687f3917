-- ===== src/Quota/Cycles.antt =====
-- go/quota_cycles.go: the windows of the quota state, their end and the pruning of what is too old.
use cpa_usage_plugin.Common.{
  ℕ, suc, ◌+◌, ◌-◌, ◌*◌, ◌%◌, ◌^◌, Bool, true, false, ◌&&◌, ◌||◌, not, Option, none, some, List, [],
  ◌∷◌, ◌++◌, ltb, leb, ◌==◌, if◌then◌else◌,
}
use cpa_usage_plugin.Common.Instant.{second, minute, seconds, is_zero}
use cpa_usage_plugin.Common.Maps.{lookup, insert}
use cpa_usage_plugin.Common.Text.{Text, text_eq, is_empty}
use cpa_usage_plugin.Quota.{Observation, Period, Window, UsageFloat}
use cpa_usage_plugin.Quota.Sample.{Providers, valid_observation}
use cpa_usage_plugin.Quota.Archive.{archive_reset_period}
use cpa_usage_plugin.Quota.Apply.{apply_observation}
use cpa_usage_plugin.Quota.History.{antigravity}
use cpa_usage_plugin.Quota.Facts.{QuotaFact, QuotaState, bump, quota_provider, quota_credential_key}

abbrev pub hub_daily : Text
hub_daily = b'h' ∷ b'u' ∷ b'b' ∷ b'-' ∷ b'd' ∷ b'a' ∷ b'i' ∷ b'l' ∷ b'y' ∷ []

abbrev pub hub_production : Text
hub_production =
    b'h' ∷ b'u' ∷ b'b' ∷ b'-' ∷ b'p' ∷ b'r' ∷ b'o' ∷ b'd' ∷ b'u' ∷ b'c' ∷ b't' ∷ b'i' ∷ b'o' ∷ b'n'
    ∷ []

-- quotaSourceValid
unfoldable pub quota_source_valid : Text → Text → Bool
quota_source_valid provider source =
    is_empty source
    || (text_eq provider antigravity && (text_eq source hub_daily || text_eq source hub_production))

abbrev pub with_source : Text → Text
with_source source = if is_empty source then [] else 0 ∷ source

-- Two years of 366 days
abbrev pub revocation_retention : ℕ
revocation_retention = 2 * 366 * 24 * 3600 * second

module _ {U : Type 0} (f : UsageFloat U) where
  -- The current period of a window whose end has come becomes the previous one.
  unfoldable pub end_period : ℕ → Window U → Window U × Bool
  end_period now w = elim w.current [
    | none ↦ (w, false)
    | some c ↦
        if leb c.end now then (record w { previous = some c; current = none }, true) else (w, false)
  ]

  -- One round of the loop of advanceQuotaCyclesLocked.
  unfoldable pub advance_window : ℕ → Window U → Window U × Bool
  advance_window now w = elim (archive_reset_period f w) [
    | none ↦ end_period now w
    | some archived ↦ ((end_period now archived).0, true)
  ]

  unfoldable pub advance_windows : ℕ → List (Text × Window U) → List (Text × Window U) × Bool
  advance_windows now [] = ([], false)
  advance_windows now ((key, w) ∷ rest) =
      let (advanced, changed) = advance_window now w in
      let (later, changed_later) = advance_windows now rest in
      ((key, advanced) ∷ later, changed || changed_later)

  -- advanceQuotaCyclesLocked; the cached responses are dropped where the version counter moves.
  unfoldable pub advance_quota_cycles : ℕ → QuotaState U → QuotaState U
  advance_quota_cycles now q =
      let (windows, changed) = advance_windows now q.windows in
      let advanced = record q { windows = windows } in if changed then bump advanced else advanced

module _ {U : Type 0} where
  abbrev pub newest_period : Window U → Option (Period U)
  newest_period w = elim w.current [ none ↦ w.previous | some c ↦ some c ]

  abbrev pub outlives_retention : ℕ → Window U → Bool
  outlives_retention now w = ltb (w.updated_at + revocation_retention) now

-- What pruning does with a window: keep it with its periods in use, leave it alone, reduce it to the
-- marker of its revocation, or delete it.
pub data Fate : Type 0 where
  in_use : Fate
  untouched : Fate
  reduced : Fate
  dropped : Fate

abbrev pub is_change : Fate → ℕ
is_change in_use = 0
is_change untouched = 0
is_change reduced = 1
is_change dropped = 1

abbrev pub is_in_use : Fate → Bool
is_in_use in_use = true
is_in_use untouched = false
is_in_use reduced = false
is_in_use dropped = false

module _ {U : Type 0} where
  unfoldable pub fate_of : ℕ → Window U → Fate
  fate_of now w = elim (newest_period w) [
    | none ↦ if w.hidden && outlives_retention now w then dropped else untouched
    | some p ↦
        if w.hidden && ltb (p.end + seconds w.seconds) now
        then if outlives_retention now w then dropped else reduced
        else in_use
  ]

  abbrev pub marker : Window U → Window U
  marker w = record w { current = none; previous = none; seconds = 0 }

  unfoldable pub prune_window : Text → Window U → Fate → List (Text × Window U)
  prune_window key w in_use = (key, w) ∷ []
  prune_window key w untouched = (key, w) ∷ []
  prune_window key w reduced = (key, marker w) ∷ []
  prune_window key w dropped = []

  unfoldable pub prune_windows : ℕ → List (Text × Window U) → List (Text × Window U)
  prune_windows now [] = []
  prune_windows now ((key, w) ∷ rest) = prune_window key w (fate_of now w) ++ prune_windows now rest

  -- How often the loop moves the version counter.
  unfoldable pub count_changes : ℕ → List (Text × Window U) → ℕ
  count_changes now [] = 0
  count_changes now ((key, w) ∷ rest) = is_change (fate_of now w) + count_changes now rest

  abbrev pub period_list : Option (Period U) → List (Period U)
  period_list none = []
  period_list (some p) = p ∷ []

  abbrev pub with_key : Text → List (Period U) → List (Text × Period U)
  with_key key [] = []
  with_key key (p ∷ rest) = (key, p) ∷ with_key key rest

  -- The map `periods`, as pairs of a credential and a period.
  unfoldable pub periods_in_use :
      (Text → Text) → ℕ → List (Text × Window U) → List (Text × Period U)
  periods_in_use to_lower now [] = []
  periods_in_use to_lower now ((key, w) ∷ rest) =
      let later = periods_in_use to_lower now rest in
      let credential = quota_credential_key to_lower w.provider w.auth_index w.auth_id in
      if is_in_use (fate_of now w)
      then with_key credential (period_list w.current ++ period_list w.previous) ++ later
      else later

  abbrev pub covers : Text → ℕ → Text × Period U → Bool
  covers credential t (c, p) = text_eq c credential && (leb p.start t && ltb t p.end)

  unfoldable pub is_retained : List (Text × Period U) → Text → ℕ → Bool
  is_retained [] credential t = false
  is_retained (e ∷ rest) credential t = covers credential t e || is_retained rest credential t

  -- The earliest start of all windows in use, if it is before `keep_after`: what the loop over
  -- `starts` finds, the map holding the earliest start of each credential.
  unfoldable pub earliest_start : ℕ → List (Text × Period U) → ℕ
  earliest_start keep_after [] = keep_after
  earliest_start keep_after ((credential, p) ∷ rest) =
      earliest_start (if ltb p.start keep_after then p.start else keep_after) rest

  -- The loop over the facts.
  unfoldable pub prune_facts :
      (Text → Text) → ℕ → List (Text × Period U) → List (Text × QuotaFact) → List (Text × QuotaFact)
  prune_facts to_lower keep_after periods [] = []
  prune_facts to_lower keep_after periods ((id, q) ∷ rest) =
      let later = prune_facts to_lower keep_after periods rest in
      let credential = quota_credential_key to_lower q.provider q.auth_index q.auth_id in
      if not (is_retained periods credential q.timestamp) && ltb q.timestamp keep_after
      then later
      else (id, q) ∷ later

-- The loop over the tombstones.
unfoldable pub prune_deleted : ℕ → List (Text × ℕ) → List (Text × ℕ)
prune_deleted keep_after [] = []
prune_deleted keep_after ((id, at) ∷ rest) =
    let later = prune_deleted keep_after rest in
    if ltb at keep_after then later else (id, at) ∷ later

abbrev pub entries {ℓ} : {A : Type ℓ} → List A → ℕ
entries [] = 0
entries (a ∷ rest) = suc (entries rest)

module _ {U : Type 0} (f : UsageFloat U) (to_lower : Text → Text) where
  -- What follows the advance, at the time of a prune; `retention` 0 keeps everything.
  unfoldable pub prune_advanced : ℕ → ℕ → QuotaState U → QuotaState U
  prune_advanced retention now q =
      let periods = periods_in_use to_lower now q.windows in
      let keep_after = now - retention in
      let facts = prune_facts to_lower keep_after periods q.facts in
      let kept_facts = if retention == 0 then q.facts else facts in
      let deleted = prune_deleted (earliest_start keep_after periods) q.deleted in
      let fewer = if entries kept_facts == entries q.facts then 0 else 1 in
      record q {
        windows = prune_windows now q.windows;
        facts = kept_facts;
        deleted = if retention == 0 then q.deleted else deleted;
        version_counter = (q.version_counter + count_changes now q.windows + fewer) % 2 ^ 64;
        next_prune = now + minute;
      }

  -- pruneQuotaLocked
  unfoldable pub prune_quota : ℕ → ℕ → QuotaState U → QuotaState U
  prune_quota retention now q =
      let advanced = advance_quota_cycles f now q in
      let pruned = prune_advanced retention now advanced in
      if ltb now advanced.next_prune then advanced else pruned

  abbrev pub quota_providers : Providers
  quota_providers = record {
    is_quota_provider = λ p. quota_provider to_lower p;
    is_valid_source = λ p s. quota_source_valid p s;
  }

  -- quotaWindowKey
  unfoldable pub quota_window_key : Observation U → Text
  quota_window_key o =
      quota_credential_key to_lower o.provider o.auth_index o.auth_id
      ++ 0 ∷ (o.group ++ 0 ∷ (o.slot ++ with_source o.source))

  abbrev pub collected_from : ℕ → Observation U → Observation U
  collected_from started_at o =
      if is_zero o.collection_started_at then record o { collection_started_at = started_at } else o

  -- applyQuotaObservationLocked, of a state that is there.
  unfoldable pub apply_quota_observation : QuotaState U → Observation U → QuotaState U × Bool
  apply_quota_observation q o =
      if not (valid_observation f quota_providers o)
      then (q, false)
      else elim (apply_observation f (lookup q.windows (quota_window_key o))
          (collected_from q.started_at o)) [
            | none ↦ (q, false)
            | some w ↦ (bump (record q { windows = insert q.windows (quota_window_key o) w }), true)
          ]
