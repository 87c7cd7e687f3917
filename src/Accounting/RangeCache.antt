-- ===== src/Accounting/RangeCache.antt =====
-- go/range_cache.go: the cache of the summaries of range blocks. An entry is kept under the identity
-- of its block, a client and the kind of summary; sizes are int64 that the budget keeps small.
use cpa_usage_plugin.Common.{
  ℕ, ◌+◌, ◌-◌, ◌/◌, Bool, true, false, ◌&&◌, ◌||◌, not, ltb, leb, ◌==◌, if◌then◌else◌, Option, none,
  some, List, [], ◌∷◌, ◌++◌, length,
}
use cpa_usage_plugin.Common.Bits.{bool_eq}
use cpa_usage_plugin.Common.Text.{Text, text_eq, byte_length}
use cpa_usage_plugin.Accounting.Blocks.{is_set}

-- rangeAggregateCacheBytes, 8 MiB
abbrev pub cache_bytes : ℕ
cache_bytes = 8388608

-- rangeAggregateCacheEntries
abbrev pub cache_entries : ℕ
cache_entries = 4096

-- rangeAggregateKey
pub record RangeKey : Type 0 where
  pub block : ℕ
  pub client_api : Text
  pub api_detail : Bool

abbrev pub key_eq : RangeKey → RangeKey → Bool
key_eq a b =
    a.block == b.block && text_eq a.client_api b.client_api && bool_eq a.api_detail b.api_detail

-- rangeAggregateEntry, with the summary of either kind as its data
pub record RangeEntry {ℓ} (D : Type ℓ) : Type ℓ where
  pub data_of : D
  pub bytes : ℕ

-- rangeAggregateCache
pub record RangeCache {ℓ} (D : Type ℓ) : Type ℓ where
  pub entries : List (RangeKey × RangeEntry D)
  pub bytes : ℕ
  pub price_version : ℕ
  pub hits : ℕ
  pub misses : ℕ
  pub evictions : ℕ
  pub scanned_rows : ℕ
  pub sweeps : ℕ
  pub swept : Bool

module _ {ℓ} {D : Type ℓ} where
  -- `entries[key]`
  unfoldable pub find_entry : List (RangeKey × RangeEntry D) → RangeKey → Option (RangeEntry D)
  find_entry [] key = none
  find_entry ((k, e) ∷ rest) key =
      let later = find_entry rest key in if key_eq k key then some e else later

  -- clear
  unfoldable pub clear : RangeCache D → RangeCache D
  clear c = record c {
    evictions = c.evictions + length c.entries;
    entries = [];
    bytes = 0;
    swept = false;
  }

  -- The loop of sweepInvalid: an entry of an identity that is not valid is evicted.
  unfoldable pub sweep_entries :
      List Bool → List (RangeKey × RangeEntry D) → RangeCache D → RangeCache D
  sweep_entries valid [] c = c
  sweep_entries valid ((k, e) ∷ rest) c =
      let after = sweep_entries valid rest c in
      if is_set valid k.block
      then record after { entries = (k, e) ∷ after.entries }
      else record after { bytes = after.bytes - e.bytes; evictions = after.evictions + 1 }

  -- sweepInvalid
  unfoldable pub sweep_invalid : List Bool → RangeCache D → RangeCache D
  sweep_invalid valid c =
      sweep_entries valid c.entries (record c { entries = []; sweeps = c.sweeps + 1; swept = true })

  abbrev pub has_room : RangeCache D → ℕ → Bool
  has_room c size = not (ltb cache_bytes (c.bytes + size) || leb cache_entries (length c.entries))

  -- canRetain
  unfoldable pub can_retain : List Bool → RangeCache D → ℕ → RangeCache D × Bool
  can_retain valid c size =
      if ltb (cache_bytes / 4) size
      then (c, false)
      else let after = if not c.swept && not (has_room c size) then sweep_invalid valid c else c in
        (after, has_room after size)

  -- retainEntry
  unfoldable pub retain_entry : List Bool → RangeCache D → RangeKey → D → ℕ → RangeCache D × Bool
  retain_entry valid c key data_of estimated = elim (find_entry c.entries key) [
    | some e ↦ (c, true)
    | none ↦
        let size = estimated + byte_length key.client_api + 128 in
        let (after, room) = can_retain valid c size in
        if room
        then (
          record after {
            entries = after.entries ++ ((key, record { data_of = data_of; bytes = size }) ∷ []);
            bytes = after.bytes + size;
          },
          true,
        )
        else (after, false)
  ]

  -- prepareRangeAggregateCacheLocked
  unfoldable pub prepare_cache : RangeCache D → ℕ → RangeCache D
  prepare_cache c price_version =
      let fresh = record c { swept = false } in
      if fresh.price_version == price_version
      then fresh
      else record (clear fresh) { price_version = price_version }
