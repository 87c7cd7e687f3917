-- ===== src/Accounting/Budget.antt =====
-- go/range_cache.go: the budget of the cache of range summaries.
use cpa_usage_plugin.Common.{
  ℕ, ◌+◌, ◌/◌, ◌≤◌, ◌<◌, ◌≡◌, refl, Bool, true, ◌&&◌, not, ltb, List, [], ◌∷◌, ◌++◌, length, arith,
  Bool-cases, Option-cases, inl, inr, length-append,
}
use cpa_usage_plugin.Common.Text.{byte_length}
use cpa_usage_plugin.Accounting.Blocks.{is_set}
use cpa_usage_plugin.Accounting.RangeCache.{
  RangeKey, RangeEntry, RangeCache, find_entry, sweep_entries, sweep_invalid, has_room, can_retain,
  retain_entry, cache_bytes,
}

module _ {D : Type 0} where
  -- The sizes of the entries together.
  unfoldable pub total_bytes : List (RangeKey × RangeEntry D) → ℕ
  total_bytes [] = 0
  total_bytes ((k, e) ∷ rest) = e.bytes + total_bytes rest

  -- The count of bytes is that of the entries, and both limits hold.
  pub record InBudget (c : RangeCache D) : Type 0 where
    pub counted : c.bytes ≡ total_bytes c.entries
    pub few_bytes : c.bytes ≤ 8388608
    pub few_entries : length c.entries ≤ 4096

  total_bytes-append :
      (xs : List (RangeKey × RangeEntry D)) (k : RangeKey) (e : RangeEntry D)
      → total_bytes (xs ++ ((k, e) ∷ [])) ≡ total_bytes xs + e.bytes
  unfolding total_bytes
  total_bytes-append [] k e = omega arith
  total_bytes-append ((l, f) ∷ xs) k e = omega (arith, total_bytes-append xs k e)

  -- After the sweep of the entries, `c.bytes` holding the bytes of all of them.
  sweep_entries-counts :
      (valid : List Bool) (xs : List (RangeKey × RangeEntry D)) (c : RangeCache D) (rest : ℕ)
      → c.entries ≡ []
      → c.bytes ≡ total_bytes xs + rest
      → ((sweep_entries valid xs c).bytes ≡ total_bytes (sweep_entries valid xs c).entries + rest)
        × (length (sweep_entries valid xs c).entries ≤ length xs)
        × ((sweep_entries valid xs c).bytes ≤ c.bytes)
  unfolding sweep_entries total_bytes
  sweep_entries-counts valid [] c rest none_kept bytes =
      rw none_kept (bytes, omega arith, omega arith)
  sweep_entries-counts valid ((k, e) ∷ xs) c rest none_kept bytes =
      let (counted, fewer, smaller) =
        sweep_entries-counts valid xs c (rest + e.bytes) none_kept (omega (arith, bytes)) in
      elim (Bool-cases (is_set valid k.block)) [
        | inl kept ↦ rw kept (omega (arith, counted), omega (arith, fewer), smaller)
        | inr gone ↦ rw gone (omega (arith, counted), omega (arith, fewer), omega (arith, smaller))
      ]

  sweep_invalid-InBudget :
      (valid : List Bool) (c : RangeCache D) → InBudget c → InBudget (sweep_invalid valid c)
  unfolding sweep_invalid
  sweep_invalid-InBudget valid c ok =
      let start : RangeCache D = record c { entries = []; sweeps = c.sweeps + 1; swept = true } in
      let (counted, fewer, smaller) =
        sweep_entries-counts valid c.entries start 0 refl (omega (arith, ok.counted)) in
      record {
        counted = omega (arith, counted);
        few_bytes = omega (arith, smaller, ok.few_bytes);
        few_entries = omega (arith, fewer, ok.few_entries);
      }

  can_retain-InBudget :
      (valid : List Bool) (c : RangeCache D) (size : ℕ)
      → InBudget c
      → InBudget (can_retain valid c size).0
        × ((can_retain valid c size).1 ≡ true → has_room (can_retain valid c size).0 size ≡ true)
  unfolding can_retain
  can_retain-InBudget valid c size ok = elim (Bool-cases (ltb (cache_bytes / 4) size)) [
    | inl e ↦ rw (can_retain, e) (ok, λ h. absurd (cc))
    | inr e ↦ elim (Bool-cases (not c.swept && not (has_room c size))) [
      | inl f ↦ rw (can_retain, e, f) (sweep_invalid-InBudget valid c ok, λ h. h)
      | inr f ↦ rw (can_retain, e, f) (ok, λ h. h)
    ]
  ]

  -- Where the cache is within its budget of 8 MiB and 4,096 entries, and counts the bytes of its
  -- entries, it does so after retainEntry, whatever the size of the new summary.
  pub retain_entry-InBudget :
      (valid : List Bool) (c : RangeCache D) (key : RangeKey) (data_of : D) (estimated : ℕ)
      → InBudget c
      → InBudget (retain_entry valid c key data_of estimated).0
  unfolding retain_entry
  retain_entry-InBudget valid c key data_of estimated ok =
      let size = estimated + byte_length key.client_api + 128 in
      let (fine, roomy) = can_retain-InBudget valid c size ok in
      let after = (can_retain valid c size).0 in
      let entry : RangeEntry D = record { data_of = data_of; bytes = size } in
      elim (Option-cases (find_entry c.entries key)) [
        | inr (e, found) ↦ rw (retain_entry, found) ok
        | inl missing ↦ elim (Bool-cases (can_retain valid c size).1) [
          | inr e ↦ rw (retain_entry, missing, e) fine
          | inl e ↦
              let room = roomy e in
              rw (retain_entry, missing, e)
                (record {
                  counted = omega (arith, total_bytes-append after.entries key entry, fine.counted);
                  few_bytes = ground (arith, room);
                  few_entries = omega (
                    arith,
                    length-append after.entries ((key, entry) ∷ []),
                    few_after after size room,
                  );
                })
        ]
      ]
    where
      few_after : (d : RangeCache D) (n : ℕ) → has_room d n ≡ true → length d.entries < 4096
      few_after d n room = ground (arith, room)
