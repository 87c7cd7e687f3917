-- ===== src/Accounting/MergeBlock.antt =====
-- go/range_cache.go, mergeRangeBlock: a block in a query's summary against a scan of its rows.
use cpa_usage_plugin.Common.{
  ℕ, zero, suc, ◌+◌, ◌-◌, ◌≤◌, ◌<◌, ◌≡◌, refl, sym, ap, ◌⊎◌, Bool, true, false, ◌&&◌, ◌||◌, not,
  ltb, ◌==◌, if◌then◌else◌, some, List, arith, Bool-cases, Option-cases, inl, inr,
}
use mathlib.Core.Path.{subst}
use cpa_usage_plugin.Common.Instant.{zero_time, is_zero}
use cpa_usage_plugin.Common.Text.{Text, is_empty, byte_length}
use cpa_usage_plugin.Accounting.{RangeBlock}
use cpa_usage_plugin.Accounting.Blocks.{invalidated}
use cpa_usage_plugin.Accounting.RangeCache.{
  RangeKey, RangeEntry, RangeCache, find_entry, can_retain,
}
use cpa_usage_plugin.Accounting.RangeSummary.{
  Summary, earlier, later, time_bounds, new_range_block, scan_range_summary, merge_range_block,
}

-- The bounds of a block hold for its instants from `first` on, up to `i`.
pub record Bounded (timestamp : ℕ → ℕ) (b : RangeBlock) (first i : ℕ) : Type 0 where
  pub above : (j : ℕ) → first ≤ j → j < i → b.minimum ≤ timestamp j
  pub below : (j : ℕ) → first ≤ j → j < i → timestamp j ≤ b.maximum
  pub set_all : b.all_non_zero ≡ true → (j : ℕ) → first ≤ j → j < i → is_zero (timestamp j) ≡ false

module _ (timestamp : ℕ → ℕ) where
  abbrev wider : RangeBlock → ℕ → RangeBlock
  wider b i = record b {
    all_non_zero = if is_zero (timestamp i) then false else b.all_non_zero;
    minimum = if i == b.first || earlier (timestamp i) b then timestamp i else b.minimum;
    maximum = if i == b.first || later (timestamp i) b then timestamp i else b.maximum;
  }

  wider-Bounded :
      (b : RangeBlock) (i : ℕ)
      → b.first ≤ i
      → Bounded timestamp b b.first i
      → Bounded timestamp (wider b i) b.first (suc i)
  wider-Bounded b i reached ok = record {
    above = λ j low high. elim (Bool-cases (j == i)) [
      | inl e ↦
          let same : timestamp j ≡ timestamp i = ap timestamp (ground (arith, e)) in
          ground (arith, same)
      | inr ne ↦
          let old = ok.above j low (ground (arith, high, ne)) in
          let started : (i == b.first) ≡ false = ground (arith, low, high, ne) in
          ground (arith, old, started)
    ];
    below = λ j low high. elim (Bool-cases (j == i)) [
      | inl e ↦
          let same : timestamp j ≡ timestamp i = ap timestamp (ground (arith, e)) in
          ground (arith, same)
      | inr ne ↦
          let old = ok.below j low (ground (arith, high, ne)) in
          let started : (i == b.first) ≡ false = ground (arith, low, high, ne) in
          ground (arith, old, started)
    ];
    set_all = λ all j low high. elim (Bool-cases (j == i)) [
      | inl e ↦
          let same : timestamp j ≡ timestamp i = ap timestamp (ground (arith, e)) in
          rw same (ground (arith, all))
      | inr ne ↦ ok.set_all (ground (arith, all)) j low (ground (arith, high, ne))
    ];
  }

  time_bounds-Bounded :
      (b : RangeBlock) (i n : ℕ)
      → b.first ≤ i
      → Bounded timestamp b b.first i
      → Bounded timestamp (time_bounds timestamp b i n) b.first (i + n)
  unfolding time_bounds
  time_bounds-Bounded b i zero reached ok = let same : i + 0 ≡ i = omega arith in rw same ok
  time_bounds-Bounded b i (suc n) reached ok =
      let same : i + suc n ≡ suc i + n = omega arith in
      rw same (
        time_bounds-Bounded (wider b i) (suc i) n (omega (arith, reached))
          (wider-Bounded b i reached ok))

  -- The block that prepareRangeBlock makes has bounds that hold for each of its instants.
  pub new_range_block-Bounded :
      (old : RangeBlock) (id first end : ℕ)
      → first ≤ end
      → Bounded timestamp (new_range_block old id first end timestamp) first end
  unfolding new_range_block
  new_range_block-Bounded old id first end h =
      let b : RangeBlock = record (invalidated old) {
        identity = some id;
        first = first;
        end = end;
        all_non_zero = true;
      } in
      let same : first + (end - first) ≡ end = omega (arith, h) in
      subst (λ n. Bounded timestamp (time_bounds timestamp b first (end - first)) first n) same
        (time_bounds-Bounded b first (end - first) (omega arith) (record {
          above = λ j low high. absurd (omega (arith, low, high));
          below = λ j low high. absurd (omega (arith, low, high));
          set_all = λ all j low high. absurd (omega (arith, low, high));
        }))

module _ {R S : Type 0} (f : Summary R S) where
  -- A row before the cutoff, or at no instant, is left out.
  abbrev skipped : ℕ → R → Bool
  skipped cutoff x = not (is_zero cutoff) && (is_zero (f.timestamp x) || ltb (f.timestamp x) cutoff)

  scan-past :
      (r : S) (read : ℕ → R) (first n cutoff : ℕ) (client_api : Text)
      → ((j : ℕ) → first ≤ j → j < first + n → skipped cutoff (read j) ≡ true)
      → scan_range_summary f r read first n cutoff client_api ≡ r
  unfolding scan_range_summary
  scan-past r read first zero cutoff client_api past = refl
  scan-past r read first (suc n) cutoff client_api past =
      rw (past first (omega arith) (omega arith)) (
        scan-past r read (suc first) n cutoff client_api
          (λ j low high. past j (omega (arith, low)) (omega (arith, high))))

  scan-whole :
      (r : S) (read : ℕ → R) (first n cutoff : ℕ) (client_api : Text)
      → ((j : ℕ) → first ≤ j → j < first + n → skipped cutoff (read j) ≡ false)
      → scan_range_summary f r read first n cutoff client_api
        ≡ scan_range_summary f r read first n zero_time client_api
  unfolding scan_range_summary
  scan-whole r read first zero cutoff client_api inside = refl
  scan-whole r read first (suc n) cutoff client_api inside =
      rw (inside first (omega arith) (omega arith)) (
        scan-whole (if f.matches client_api (read first) then f.add r (read first) else r) read
          (suc first) n cutoff client_api
          (λ j low high. inside j (omega (arith, low)) (omega (arith, high))))

  module _ (read : ℕ → R) (b : RangeBlock) (cutoff : ℕ)
      (ok : Bounded (λ j. f.timestamp (read j)) b b.first b.end) where
    abbrev complete : Bool
    complete = is_zero cutoff || (b.all_non_zero && not (ltb b.minimum cutoff))

    complete-scan :
        (r : S) (client_api : Text)
        → complete ≡ true
        → scan_range_summary f r read b.first (b.end - b.first) cutoff client_api
          ≡ scan_range_summary f r read b.first (b.end - b.first) zero_time client_api
    complete-scan r client_api all =
        scan-whole r read b.first (b.end - b.first) cutoff client_api (λ j low high.
          elim (Bool-cases (is_zero cutoff)) [
            | inl e ↦ rw e refl
            | inr e ↦
                let inside : j < b.end = omega (arith, low, high) in
                let known : b.all_non_zero ≡ true = ground (arith, all, e) in
                ground (arith, all, e, ok.above j low inside, ok.set_all known j low inside)
          ])

    -- Where the bounds of the block hold for its rows, and the entry of the block and the client,
    -- where there is one, is the summary of all rows of the block: mergeRangeBlock either adds to the
    -- result the rows that a scan of the block with the cutoff adds, or it merges into the result
    -- the summary that such a scan makes on its own.
    pub merge_range_block-scan :
        (valid : List Bool) (c : RangeCache S) (id : ℕ) (result : S) (client_api : Text)
        → ((e : RangeEntry S)
            → find_entry c.entries
                (record { block = id; client_api = client_api; api_detail = false })
              ≡ some e
            → e.data_of
              ≡ scan_range_summary f f.start read b.first (b.end - b.first) zero_time client_api)
        → ((merge_range_block f valid c id b result read cutoff client_api).0
            ≡ scan_range_summary f result read b.first (b.end - b.first) cutoff client_api)
          ⊎ ((merge_range_block f valid c id b result read cutoff client_api).0
              ≡ f.merge result
                  (scan_range_summary f f.start read b.first (b.end - b.first) cutoff client_api))
    unfolding merge_range_block
    merge_range_block-scan valid c id result client_api coherent =
        let n = b.end - b.first in
        let key : RangeKey = record { block = id; client_api = client_api; api_detail = false } in
        let missed : RangeCache S = record c { misses = c.misses + 1 } in
        let room = (can_retain valid missed (b.summary_bytes + 128)).1 in
        let known = is_empty client_api && ltb 0 b.summary_bytes in
        elim (Bool-cases (not (is_zero cutoff) && ltb b.maximum cutoff)) [
          | inl old ↦
              let none_left =
                scan-past result read b.first n cutoff client_api
                  (λ j low high. ground (arith, old, ok.below j low (omega (arith, low, high)))) in
              rw (merge_range_block, old) (inl (sym none_left))
          | inr recent ↦ elim (Bool-cases (not complete || ltb 4096 (byte_length client_api))) [
            | inl direct ↦ rw (merge_range_block, recent, direct) (inl refl)
            | inr whole ↦
                let all : complete ≡ true = ground (arith, whole) in
                let wanted = ap (f.merge result) (sym (complete-scan f.start client_api all)) in
                elim (Option-cases (find_entry c.entries key)) [
                  | inr (e, found) ↦
                      rw (merge_range_block, recent, whole, found, coherent e found) (inr wanted)
                  | inl missing ↦ elim (Bool-cases (known && not room)) [
                    | inl e ↦ rw (merge_range_block, recent, whole, missing, e) (inl refl)
                    | inr e ↦ rw (merge_range_block, recent, whole, missing, e) (inr wanted)
                  ]
                ]
          ]
        ]
