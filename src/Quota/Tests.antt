-- ===== src/Quota/Tests.antt =====
-- Concrete observations and windows, and the theorems of this part at them.
use cpa_usage_plugin.Common.{
  zero, suc, ℕ, ◌+◌, ◌-◌, ◌*◌, ◌/◌, ◌≤◌, ◌<◌, ◌≡◌, ◌⊎◌, ◌↔◌, refl, true, false, none, some, List,
  [], ◌∷◌, ltb, leb, ◌==◌, arith, length, drop, get_elem?,
}
use cpa_usage_plugin.Quota.{Observation, Period, Window, UsageFloat, zero_time, seconds}
use cpa_usage_plugin.Quota.Reset.{
  latest_reset, latest_reset_loop, reset_candidate, effective_loop, effective_period,
}
use cpa_usage_plugin.Quota.Sample.{samples_sorted}
use cpa_usage_plugin.Quota.Compact.{compact_samples}
use cpa_usage_plugin.Quota.Order.{IsSorted, samples_sorted_iff}
use cpa_usage_plugin.Quota.Bounds.{
  newest, length-compact_samples, newest-compact_samples, first-compact_samples,
}
use cpa_usage_plugin.Quota.Effective.{
  latest_reset_bounds, effective_period-IsCut, effective_loop_terminates,
}
use cpa_usage_plugin.Common.{All}
use cpa_usage_plugin.Common.Int.{pos}
use cpa_usage_plugin.Common.Text.{Text}
use cpa_usage_plugin.Common.Maps.{lookup}
use cpa_usage_plugin.Quota.Facts.{RequestDetail, QuotaState, add_quota_fact, remove_quota_fact}
use cpa_usage_plugin.Quota.Deletion.{add-remove_quota_fact}
use cpa_usage_plugin.Quota.Cycles.{advance_quota_cycles}
use cpa_usage_plugin.Quota.Advance.{Running, advance_quota_cycles-Running}

-- Thousandths stand for the floats.
abbrev pub thousandths : UsageFloat ℕ
thousandths = record {
  zero = 0;
  one = 1000;
  lt = λ x y. ltb x y;
  eq = λ x y. x == y;
  le = λ x y. leb x y;
  is_nan = λ x. false;
  is_inf = λ x. false;
  less_tolerance = λ x. x - 20;
  midpoint = λ x y. (x + y) / 2;
  percent = λ x. x / 10;
}

abbrev pub after : ℕ → ℕ
after n = zero_time + seconds n

-- A report, so many seconds into a window of five hours.
abbrev pub report : ℕ → ℕ → Observation ℕ
report n used = record {
  source = b'c' ∷ [];
  collection_started_at = after 0;
  provider = b'c' ∷ [];
  auth_index = b'1' ∷ [];
  auth_id = [];
  group = b'g' ∷ [];
  name = [];
  slot = b'p' ∷ [];
  seconds = 18000;
  reset = after 18000;
  observed_at = after n;
  used = used;
  model = [];
  unmapped = false;
  revoked = false;
}

-- The usage drops at the second report, and the third one confirms it.
abbrev dropping : List (Observation ℕ)
dropping = report 3600 800 ∷ report 7200 10 ∷ report 10800 50 ∷ []

abbrev pub five_hours : List (Observation ℕ) → Period ℕ
five_hours samples = record {
  ended_by_reset = false;
  reset_time_estimated = false;
  start = after 0;
  end = after 18000;
  collection_started_at = after 0;
  samples = samples;
}

abbrev pub used_window : Window ℕ
used_window = record {
  source = b'c' ∷ [];
  provider = b'c' ∷ [];
  auth_index = b'1' ∷ [];
  auth_id = [];
  group = b'g' ∷ [];
  name = [];
  slot = b'p' ∷ [];
  seconds = 18000;
  model = [];
  unmapped = false;
  hidden = false;
  updated_at = after 10800;
  current = some (five_hours dropping);
  previous = none;
}

abbrev one_window : QuotaState ℕ
one_window = record {
  version = 1;
  started_at = after 0;
  facts = [];
  windows = (b'k' ∷ [], used_window) ∷ [];
  deleted = [];
  version_counter = 0;
  next_prune = after 0;
}

drop_found : latest_reset thousandths dropping (after 18000) ≡ some (0, 1)
unfolding latest_reset latest_reset_loop reset_candidate
drop_found = refl

latest_reset_bounds_example : (0 < 1) × (2 < 3)
latest_reset_bounds_example = latest_reset_bounds thousandths dropping (after 18000) 0 1 drop_found

-- A period with more samples than are kept.
abbrev many : ℕ → List (Observation ℕ)
many zero = []
many (suc n) = report (100 * (70 - n)) (10 * (70 - n)) ∷ many n

length-compact_samples_example :
    length (compact_samples thousandths (five_hours (many 70))).samples ≤ 64
length-compact_samples_example = length-compact_samples thousandths (five_hours (many 70))

newest-compact_samples_example :
    newest (compact_samples thousandths (five_hours (many 70))).samples ≡ some (report 7000 700)
newest-compact_samples_example = newest-compact_samples thousandths (five_hours (many 70))

first-compact_samples_example :
    get_elem? (compact_samples thousandths (five_hours (many 70))).samples 0 ≡ some (report 100 10)
first-compact_samples_example = first-compact_samples thousandths (five_hours (many 70))

effective_period-IsCut_example :
    (n : ℕ) × ((effective_period thousandths (five_hours dropping)).0.samples ≡ drop n dropping)
    × ((effective_period thousandths (five_hours dropping)).0.end ≡ after 18000)
    × (((effective_period thousandths (five_hours dropping)).1 ≡ none)
          × ((effective_period thousandths (five_hours dropping)).0 ≡ five_hours dropping)
        ⊎ ((u : ℕ) × ((effective_period thousandths (five_hours dropping)).1 ≡ some u)
            × (0 < n)
            × (n < 3)))
effective_period-IsCut_example = effective_period-IsCut thousandths (five_hours dropping)

effective_loop_terminates_example :
    (effective_loop thousandths 20 (five_hours dropping)
      ≡ effective_loop thousandths (suc (length dropping)) (five_hours dropping))
    × ((effective_period thousandths (five_hours dropping)).0
        ≡ (effective_loop thousandths 20 (five_hours dropping)).0)
effective_loop_terminates_example =
    effective_loop_terminates thousandths (five_hours dropping) 20 (omega arith)

samples_sorted_iff_example : (samples_sorted dropping ≡ true) ↔ IsSorted dropping
samples_sorted_iff_example = samples_sorted_iff dropping

advance_quota_cycles-Running_example :
    All
      (λ e. Running (after 18000) e.1.current)
      (advance_quota_cycles thousandths (after 18000) one_window).windows
advance_quota_cycles-Running_example =
    advance_quota_cycles-Running thousandths (after 18000) one_window

abbrev same_case : Text → Text
same_case t = t

abbrev no_legacy_id : Text → Text → RequestDetail → Text
no_legacy_id api model d = b'l' ∷ []

abbrev request : RequestDetail
request = record {
  record_id = b'r' ∷ [];
  model = b'm' ∷ [];
  timestamp = after 60;
  timestamp_synthetic = false;
  latency_ms = pos 5;
  provider = b'd' ∷ b'e' ∷ b'v' ∷ b'i' ∷ b'n' ∷ [];
  auth_id = [];
  auth_index = b'1' ∷ [];
  auth_type = [];
  tokens = record {
    input_tokens = pos 1;
    output_tokens = pos 1;
    reasoning_tokens = pos 0;
    cached_tokens = pos 0;
    cache_read_tokens = pos 0;
    cache_tokens = pos 0;
    cache_write_tokens = pos 0;
    total_tokens = pos 2;
  };
  failed = false;
}

add-remove_quota_fact_example :
    (add_quota_fact same_case no_legacy_id (remove_quota_fact one_window request) [] request
      ≡ remove_quota_fact one_window request)
    × (lookup (remove_quota_fact one_window request).facts (b'r' ∷ []) ≡ none)
add-remove_quota_fact_example =
    add-remove_quota_fact same_case no_legacy_id one_window request request [] refl (omega arith)
      refl refl
