-- ===== src/Correlation/Shapes.antt =====
-- go/protocol_fallback.go, buildProtocolTokenShapes: the finite readings of the token counts of one
-- response as a full input and a full output.
use cpa_usage_plugin.Common.{
  ℕ, ◌+◌, ◌-◌, min, max, Bool, true, false, ◌&&◌, ◌||◌, not, ltb, leb, ◌==◌, if◌then◌else◌, Option,
  none, some, List, [], ◌∷◌, length,
}
use cpa_usage_plugin.Common.Int.{max_int64}
use cpa_usage_plugin.Correlation.{
  Role, unknown_role, fallback_role, native_role, InputMode, cache_subset, cache_subset_normalized,
  cache_independent, input_ambiguous, input_other, OutputMode, reasoning_subset,
  reasoning_independent, output_ambiguous, output_other, combined, cache_ambiguous, TokenShape,
  TokenEvidence,
}

-- checkedProtocolAdd on counts that are not negative
unfoldable pub checked_sum : ℕ → ℕ → Option ℕ
checked_sum left right = if leb (left + right) max_int64 then some (left + right) else none

-- protocolTokenVariant
pub record Variant : Type 0 where
  pub value : ℕ
  pub strength : ℕ

-- addInputVariant and addOutputVariant
unfoldable pub add_variant : List Variant → ℕ → ℕ → List Variant
add_variant [] value strength = record { value = value; strength = strength } ∷ []
add_variant (v ∷ rest) value strength =
    let later = add_variant rest value strength in
    if v.value == value then record v { strength = max v.strength strength } ∷ rest else v ∷ later

-- addExpandedInput and addReasoningOutput: the sum of two counts, where it does not overflow
unfoldable pub add_sum : List Variant → ℕ → ℕ → ℕ → List Variant
add_sum variants count more strength = elim (checked_sum count more) [
  | none ↦ variants
  | some sum ↦ add_variant variants sum strength
]

-- addSplitCacheInput
unfoldable pub add_split : TokenEvidence → List Variant → ℕ → List Variant
add_split e variants strength =
    if not e.known.cache_read || not e.known.cache_write
    then variants
    else elim (checked_sum e.cache_read e.cache_write) [
      | none ↦ variants
      | some cache ↦ add_sum variants e.input cache strength
    ]

abbrev pub add_combined : TokenEvidence → List Variant → ℕ → List Variant
add_combined e variants strength =
    if e.known.cache_combined then add_sum variants e.input e.cache_combined strength else variants

abbrev pub is_fallback : Role → Bool
is_fallback unknown_role = false
is_fallback fallback_role = true
is_fallback native_role = false

abbrev pub is_native : Role → Bool
is_native unknown_role = false
is_native fallback_role = false
is_native native_role = true

abbrev pub base_strength : TokenEvidence → ℕ
base_strength e = if e.known.total then 95 else 90

-- The variants of a protocol whose input leaves the cache out.
unfoldable pub independent_inputs : TokenEvidence → List Variant
independent_inputs e = elim e.cache_mode [
  | combined ↦
      if e.known.cache_combined then add_sum [] e.input e.cache_combined 105 else add_split e [] 115
  | cache_ambiguous ↦ add_combined e (add_split e [] 105) 100
  | _ ↦
      let found = add_split e [] 115 in
      if length found == 0 then add_combined e found 105 else found
]

unfoldable pub ambiguous_inputs : TokenEvidence → List Variant
ambiguous_inputs e =
    let base = add_variant [] e.input (base_strength e) in
    elim e.cache_mode [
      | combined ↦
          if e.known.cache_combined
          then add_sum base e.input e.cache_combined 100
          else add_split e base 105
      | cache_ambiguous ↦ add_combined e (add_split e base 105) 100
      | _ ↦
          let found = add_split e base 105 in
          if length found == 1 then add_combined e found 100 else found
    ]

-- The input variants; none where the code returns no shapes.
unfoldable pub input_variants : TokenEvidence → Role → Option (List Variant)
input_variants e role =
    let base = add_variant [] e.input (base_strength e) in
    elim e.input_mode [
      | cache_independent ↦
          let found = independent_inputs e in
          if length found == 0 && not e.known.total
          then if is_fallback role
              && not e.known.cache_read
              && not e.known.cache_write
              && not e.known.cache_combined
            then some (add_variant found e.input 70)
            else none
          else some found
      | input_ambiguous ↦ some (ambiguous_inputs e)
      | cache_subset ↦ some (if is_fallback role then add_combined e base 95 else base)
      | cache_subset_normalized ↦ some base
      | input_other ↦ none
    ]

abbrev pub add_reasoning : TokenEvidence → List Variant → ℕ → List Variant
add_reasoning e variants strength =
    if e.known.reasoning then add_sum variants e.output e.reasoning strength else variants

-- The output variants; none where the code returns no shapes.
unfoldable pub output_variants : TokenEvidence → Option (List Variant)
output_variants e =
    let base = add_variant [] e.output (base_strength e) in
    elim e.output_mode [
      | reasoning_independent ↦
          let found = add_reasoning e [] 115 in
          if length found == 0 && not e.known.total then none else some found
      | output_ambiguous ↦ some (add_reasoning e base 105)
      | reasoning_subset ↦ some base
      | output_other ↦ none
    ]

-- addShape, once the total is known not to overflow
unfoldable pub merge_shape : List TokenShape → TokenShape → List TokenShape
merge_shape [] shape = shape ∷ []
merge_shape (s ∷ rest) shape =
    let later = merge_shape rest shape in
    if s.full_input == shape.full_input && s.full_output == shape.full_output
    then record s { strength = max s.strength shape.strength } ∷ rest
    else s ∷ later

-- addShape
unfoldable pub add_shape : List TokenShape → ℕ → ℕ → ℕ → List TokenShape
add_shape shapes input output strength = elim (checked_sum input output) [
  | none ↦ shapes
  | some total ↦
      merge_shape shapes
        (record { full_input = input; full_output = output; total = total; strength = strength })
]

-- The inputs that the total leaves for each output, and the outputs that it leaves for each input.
unfoldable pub derived_inputs : ℕ → List Variant → List TokenShape → List TokenShape
derived_inputs total [] shapes = shapes
derived_inputs total (o ∷ rest) shapes =
    derived_inputs total rest
      (if ltb total o.value then shapes else add_shape shapes (total - o.value) o.value 70)

unfoldable pub derived_outputs : ℕ → List Variant → List TokenShape → List TokenShape
derived_outputs total [] shapes = shapes
derived_outputs total (i ∷ rest) shapes =
    derived_outputs total rest
      (if ltb total i.value then shapes else add_shape shapes i.value (total - i.value) 70)

unfoldable pub pairs_with : Variant → List Variant → List TokenShape → List TokenShape
pairs_with i [] shapes = shapes
pairs_with i (o ∷ rest) shapes =
    pairs_with i rest (add_shape shapes i.value o.value (min i.strength o.strength))

unfoldable pub all_pairs : List Variant → List Variant → List TokenShape → List TokenShape
all_pairs [] outputs shapes = shapes
all_pairs (i ∷ rest) outputs shapes = all_pairs rest outputs (pairs_with i outputs shapes)

unfoldable pub of_total : ℕ → List TokenShape → List TokenShape
of_total total [] = []
of_total total (s ∷ rest) =
    let later = of_total total rest in if s.total == total then s ∷ later else later

-- The order of the final sort.
abbrev pub shape_before : TokenShape → TokenShape → Bool
shape_before a b =
    if not (a.strength == b.strength)
    then ltb b.strength a.strength
    else if not (a.full_input == b.full_input)
    then ltb a.full_input b.full_input
    else ltb a.full_output b.full_output

-- The stable sort, by insertion after the shapes that do not come later.
unfoldable pub insert_shape : TokenShape → List TokenShape → List TokenShape
insert_shape s [] = s ∷ []
insert_shape s (t ∷ rest) =
    let later = insert_shape s rest in if shape_before s t then s ∷ (t ∷ rest) else t ∷ later

unfoldable pub sort_shapes : List TokenShape → List TokenShape → List TokenShape
sort_shapes sorted [] = sorted
sort_shapes sorted (s ∷ rest) = sort_shapes (insert_shape s sorted) rest

abbrev pub is_independent_input : InputMode → Bool
is_independent_input cache_independent = true
is_independent_input _ = false

abbrev pub is_independent_output : OutputMode → Bool
is_independent_output reasoning_independent = true
is_independent_output _ = false

-- The shapes before the filter and the sort.
unfoldable pub raw_shapes : TokenEvidence → List Variant → List Variant → List TokenShape
raw_shapes e inputs outputs =
    let first =
      if is_independent_input e.input_mode && length inputs == 0 && e.known.total
      then derived_inputs e.total outputs []
      else [] in
    let second =
      if is_independent_output e.output_mode && length outputs == 0 && e.known.total
      then derived_outputs e.total inputs first
      else first in
    all_pairs inputs outputs second

abbrev pub finish_shapes : TokenEvidence → Role → List TokenShape → List TokenShape
finish_shapes e role shapes =
    sort_shapes [] (if is_native role && e.known.total then of_total e.total shapes else shapes)

abbrev pub from_variants :
    TokenEvidence → Role → Option (List Variant) → Option (List Variant) → List TokenShape
from_variants e role none outputs = []
from_variants e role (some inputs) none = []
from_variants e role (some inputs) (some outputs) =
    if e.known.total && not (leb (e.input + e.output) (min e.total max_int64))
    then []
    else finish_shapes e role (raw_shapes e inputs outputs)

-- buildProtocolTokenShapes
unfoldable pub build_token_shapes : TokenEvidence → Role → List TokenShape
build_token_shapes e role =
    if e.invalid || not e.known.input || not e.known.output
    then []
    else from_variants e role (input_variants e role) (output_variants e)
