-- ===== src/Correlation/ShapeLaws.antt =====
-- go/protocol_fallback.go, buildProtocolTokenShapes: the counts of each shape.
use cpa_usage_plugin.Common.{
  ℕ, ◌+◌, ◌-◌, ◌≤◌, ◌≡◌, refl, Bool, true, false, ◌&&◌, ◌||◌, not, ltb, leb, ◌==◌, if◌then◌else◌,
  Option, none, some, List, [], ◌∷◌, length, min, All, arith, Bool-cases, inl, inr,
}
use cpa_usage_plugin.Common.Int.{max_int64}
use cpa_usage_plugin.Correlation.{Role, TokenShape, TokenEvidence}
use cpa_usage_plugin.Correlation.Shapes.{
  Variant, checked_sum, merge_shape, add_shape, derived_inputs, derived_outputs, pairs_with,
  all_pairs, of_total, shape_before, insert_shape, sort_shapes, raw_shapes, finish_shapes,
  from_variants, build_token_shapes, input_variants, output_variants, is_native,
  is_independent_input, is_independent_output,
}

-- The total is the sum of the two sides and an int64.
abbrev pub Coupled : TokenShape → Type 0
Coupled s = (s.total ≡ s.full_input + s.full_output) × (s.total ≤ 9223372036854775807)

merge_shape-Coupled :
    (shapes : List TokenShape) (shape : TokenShape)
    → Coupled shape
    → All Coupled shapes
    → All Coupled (merge_shape shapes shape)
unfolding merge_shape
merge_shape-Coupled [] shape fine ok = (fine, tt)
merge_shape-Coupled (s ∷ rest) shape fine ok =
    elim (Bool-cases (s.full_input == shape.full_input && s.full_output == shape.full_output)) [
      | inl e ↦ rw e ok
      | inr e ↦ rw e (ok.0, merge_shape-Coupled rest shape fine ok.1)
    ]

add_shape-Coupled :
    (shapes : List TokenShape) (input output strength : ℕ)
    → All Coupled shapes
    → All Coupled (add_shape shapes input output strength)
unfolding add_shape checked_sum
add_shape-Coupled shapes input output strength ok =
    elim (Bool-cases (leb (input + output) max_int64)) [
      | inl e ↦
          rw (add_shape, checked_sum, e)
            (merge_shape-Coupled shapes
              (record {
                full_input = input;
                full_output = output;
                total = input + output;
                strength = strength;
              })
              (refl, ground (arith, e)) ok)
      | inr e ↦ rw (add_shape, checked_sum, e) ok
    ]

skip-Coupled :
    (skip : Bool) (shapes : List TokenShape) (input output strength : ℕ)
    → All Coupled shapes
    → All Coupled (if skip then shapes else add_shape shapes input output strength)
skip-Coupled true shapes input output strength ok = ok
skip-Coupled false shapes input output strength ok =
    add_shape-Coupled shapes input output strength ok

derived_inputs-Coupled :
    (total : ℕ) (outputs : List Variant) (shapes : List TokenShape)
    → All Coupled shapes
    → All Coupled (derived_inputs total outputs shapes)
unfolding derived_inputs
derived_inputs-Coupled total [] shapes ok = ok
derived_inputs-Coupled total (o ∷ rest) shapes ok =
    derived_inputs-Coupled total rest
      (if ltb total o.value then shapes else add_shape shapes (total - o.value) o.value 70)
      (skip-Coupled (ltb total o.value) shapes (total - o.value) o.value 70 ok)

derived_outputs-Coupled :
    (total : ℕ) (inputs : List Variant) (shapes : List TokenShape)
    → All Coupled shapes
    → All Coupled (derived_outputs total inputs shapes)
unfolding derived_outputs
derived_outputs-Coupled total [] shapes ok = ok
derived_outputs-Coupled total (i ∷ rest) shapes ok =
    derived_outputs-Coupled total rest
      (if ltb total i.value then shapes else add_shape shapes i.value (total - i.value) 70)
      (skip-Coupled (ltb total i.value) shapes i.value (total - i.value) 70 ok)

pairs_with-Coupled :
    (i : Variant) (outputs : List Variant) (shapes : List TokenShape)
    → All Coupled shapes
    → All Coupled (pairs_with i outputs shapes)
unfolding pairs_with
pairs_with-Coupled i [] shapes ok = ok
pairs_with-Coupled i (o ∷ rest) shapes ok =
    pairs_with-Coupled i rest (add_shape shapes i.value o.value (min i.strength o.strength))
      (add_shape-Coupled shapes i.value o.value (min i.strength o.strength) ok)

all_pairs-Coupled :
    (inputs outputs : List Variant) (shapes : List TokenShape)
    → All Coupled shapes
    → All Coupled (all_pairs inputs outputs shapes)
unfolding all_pairs
all_pairs-Coupled [] outputs shapes ok = ok
all_pairs-Coupled (i ∷ rest) outputs shapes ok =
    all_pairs-Coupled rest outputs (pairs_with i outputs shapes)
      (pairs_with-Coupled i outputs shapes ok)

raw_shapes-Coupled :
    (e : TokenEvidence) (inputs outputs : List Variant) → All Coupled (raw_shapes e inputs outputs)
unfolding raw_shapes
raw_shapes-Coupled e inputs outputs =
    let wants = is_independent_input e.input_mode && length inputs == 0 && e.known.total in
    let first : List TokenShape = if wants then derived_inputs e.total outputs [] else [] in
    let first_ok : All Coupled first = elim (Bool-cases wants) [
      | inl h ↦ rw h (derived_inputs-Coupled e.total outputs [] tt)
      | inr h ↦ rw h tt
    ] in
    let more = is_independent_output e.output_mode && length outputs == 0 && e.known.total in
    let second : List TokenShape = if more then derived_outputs e.total inputs first else first in
    let second_ok : All Coupled second = elim (Bool-cases more) [
      | inl h ↦ rw h (derived_outputs-Coupled e.total inputs first first_ok)
      | inr h ↦ rw h first_ok
    ] in
    all_pairs-Coupled inputs outputs second second_ok

-- A shape that is left of a native record with a known total has that total.
abbrev pub Fitting : TokenEvidence → Role → TokenShape → Type 0
Fitting e role s = Coupled s × ((is_native role && e.known.total) ≡ true → s.total ≡ e.total)

module _ (P : TokenShape → Type 0) where
  insert_shape-All :
      (s : TokenShape) (shapes : List TokenShape)
      → P s
      → All P shapes
      → All P (insert_shape s shapes)
  unfolding insert_shape
  insert_shape-All s [] p ok = (p, tt)
  insert_shape-All s (t ∷ rest) p ok = elim (Bool-cases (shape_before s t)) [
    | inl e ↦ rw e (p, ok)
    | inr e ↦ rw e (ok.0, insert_shape-All s rest p ok.1)
  ]

  sort_shapes-All :
      (sorted shapes : List TokenShape)
      → All P sorted
      → All P shapes
      → All P (sort_shapes sorted shapes)
  unfolding sort_shapes
  sort_shapes-All sorted [] ok none_left = ok
  sort_shapes-All sorted (s ∷ rest) ok left =
      sort_shapes-All (insert_shape s sorted) rest (insert_shape-All s sorted left.0 ok) left.1

module _ (e : TokenEvidence) (role : Role) where
  unfiltered-Fitting :
      (shapes : List TokenShape)
      → (is_native role && e.known.total) ≡ false
      → All Coupled shapes
      → All (Fitting e role) shapes
  unfiltered-Fitting [] free ok = tt
  unfiltered-Fitting (s ∷ rest) free ok =
      ((ok.0, λ h. absurd (ground (arith, h, free))), unfiltered-Fitting rest free ok.1)

  of_total-Fitting :
      (shapes : List TokenShape)
      → All Coupled shapes
      → All (Fitting e role) (of_total e.total shapes)
  unfolding of_total
  of_total-Fitting [] ok = tt
  of_total-Fitting (s ∷ rest) ok = elim (Bool-cases (s.total == e.total)) [
    | inl same ↦ rw same ((ok.0, λ h. ground (arith, same)), of_total-Fitting rest ok.1)
    | inr other ↦ rw other (of_total-Fitting rest ok.1)
  ]

  finish_shapes-Fitting :
      (shapes : List TokenShape)
      → All Coupled shapes
      → All (Fitting e role) (finish_shapes e role shapes)
  finish_shapes-Fitting shapes ok = elim (Bool-cases (is_native role && e.known.total)) [
    | inl h ↦
        rw (finish_shapes, h)
          (sort_shapes-All (Fitting e role) [] (of_total e.total shapes) tt
            (of_total-Fitting shapes ok))
    | inr h ↦
        rw (finish_shapes, h)
          (sort_shapes-All (Fitting e role) [] shapes tt (unfiltered-Fitting shapes h ok))
  ]

  from_variants-Fitting :
      (inputs outputs : Option (List Variant))
      → All (Fitting e role) (from_variants e role inputs outputs)
  from_variants-Fitting none outputs = tt
  from_variants-Fitting (some inputs) none = tt
  from_variants-Fitting (some inputs) (some outputs) =
      elim (Bool-cases (e.known.total && not (leb (e.input + e.output) (min e.total max_int64)))) [
        | inl h ↦ rw h tt
        | inr h ↦ rw h (
            finish_shapes-Fitting (raw_shapes e inputs outputs)
              (raw_shapes-Coupled e inputs outputs))
      ]

  -- Every shape that buildProtocolTokenShapes finds has the sum of its input and its output as its
  -- total, which is an int64; and where the record is native and reports a total, that is the total
  -- of each of its shapes.
  pub build_token_shapes-Fitting : All (Fitting e role) (build_token_shapes e role)
  unfolding build_token_shapes
  build_token_shapes-Fitting =
      elim (Bool-cases (e.invalid || not e.known.input || not e.known.output)) [
        | inl h ↦ rw (build_token_shapes, h) tt
        | inr h ↦
            rw (build_token_shapes, h)
              (from_variants-Fitting (input_variants e role) (output_variants e))
      ]
