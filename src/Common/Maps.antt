-- ===== src/Common/Maps.antt =====
-- A Go map with string keys as the list of its entries, in the order in which the code ranges over
-- it.
use mathlib.Core.Path.{◌≡◌, refl, ap}
use mathlib.Core.Bool.{false}
use mathlib.Core.Option.{Option, none, some}
use mathlib.Core.List.{List, [], ◌∷◌}
use mathlib.Core.Logic.{inl, inr}
use cpa_usage_plugin.Common.Tests.{if◌then◌else◌, Bool-cases}
use cpa_usage_plugin.Common.Text.{Text, text_eq, text_eq_refl, text_eq→eq}

module _ {ℓ} {A : Type ℓ} where
  unfoldable pub lookup : List (Text × A) → Text → Option A
  lookup [] key = none
  lookup ((k, a) ∷ rest) key =
      let later = lookup rest key in if text_eq k key then some a else later

  -- `m[key] = a`
  unfoldable pub insert : List (Text × A) → Text → A → List (Text × A)
  insert [] key a = (key, a) ∷ []
  insert ((k, b) ∷ rest) key a =
      let later = insert rest key a in if text_eq k key then (k, a) ∷ rest else (k, b) ∷ later

  -- `delete(m, key)`
  unfoldable pub delete : List (Text × A) → Text → List (Text × A)
  delete [] key = []
  delete ((k, b) ∷ rest) key =
      let later = delete rest key in if text_eq k key then later else (k, b) ∷ later

  pub lookup-insert :
      (l : List (Text × A)) (key : Text) (a : A) → lookup (insert l key a) key ≡ some a
  unfolding lookup insert
  lookup-insert [] key a = rw (text_eq_refl key) refl
  lookup-insert ((k, b) ∷ rest) key a = elim (Bool-cases (text_eq k key)) [
    | inl e ↦ rw (e, lookup, e) refl
    | inr e ↦ rw (e, lookup, e) (lookup-insert rest key a)
  ]

  pub lookup-delete : (l : List (Text × A)) (key : Text) → lookup (delete l key) key ≡ none
  unfolding lookup delete
  lookup-delete [] key = refl
  lookup-delete ((k, b) ∷ rest) key = elim (Bool-cases (text_eq k key)) [
    | inl e ↦ rw e (lookup-delete rest key)
    | inr e ↦ rw (e, lookup, e) (lookup-delete rest key)
  ]

  pub lookup-insert_other :
      (l : List (Text × A)) (key other : Text) (a : A)
      → text_eq key other ≡ false
      → lookup (insert l key a) other ≡ lookup l other
  unfolding lookup insert
  lookup-insert_other [] key other a ne = rw ne refl
  lookup-insert_other ((k, b) ∷ rest) key other a ne = elim (Bool-cases (text_eq k key)) [
    | inl e ↦
        let same : k ≡ key = text_eq→eq k key e in
        rw (e, lookup, ap (λ t. text_eq t other) same, ne) refl
    | inr e ↦ elim (Bool-cases (text_eq k other)) [
      | inl f ↦ rw (e, lookup, f) refl
      | inr f ↦ rw (e, lookup, f) (lookup-insert_other rest key other a ne)
    ]
  ]

  pub lookup-delete_other :
      (l : List (Text × A)) (key other : Text)
      → text_eq key other ≡ false
      → lookup (delete l key) other ≡ lookup l other
  unfolding lookup delete
  lookup-delete_other [] key other ne = refl
  lookup-delete_other ((k, b) ∷ rest) key other ne = elim (Bool-cases (text_eq k key)) [
    | inl e ↦
        let same : k ≡ key = text_eq→eq k key e in
        rw (e, lookup, ap (λ t. text_eq t other) same, ne) (lookup-delete_other rest key other ne)
    | inr e ↦ elim (Bool-cases (text_eq k other)) [
      | inl f ↦ rw (e, lookup, f) refl
      | inr f ↦ rw (e, lookup, f) (lookup-delete_other rest key other ne)
    ]
  ]
