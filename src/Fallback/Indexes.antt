-- ===== src/Fallback/Indexes.antt =====
-- go/response_intercept.go: what a change of an index does to the other pointers and keys.
use cpa_usage_plugin.Common.{
  ℕ, ◌≡◌, ◌≢◌, refl, sym, ◌∙◌, ap, Bool, true, false, ◌||◌, ◌==◌, if◌then◌else◌, List, [], ◌∷◌,
  ◌++◌, arith, Bool-cases, inl, inr,
}
use cpa_usage_plugin.Common.Text.{Text, text_eq, text_eq→eq}
use cpa_usage_plugin.Common.Maps.{
  lookup, delete, lookup-insert, lookup-delete, lookup-insert_other, lookup-delete_other,
}
use cpa_usage_plugin.Fallback.Select.{
  ids_at, contains, remove_id, store_ids, remove_at, push_id, kept_ids, clean_index,
}

abbrev pub Holds : List (Text × List ℕ) → Text → ℕ → Type 0
Holds index key id = contains (ids_at index key) id ≡ true

pub contains-append :
    (xs ys : List ℕ) (id : ℕ) → contains (xs ++ ys) id ≡ (contains xs id || contains ys id)
unfolding contains
contains-append [] ys id = ground arith
contains-append (x ∷ xs) ys id = ground (arith, contains-append xs ys id)

contains-remove_id :
    (xs : List ℕ) (id other : ℕ)
    → (other == id) ≡ false
    → contains (remove_id xs id) other ≡ contains xs other
unfolding contains remove_id
contains-remove_id [] id other ne = refl
contains-remove_id (x ∷ xs) id other ne = elim (Bool-cases (x == id)) [
  | inl e ↦ rw e (ground (arith, e, ne))
  | inr e ↦ rw (e, contains) (ap (λ b. x == other || b) (contains-remove_id xs id other ne))
]

ids_at-store :
    (index : List (Text × List ℕ)) (key : Text) (l : List ℕ)
    → ids_at (store_ids index key l) key ≡ l
unfolding ids_at store_ids
ids_at-store index key [] = rw (ids_at, lookup-delete index key) refl
ids_at-store index key (x ∷ xs) = rw (ids_at, lookup-insert index key (x ∷ xs)) refl

ids_at-store_other :
    (index : List (Text × List ℕ)) (key other : Text) (l : List ℕ)
    → text_eq key other ≡ false
    → ids_at (store_ids index key l) other ≡ ids_at index other
unfolding ids_at store_ids
ids_at-store_other index key other [] ne = rw (ids_at, lookup-delete_other index key other ne) refl
ids_at-store_other index key other (x ∷ xs) ne =
    rw (ids_at, lookup-insert_other index key other (x ∷ xs) ne) refl

pub remove_at-Holds :
    (index : List (Text × List ℕ)) (key other_key : Text) (id other : ℕ)
    → (other == id) ≡ false
    → Holds index other_key other
    → Holds (remove_at index key id) other_key other
unfolding remove_at
remove_at-Holds index key other_key id other ne h =
    elim (Bool-cases (contains (ids_at index key) id)) [
      | inr absent ↦ rw (remove_at, absent) h
      | inl present ↦ elim (Bool-cases (text_eq key other_key)) [
        | inl e ↦
            let same : key ≡ other_key = text_eq→eq key other_key e in
            let left =
              ap (λ l. contains l other) (ids_at-store index key (remove_id (ids_at index key) id))
              ∙ contains-remove_id (ids_at index key) id other ne in
            let held : contains (ids_at index key) other ≡ true = rw same h in
            rw (remove_at, present, ← same) (left ∙ held)
        | inr apart ↦
            rw
              (
                remove_at,
                present,
                ids_at-store_other index key other_key (remove_id (ids_at index key) id) apart,
              )
              h
      ]
    ]

pub push_id-Holds :
    (index : List (Text × List ℕ)) (key other_key : Text) (id other : ℕ)
    → Holds index other_key other
    → Holds (push_id index key id) other_key other
unfolding push_id ids_at contains
push_id-Holds index key other_key id other h = elim (Bool-cases (text_eq key other_key)) [
  | inl e ↦
      let same : key ≡ other_key = text_eq→eq key other_key e in
      let held : contains (ids_at index key) other ≡ true = rw same h in
      let found = contains-append (ids_at index key) (id ∷ []) other ∙ ground (arith, held) in
      rw (← same, push_id, ids_at, lookup-insert index key (ids_at index key ++ (id ∷ []))) found
  | inr apart ↦
      rw
        (
          push_id,
          ids_at,
          lookup-insert_other index key other_key (ids_at index key ++ (id ∷ [])) apart,
        )
        h
]

pub push_id-new :
    (index : List (Text × List ℕ)) (key : Text) (id : ℕ) → Holds (push_id index key id) key id
unfolding push_id ids_at contains
push_id-new index key id =
    rw (push_id, ids_at, lookup-insert index key (ids_at index key ++ (id ∷ [])))
      (contains-append (ids_at index key) (id ∷ []) id ∙ ground arith)

contains-kept_ids :
    (keep : ℕ → Bool) (xs : List ℕ) (id : ℕ)
    → keep id ≡ true
    → contains xs id ≡ true
    → contains (kept_ids keep xs) id ≡ true
unfolding contains kept_ids
contains-kept_ids keep [] id k h = h
contains-kept_ids keep (x ∷ xs) id k h = elim (Bool-cases (x == id)) [
  | inl e ↦
      let same : x ≡ id = ground (arith, e) in
      let kept : keep x ≡ true = rw same k in rw (kept, contains, e) refl
  | inr e ↦
      let later = contains-kept_ids keep xs id k (ground (arith, h, e)) in
      elim (Bool-cases (keep x)) [ inl f ↦ rw (f, contains, e) later | inr f ↦ rw f later ]
]

pub contains-none : (id : ℕ) → contains [] id ≢ true
unfolding contains
contains-none id h = ground (arith, h)

-- An entry in front of an index.
pub ids_at-front :
    (other key : Text) (l : List ℕ) (rest : List (Text × List ℕ)) (id : ℕ)
    → ids_at ((other, l) ∷ rest) key ≡ (if text_eq other key then l else ids_at rest key)
unfolding ids_at lookup
ids_at-front other key l rest id = elim (Bool-cases (text_eq other key)) [
  | inl e ↦ rw (ids_at, lookup, e) refl
  | inr e ↦ rw (ids_at, lookup, e) refl
]

pub clean_index-Holds :
    (keep : ℕ → Bool) (index : List (Text × List ℕ)) (key : Text) (id : ℕ)
    → keep id ≡ true
    → Holds index key id
    → Holds (clean_index keep index) key id
unfolding clean_index
clean_index-Holds keep [] key id k h = h
clean_index-Holds keep ((other, l) ∷ rest) key id k h =
    let split : (if text_eq other key then contains l id else contains (ids_at rest key) id)
        ≡ true =
      ground (arith, ap (λ m. contains m id) (ids_at-front other key l rest id), h) in
    elim (Bool-cases (text_eq other key)) [
      | inl e ↦
          let kept = contains-kept_ids keep l id k (ground (arith, split, e)) in
          here (kept_ids keep l) e kept
      | inr e ↦
          let later = clean_index-Holds keep rest key id k (ground (arith, split, e)) in
          there (kept_ids keep l) e later
    ]
  where
    here :
        (m : List ℕ)
        → text_eq other key ≡ true
        → contains m id ≡ true
        → Holds
            (elim m [
              | [] ↦ clean_index keep rest
              | x ∷ xs ↦ (other, x ∷ xs) ∷ clean_index keep rest
            ])
            key
            id
    here [] e c = absurd (contains-none id c)
    here (x ∷ xs) e c = rw (ids_at-front other key (x ∷ xs) (clean_index keep rest) id, e) c

    there :
        (m : List ℕ)
        → text_eq other key ≡ false
        → Holds (clean_index keep rest) key id
        → Holds
            (elim m [
              | [] ↦ clean_index keep rest
              | x ∷ xs ↦ (other, x ∷ xs) ∷ clean_index keep rest
            ])
            key
            id
    there [] e c = c
    there (x ∷ xs) e c = rw (ids_at-front other key (x ∷ xs) (clean_index keep rest) id, e) c

-- A step from an index that holds no pointer under the key.
pub delete-Holds :
    (index : List (Text × List ℕ)) (key other : Text) (id : ℕ)
    → ids_at index key ≡ []
    → Holds index other id
    → Holds (delete index key) other id
unfolding ids_at
delete-Holds index key other id empty h = elim (Bool-cases (text_eq key other)) [
  | inl e ↦
      let same : other ≡ key = sym (text_eq→eq key other e) in
      absurd (
        contains-none id (
          ap (λ l. contains l id) (sym empty)
          ∙ ap (λ k. contains (ids_at index k) id) (sym same)
          ∙ h))
  | inr ne ↦ rw (ids_at, lookup-delete_other index key other ne) h
]
