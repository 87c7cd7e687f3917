-- ===== src/Fallback/Select.antt =====
-- go/response_intercept.go: lists of pointers under a key, and the choice of the best candidate.
use cpa_usage_plugin.Common.{
  ℕ, Bool, false, ◌||◌, not, ltb, ◌==◌, if◌then◌else◌, Option, none, some, List, [], ◌∷◌, ◌++◌,
}
use cpa_usage_plugin.Common.Text.{Text, is_empty, trim_space}
use cpa_usage_plugin.Common.Maps.{lookup, insert, delete}
use cpa_usage_plugin.Fallback.{Edge}

-- `index[key]`
unfoldable pub ids_at : List (Text × List ℕ) → Text → List ℕ
ids_at index key = elim (lookup index key) [ none ↦ [] | some l ↦ l ]

unfoldable pub contains : List ℕ → ℕ → Bool
contains [] id = false
contains (x ∷ xs) id = let rest = contains xs id in x == id || rest

-- The list without the first pointer to `id`.
unfoldable pub remove_id : List ℕ → ℕ → List ℕ
remove_id [] id = []
remove_id (x ∷ xs) id = let rest = remove_id xs id in if x == id then xs else x ∷ rest

-- `index[key] = l`, and the key is deleted where `l` is empty
unfoldable pub store_ids : List (Text × List ℕ) → Text → List ℕ → List (Text × List ℕ)
store_ids index key [] = delete index key
store_ids index key (x ∷ xs) = insert index key (x ∷ xs)

-- removeOccurrenceLocked, and the same loop of removePendingLocked
unfoldable pub remove_at : List (Text × List ℕ) → Text → ℕ → List (Text × List ℕ)
remove_at index key id =
    let l = ids_at index key in
    if contains l id then store_ids index key (remove_id l id) else index

unfoldable pub push_id : List (Text × List ℕ) → Text → ℕ → List (Text × List ℕ)
push_id index key id = insert index key (ids_at index key ++ (id ∷ []))

-- The pointer under each key that is not empty.
unfoldable pub push_all : List (Text × List ℕ) → List Text → ℕ → List (Text × List ℕ)
push_all index [] id = index
push_all index (key ∷ keys) id =
    push_all (if is_empty key then index else push_id index key id) keys id

-- removeCorrelatedPendingLocked, and the loop over the keys of an occurrence
unfoldable pub remove_all : List (Text × List ℕ) → List Text → ℕ → List (Text × List ℕ)
remove_all index [] id = index
remove_all index (key ∷ keys) id =
    remove_all (if is_empty key then index else remove_at index key id) keys id

-- firstNonEmpty
unfoldable pub first_non_empty : List Text → Text
first_non_empty [] = []
first_non_empty (t ∷ rest) =
    let later = first_non_empty rest in if is_empty (trim_space t) then later else t

-- betterProtocolLiveCandidate, given whether the candidate's stable order is less
unfoldable pub better_candidate : Edge → Edge → Bool → Bool
better_candidate e selected less =
    if not (e.strength == selected.strength)
    then ltb selected.strength e.strength
    else if not (e.distance == selected.distance)
    then ltb e.distance selected.distance
    else less

-- The loop that selects a candidate: `edge` of a pointer is none where the loop continues.
unfoldable pub select_best :
    (ℕ → Option Edge) → (ℕ → ℕ → Bool) → List ℕ → Option (ℕ × Edge) → Option (ℕ × Edge)
select_best edge less [] selected = selected
select_best edge less (id ∷ rest) selected = select_best edge less rest (elim (edge id) [
  | none ↦ selected
  | some e ↦ elim selected [
    | none ↦ some (id, e)
    | some s ↦ if better_candidate e s.1 (less id s.0) then some (id, e) else some s
  ]
])

-- The pointers under the keys, each once: the loops skip a pointer that they have seen.
unfoldable pub unseen : (ℕ → Bool) → List ℕ → List ℕ → List ℕ
unseen eligible seen [] = []
unseen eligible seen (id ∷ rest) =
    let again = unseen eligible seen rest in
    let later = unseen eligible (id ∷ seen) rest in
    if not (eligible id) || contains seen id then again else id ∷ later

unfoldable pub ids_of : List (Text × List ℕ) → List Text → List ℕ
ids_of index [] = []
ids_of index (key ∷ keys) = ids_at index key ++ ids_of index keys

-- One entry of a cleaned index: deleted where nothing is kept.
unfoldable pub kept_ids : (ℕ → Bool) → List ℕ → List ℕ
kept_ids keep [] = []
kept_ids keep (id ∷ rest) = let later = kept_ids keep rest in if keep id then id ∷ later else later

unfoldable pub clean_index : (ℕ → Bool) → List (Text × List ℕ) → List (Text × List ℕ)
clean_index keep [] = []
clean_index keep ((key, l) ∷ rest) =
    let later = clean_index keep rest in
    elim (kept_ids keep l) [ [] ↦ later | x ∷ xs ↦ (key, x ∷ xs) ∷ later ]

unfoldable pub push_each : (ℕ → List Text) → List ℕ → List (Text × List ℕ) → List (Text × List ℕ)
push_each keys [] index = index
push_each keys (id ∷ rest) index = push_each keys rest (push_all index (keys id) id)

-- The index by correlation keys that cleanupLocked makes of a cleaned index.
unfoldable pub correlated_of :
    (ℕ → List Text) → List (Text × List ℕ) → List (Text × List ℕ) → List (Text × List ℕ)
correlated_of keys [] index = index
correlated_of keys ((key, l) ∷ rest) index = correlated_of keys rest (push_each keys l index)
