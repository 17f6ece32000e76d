-- ===== src/Object.antt =====
-- pkg/jsonutil/object.go: the JSON object that keeps the order its keys were set in, with an index
-- from key to position once it holds more than `index_at` members. A Go slice is a list and a Go map
-- an association list. Receivers are not nil; on a nil object the readers answer as on a new one.
pub mod Scan
pub mod Index
pub mod Laws
use jsonize.Prelude.{
  ℕ, zero, suc, ◌-◌, List, [], ◌∷◌, ◌++◌, Option, none, some, Text, same, lookup, insert, ltb,
  if◌then◌else◌, length,
}

pub record Member {ℓ} (V : Type ℓ) : Type ℓ where
  pub key : Text
  pub value : V

pub record Object {ℓ} (V : Type ℓ) : Type ℓ where
  pub members : List (Member V)
  pub index : Option (List (Text × ℕ))

abbrev pub index_at : ℕ
index_at = 32

module _ {ℓ} {V : Type ℓ} where
  unfoldable pub new_object : Object V
  new_object = record { members = []; index = none }

  -- the loop of `find`
  unfoldable pub scan : Text → List (Member V) → ℕ → Option ℕ
  scan key [] i = none
  scan key (m ∷ ms) i = if same m.key key then some i else scan key ms (suc i)

  unfoldable pub find : Object V → Text → Option ℕ
  find o key = elim o.index [ some m ↦ lookup key m | none ↦ scan key o.members 0 ]

  -- the loop of `reindex`
  unfoldable pub index_from : List (Member V) → ℕ → List (Text × ℕ) → List (Text × ℕ)
  index_from [] i m = m
  index_from (x ∷ xs) i m = index_from xs (suc i) (insert x.key i m)

  unfoldable pub reindex : Object V → Object V
  reindex o = record o { index = some (index_from o.members 0 []) }

  -- `o.members[i].Value = value`
  unfoldable pub put : List (Member V) → ℕ → V → List (Member V)
  put [] i v = []
  put (x ∷ xs) zero v = record x { value = v } ∷ xs
  put (x ∷ xs) (suc i) v = x ∷ put xs i v

  -- the switch behind the append in `Set`
  unfoldable pub note_index : Object V → Text → Object V
  note_index o key = elim o.index [
    | some m ↦ record o { index = some (insert key (length o.members - 1) m) }
    | none ↦ if ltb index_at (length o.members) then reindex o else o
  ]

  unfoldable pub set : Object V → Text → V → Object V
  set o key v = elim (find o key) [
    | some i ↦ record o { members = put o.members i v }
    | none ↦
        note_index (record o { members = o.members ++ record { key = key; value = v } ∷ [] }) key
  ]

  -- `o.members[i]`; the position is in range
  unfoldable pub value_at : List (Member V) → ℕ → Option V
  value_at [] i = none
  value_at (x ∷ xs) zero = some x.value
  value_at (x ∷ xs) (suc i) = value_at xs i

  unfoldable pub get : Object V → Text → Option V
  get o key = elim (find o key) [ none ↦ none | some i ↦ value_at o.members i ]

  -- `append(o.members[:i], o.members[i+1:]...)`
  unfoldable pub cut : List (Member V) → ℕ → List (Member V)
  cut [] i = []
  cut (x ∷ xs) zero = xs
  cut (x ∷ xs) (suc i) = x ∷ cut xs i

  unfoldable pub reindex_kept : Object V → Object V
  reindex_kept o = elim o.index [ some _ ↦ reindex o | none ↦ o ]

  unfoldable pub delete : Object V → Text → Object V
  delete o key = elim (find o key) [
    | none ↦ o
    | some i ↦ reindex_kept (record o { members = cut o.members i })
  ]

  unfoldable pub len : Object V → ℕ
  len o = length o.members
