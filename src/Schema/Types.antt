-- ===== src/Schema/Types.antt =====
-- internal/schema/schema.go and compat.go: the order of a type list (`normalizeTypes`, `typeOrder`),
-- and the comparison of two (`sameTypes`).
use jsonize.Prelude.{
  ℕ, Bool, true, ◌||◌, List, [], ◌∷◌, Text, same, same_iff, same_all, same_all→eq, contains, leb,
  if◌then◌else◌, ◌≡◌, refl, sym, ◌∙◌, ap, arith, Bool-cases, inl, inr,
}
use jsonize.Schema.{
  type_object, type_array, type_string, type_integer, type_number, type_boolean, type_null,
}

-- `typeOrder`; a name that the map lacks reads as 0
unfoldable pub type_order : Text → ℕ
unfolding same
type_order t =
    if same t type_object
    then 0
    else if same t type_array
    then 1
    else if same t type_string
    then 2
    else if same t type_integer
    then 3
    else if same t type_number
    then 4
    else if same t type_boolean
    then 5
    else if same t type_null
    then 6
    else 0

-- the loop of `normalizeTypes`
unfoldable pub distinct : List Text → List Text → List Text
unfolding contains
distinct seen [] = []
distinct seen (t ∷ ts) =
    let rest = distinct (t ∷ seen) ts in
    let same_rest = distinct seen ts in if contains t seen then same_rest else t ∷ rest

-- `sort.Slice`, where types of equal order keep the order they have
unfoldable pub put_type : Text → List Text → List Text
put_type t [] = t ∷ []
put_type t (x ∷ xs) = if leb (type_order t) (type_order x) then t ∷ x ∷ xs else x ∷ put_type t xs

unfoldable pub sort_types : List Text → List Text
unfolding put_type
sort_types [] = []
sort_types (t ∷ ts) = put_type t (sort_types ts)

unfoldable pub normalize_types : List Text → List Text
unfolding distinct sort_types
normalize_types types = sort_types (distinct [] types)

unfoldable pub same_types : List Text → List Text → Bool
unfolding normalize_types same_all
same_types a b = same_all (normalize_types a) (normalize_types b)

contains-put_type :
    (k t : Text) (xs : List Text) → contains k (put_type t xs) ≡ (same t k || contains k xs)
unfolding contains put_type
contains-put_type k t [] = refl
contains-put_type k t (x ∷ xs) = ground (arith, contains-put_type k t xs)

contains-sort_types : (k : Text) (xs : List Text) → contains k (sort_types xs) ≡ contains k xs
unfolding contains sort_types
contains-sort_types k [] = refl
contains-sort_types k (t ∷ ts) =
    contains-put_type k t (sort_types ts) ∙ ap (λ b. same t k || b) (contains-sort_types k ts)

contains-distinct :
    (k : Text) (seen xs : List Text)
    → (contains k seen || contains k (distinct seen xs)) ≡ (contains k seen || contains k xs)
unfolding contains distinct
contains-distinct k seen [] = refl
contains-distinct k seen (t ∷ ts) = elim (Bool-cases (same t k)) [
  | inl e ↦ ground (
    arith,
    ap (λ x. contains x seen) ((same_iff t k).0 e),
    contains-distinct k seen ts,
    contains-distinct k (t ∷ seen) ts,
  )
  | inr e ↦ ground (arith, e, contains-distinct k seen ts, contains-distinct k (t ∷ seen) ts)
]

-- Normalizing a type list keeps what it names.
contains-normalize_types :
    (k : Text) (xs : List Text) → contains k (normalize_types xs) ≡ contains k xs
unfolding normalize_types contains
contains-normalize_types k xs = contains-sort_types k (distinct [] xs) ∙ contains-distinct k [] xs

pub contains-same_types :
    (k : Text) (a b : List Text) → same_types a b ≡ true → contains k a ≡ contains k b
unfolding same_types
contains-same_types k a b h =
    sym (contains-normalize_types k a)
    ∙ ap (contains k) (same_all→eq (normalize_types a) (normalize_types b) h)
    ∙ contains-normalize_types k b
