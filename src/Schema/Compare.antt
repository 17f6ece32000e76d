-- ===== src/Schema/Compare.antt =====
-- internal/schema/compat.go: how one version of a schema differs from the one before. The comparer
-- holds the changes found and the pairs of references it has followed; `none` is a comparison whose
-- fuel ran out. What a message quotes is an argument of its detail.
use jsonize.Prelude.{
  ℕ, zero, suc, Bool, true, false, not, ◌&&◌, ◌||◌, List, [], ◌∷◌, ◌++◌, Option, none, some, Text,
  codes, same, contains, cut_prefix, if◌then◌else◌,
}
use jsonize.KeyFilter.{less}
use jsonize.Schema.{
  Schema, Properties, unset, end, property, Subschema, absent, present, ref, types, enum,
  properties, additional_properties, items, prop, def, is_required, has, type_object, type_array,
  defs_prefix,
}
use jsonize.Schema.Types.{same_types}

pub data Kind : Type 0 where
  kind_removed kind_type kind_required kind_optional kind_enum kind_keys kind_added : Kind

-- The texts of `Detail`.
pub data Detail : Type 0 where
  was_is : List Text → List Text → Detail
  object_became_array array_became_object : Detail
  elements_described elements_not_described : Detail
  values_limited values_not_limited can_no_longer_appear can_now_appear : List Text → Detail
  may_be_missing always_there no_longer_produced new_always_there new_may_appear : Detail
  carries_keys no_longer_carries_keys : Detail

pub record Change : Type 0 where
  pub path : Text
  pub kind : Kind
  pub detail : Detail
  pub breaking : Bool

pub record Comparer : Type 0 where
  pub out : List Change
  pub seen : List (Text × Text)

abbrev pub Step : Type 0
Step = Comparer → Option Comparer

abbrev pub skip : Step
skip c = some c

infixr 5 ◌>>◌
unfoldable pub ◌>>◌ : Step → Step → Step
◌>>◌ f g c = elim (f c) [ none ↦ none | some c' ↦ g c' ]

unfoldable pub add : Text → Kind → Detail → Bool → Step
add path kind detail breaking c = some (record c {
  out = c.out ++ record { path = path; kind = kind; detail = detail; breaking = breaking } ∷ [];
})

-- `name, _ := strings.CutPrefix(s.Ref, "#/$defs/")`
unfoldable pub ref_name : Text → Text
unfolding cut_prefix
ref_name r = elim (cut_prefix defs_prefix r) [ none ↦ r | some name ↦ name ]

abbrev pub is_empty : Text → Bool
is_empty [] = true
is_empty (_ ∷ _) = false

unfoldable pub resolve : Schema → Schema → Schema × Text
unfolding def ref_name
resolve root s =
    if is_empty (ref s)
    then (s, [])
    else elim (def root (ref_name (ref s))) [ some d ↦ (d, ref s) | none ↦ (s, ref s) ]

-- `minus`
unfoldable pub minus : List Text → List Text → List Text
unfolding contains
minus [] b = []
minus (x ∷ xs) b = let rest = minus xs b in if contains x b then rest else x ∷ rest

abbrev pub none_of : List Text → Bool
none_of [] = true
none_of (_ ∷ _) = false

unfoldable pub compare_enum : List Text → List Text → Text → Step
unfolding add minus ◌>>◌
compare_enum prev next path =
    if none_of prev
    then (if none_of next then skip else add path kind_enum (values_limited next) true)
    else if none_of next
    then add path kind_enum (values_not_limited prev) true
    else (if none_of (minus prev next)
        then skip
        else add path kind_enum (can_no_longer_appear (minus prev next)) true)
      >> (if none_of (minus next prev)
          then skip
          else add path kind_enum (can_now_appear (minus next prev)) true)

-- A call of `compare`, of two schemas and the path they stand at.
abbrev pub Visit : Type 0
Visit = Schema → Schema → Text → Step

abbrev pub element : Text → Text
element path = path ++ codes "[]"

abbrev pub child : Text → Text → Text
child path name = path ++ b'.' ∷ name

abbrev pub star : Text → Text
star path = path ++ codes ".*"

unfoldable pub compare_items : Visit → Subschema → Subschema → Text → Step
unfolding add
compare_items compare absent absent path = skip
compare_items compare absent (present _) path = add (element path) kind_type elements_described true
compare_items compare (present _) absent path =
    add (element path) kind_type elements_not_described true
compare_items compare (present p) (present n) path = compare p n (element path)

-- a property of prev that next does not name
unfoldable pub unnamed : Visit → Bool → Schema → Subschema → Text → Step
unfolding add ◌>>◌
unnamed compare was_required s absent path = add path kind_removed no_longer_produced true
unnamed compare was_required s (present a) path =
    (if was_required then add path kind_optional may_be_missing true else skip) >> compare s a path

-- the switch on whether a key is required
unfoldable pub compare_required : Bool → Bool → Text → Step
unfolding add
compare_required true false path = add path kind_optional may_be_missing true
compare_required false true path = add path kind_required always_there true
compare_required true true path = skip
compare_required false false path = skip

-- the body of the loop over the properties of prev
unfoldable pub compare_prev : Visit → Schema → Schema → Text → Text → Schema → Step
unfolding prop is_required unnamed compare_required ◌>>◌
compare_prev compare prev next path name s = elim (prop next name) [
  | none ↦ unnamed compare (is_required prev name) s (additional_properties next) (child path name)
  | some sub ↦
      compare_required (is_required prev name) (is_required next name) (child path name)
      >> compare s sub (child path name)
]

-- a property of next that prev does not name
unfoldable pub new_property : Visit → Bool → Schema → Subschema → Text → Step
unfolding add ◌>>◌
new_property compare now_required s absent path =
    if now_required
    then add path kind_required new_always_there true
    else add path kind_added new_may_appear false
new_property compare now_required s (present a) path =
    (if now_required then add path kind_required always_there true else skip) >> compare a s path

-- the body of the loop over the properties of next
unfoldable pub compare_next : Visit → Schema → Schema → Text → Text → Schema → Step
unfolding prop is_required new_property
compare_next compare prev next path name s = elim (prop prev name) [
  | some _ ↦ skip
  | none ↦
      new_property compare (is_required next name) s (additional_properties prev) (child path name)
]

unfoldable pub each : (Text → Schema → Step) → Properties → Step
unfolding ◌>>◌
each body unset = skip
each body end = skip
each body (property name s rest) = body name s >> each body rest

-- the last switch of `compareObject`
unfoldable pub compare_rest : Visit → Subschema → Subschema → Text → Step
unfolding add
compare_rest compare absent absent path = skip
compare_rest compare absent (present _) path = add path kind_keys carries_keys true
compare_rest compare (present _) absent path = add path kind_keys no_longer_carries_keys true
compare_rest compare (present p) (present n) path = compare p n (star path)

unfoldable pub compare_object : Visit → Visit
unfolding each compare_prev compare_next compare_rest ◌>>◌
compare_object compare prev next path =
    each (compare_prev compare prev next path) (properties prev)
    >> each (compare_next compare prev next path) (properties next)
    >> compare_rest compare (additional_properties prev) (additional_properties next) path

unfoldable pub compare_contents : Visit → Visit
unfolding compare_enum compare_items compare_object ◌>>◌
compare_contents compare prev next path =
    compare_enum (enum prev) (enum next) path
    >> compare_items compare (items prev) (items next) path
    >> compare_object compare prev next path

unfoldable pub type_detail : Schema → Schema → Detail
unfolding has
type_detail prev next =
    if has prev type_object && not (has next type_object) && has next type_array
    then object_became_array
    else if has prev type_array
        && not (has prev type_object)
        && has next type_object
        && not (has next type_array)
    then array_became_object
    else was_is (types prev) (types next)

-- `compare`, behind the references
unfoldable pub compare_types : Visit → Visit
unfolding compare_contents add has same_types type_detail ◌>>◌
compare_types compare prev next path =
    if same_types (types prev) (types next)
    then compare_contents compare prev next path
    else add path kind_type (type_detail prev next) true
      >> (if has prev type_object && has next type_object
            || has prev type_array && has next type_array
          then compare_contents compare prev next path
          else skip)

unfoldable pub is_seen : Text → Text → List (Text × Text) → Bool
unfolding same
is_seen p n [] = false
is_seen p n ((q, m) ∷ rest) = same q p && same m n || is_seen p n rest

-- The references that lead to the two schemas: a pair met before ends the comparison.
unfoldable pub follow : Text → Text → Step → Step
unfolding is_seen
follow p n step c =
    if is_empty p || is_empty n
    then step c
    else if is_seen p n c.seen
    then some c
    else step (record c { seen = (p, n) ∷ c.seen })

unfoldable pub visit : Schema → Schema → Visit → Visit
unfolding follow resolve compare_types
visit prev_root next_root compare prev next path =
    let p = resolve prev_root prev in
    let n = resolve next_root next in follow p.1 n.1 (compare_types compare p.0 n.0 path)

-- `(*comparer).compare`; the fuel bounds how deep its calls nest.
unfoldable pub compare : Schema → Schema → ℕ → Visit
unfolding visit
compare prev_root next_root zero prev next path c = none
compare prev_root next_root (suc fuel) prev next path c =
    visit prev_root next_root (compare prev_root next_root fuel) prev next path c

-- `sort.SliceStable` by path
unfoldable pub put_change : Change → List Change → List Change
unfolding less
put_change c [] = c ∷ []
put_change c (d ∷ ds) = if less d.path c.path then d ∷ put_change c ds else c ∷ d ∷ ds

unfoldable pub sort_changes : List Change → List Change
unfolding put_change
sort_changes [] = []
sort_changes (c ∷ cs) = put_change c (sort_changes cs)

-- `Compare`
unfoldable pub compare_schemas : ℕ → Schema → Schema → Option (List Change)
unfolding compare sort_changes
compare_schemas fuel prev next =
    elim (compare prev next fuel prev next (codes "$") (record { out = []; seen = [] })) [
      | none ↦ none
      | some c ↦ some (sort_changes c.out)
    ]

-- `Breaking`
unfoldable pub breaking_changes : List Change → List Change
breaking_changes [] = []
breaking_changes (c ∷ cs) = let rest = breaking_changes cs in if c.breaking then c ∷ rest else rest
