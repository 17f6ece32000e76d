-- ===== src/Schema/Validate.antt =====
-- internal/schema/validate.go: where a JSON document does not fit a schema. A map of Go is the list of
-- its entries in the order of their keys, which is the order the code reads them in. A number is the
-- digits it is written with and how many of them stand behind the point, its exponent worked in; the
-- sign bears on nothing here. A path is its steps, and a message what it quotes.
use jsonize.Prelude.{
  ℕ, suc, ◌%◌, ◌^◌, Bool, false, ◌&&◌, ◌||◌, List, [], ◌∷◌, ◌++◌, Option, none, some, Text, same,
  contains, cut_prefix, ◌==◌, if◌then◌else◌,
}
use jsonize.Schema.{
  Schema, Subschema, absent, present, ref, types, enum, properties, required, additional_properties,
  items, prop, def, has, is_unset, type_object, type_array, type_string, type_integer, type_number,
  type_boolean, type_null, defs_prefix,
}
use jsonize.Schema.Compare.{is_empty, none_of}

mutual
  pub data Value : Type 0 where
    null : Value
    boolean : Bool → Value
    string : Text → Value
    number : ℕ → ℕ → Value
    array : Items → Value
    object : Fields → Value

  pub data Items : Type 0 where
    nil : Items
    cons : Value → Items → Items

  pub data Fields : Type 0 where
    done : Fields
    field : Text → Value → Fields → Fields

unfoldable pub kind : Value → Text
kind null = type_null
kind (boolean b) = type_boolean
kind (string s) = type_string
kind (number n places) = if n % 10 ^ places == 0 then type_integer else type_number
kind (array xs) = type_array
kind (object fs) = type_object

pub data Place : Type 0 where
  root : Place
  key_of : Place → Text → Place
  index_of : Place → ℕ → Place

pub data Problem : Type 0 where
  unresolved_ref : Place → Text → Problem
  wrong_type : Place → Text → List Text → Problem
  not_one_of : Place → Text → List Text → Problem
  missing_key : Place → Text → Problem
  unknown_key : Place → Text → Problem

-- `root.Def(name)` of a reference, where it has the prefix of one
unfoldable pub def_of : Schema → Text → Option Schema
unfolding def cut_prefix
def_of top r = elim (cut_prefix defs_prefix r) [ none ↦ none | some name ↦ def top name ]

unfoldable pub target : Schema → Schema → Option Schema
unfolding def_of
target top s = if is_empty (ref s) then some s else def_of top (ref s)

unfoldable pub fits_type : Schema → Text → Bool
unfolding has same
fits_type s k = none_of (types s) || has s k || same k type_integer && has s type_number

-- `str, _ := v.(string)`
unfoldable pub as_string : Value → Text
as_string (string s) = s
as_string _ = []

unfoldable pub fits_enum : Schema → Value → Bool
unfolding contains as_string
fits_enum s v = none_of (enum s) || contains (as_string v) (enum s)

-- The part of `validate` in front of its switch on the value; the rest is what a value of its type is
-- asked.
unfoldable pub under : Schema → Schema → Value → Place → (Schema → List Problem) → List Problem
unfolding target fits_type fits_enum kind
under top s v place inner = elim (target top s) [
  | none ↦ unresolved_ref place (ref s) ∷ []
  | some t ↦
      if fits_type t (kind v)
      then (if fits_enum t v then [] else not_one_of place (as_string v) (enum t) ∷ []) ++ inner t
      else wrong_type place (kind v) (types t) ∷ []
]

unfoldable pub has_key : Text → Fields → Bool
unfolding same
has_key k done = false
has_key k (field j v rest) = same j k || has_key k rest

-- the loop over `Required`
unfoldable pub missing_keys : List Text → Fields → Place → List Problem
unfolding has_key
missing_keys [] fs place = []
missing_keys (r ∷ rs) fs place =
    let rest = missing_keys rs fs place in if has_key r fs then rest else missing_key place r ∷ rest

-- What the switch on a key's subschema comes to.
pub data Keyed : Type 0 where
  described : Schema → Keyed
  refused passed_over : Keyed

unfoldable pub keyed : Schema → Text → Keyed
unfolding prop is_unset
keyed s k = elim (prop s k) [
  | some sub ↦ described sub
  | none ↦ elim (additional_properties s) [
    | present a ↦ described a
    | absent ↦ if is_unset (properties s) then passed_over else refused
  ]
]

-- an element of an array, whose check is the first argument
unfoldable pub item_problems : (Schema → List Problem) → Subschema → List Problem
item_problems check absent = []
item_problems check (present s) = check s

-- a key of an object
unfoldable pub key_problems : (Schema → List Problem) → Keyed → Text → Place → List Problem
key_problems check (described sub) k place = check sub
key_problems check refused k place = unknown_key place k ∷ []
key_problems check passed_over k place = []

unfoldable mutual
  unfolding under missing_keys keyed item_problems key_problems

  -- `validate`
  pub validate : Schema → Schema → Value → Place → List Problem
  validate top s null place = under top s null place (λ t. [])
  validate top s (boolean b) place = under top s (boolean b) place (λ t. [])
  validate top s (string x) place = under top s (string x) place (λ t. [])
  validate top s (number n p) place = under top s (number n p) place (λ t. [])
  validate top s (array xs) place =
      under top s (array xs) place (λ t. validate_items top (items t) xs place 0)
  validate top s (object fs) place =
      under top s (object fs) place
        (λ t. missing_keys (required t) fs place ++ validate_fields top t fs place)

  pub validate_items : Schema → Subschema → Items → Place → ℕ → List Problem
  validate_items top sub nil place i = []
  validate_items top sub (cons v vs) place i =
      item_problems (λ s. validate top s v (index_of place i)) sub
      ++ validate_items top sub vs place (suc i)

  -- the loop of `validateObject` over the keys
  pub validate_fields : Schema → Schema → Fields → Place → List Problem
  validate_fields top t done place = []
  validate_fields top t (field k v rest) place =
      key_problems (λ sub. validate top sub v (key_of place k)) (keyed t k) k place
      ++ validate_fields top t rest place

-- `Validate`, of a document that was read
unfoldable pub validate_document : Schema → Value → List Problem
unfolding validate
validate_document s v = validate s s v root
