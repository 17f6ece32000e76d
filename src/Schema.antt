-- ===== src/Schema.antt =====
-- internal/schema/schema.go: a JSON Schema as this program writes one, and its lookups. Pointers to
-- subschemas are not nil where the code reads them; the annotations that only name a schema (its
-- title, its contract) are left out, since nothing here reads them.
pub mod Types
pub mod Compare
pub mod Validate
pub mod Growth
pub mod Shape
pub mod Steps
pub mod Local
pub mod Fits
pub mod Alike
pub mod Sound
pub mod Compat
pub mod Ends
use jsonize.Prelude.{
  ℕ, zero, suc, Bool, true, false, List, [], ◌∷◌, Option, none, some, Text, codes, same, contains,
  cut_prefix, if◌then◌else◌,
}

mutual
  -- `Schema`: Ref, Type, Enum, Properties, Required, AdditionalProperties, Items, Defs
  pub data Schema : Type 0 where
    schema :
        Text
        → List Text
        → List Text
        → Properties
        → List Text
        → Subschema
        → Subschema
        → Properties
        → Schema

  -- `[]Property`: the slice that is nil is `unset`, the empty one is `end`.
  pub data Properties : Type 0 where
    unset : Properties
    end : Properties
    property : Text → Schema → Properties → Properties

  -- `*Schema`, which may be nil
  pub data Subschema : Type 0 where
    absent : Subschema
    present : Schema → Subschema

abbrev pub ref : Schema → Text
ref (schema r _ _ _ _ _ _ _) = r

abbrev pub types : Schema → List Text
types (schema _ t _ _ _ _ _ _) = t

abbrev pub enum : Schema → List Text
enum (schema _ _ e _ _ _ _ _) = e

abbrev pub properties : Schema → Properties
properties (schema _ _ _ p _ _ _ _) = p

abbrev pub required : Schema → List Text
required (schema _ _ _ _ r _ _ _) = r

abbrev pub additional_properties : Schema → Subschema
additional_properties (schema _ _ _ _ _ a _ _) = a

abbrev pub items : Schema → Subschema
items (schema _ _ _ _ _ _ i _) = i

abbrev pub defs : Schema → Properties
defs (schema _ _ _ _ _ _ _ d) = d

-- the loop of `Prop` and of `Def`
unfoldable pub named : Properties → Text → Option Schema
named unset name = none
named end name = none
named (property n s rest) name = if same n name then some s else named rest name

unfoldable pub prop : Schema → Text → Option Schema
unfolding named
prop s name = named (properties s) name

unfoldable pub def : Schema → Text → Option Schema
unfolding named
def s name = named (defs s) name

unfoldable pub is_required : Schema → Text → Bool
unfolding contains
is_required s name = contains name (required s)

-- `Has`
unfoldable pub has : Schema → Text → Bool
unfolding contains
has s t = contains t (types s)

abbrev pub type_object : Text
type_object = codes "object"

abbrev pub type_array : Text
type_array = codes "array"

abbrev pub type_string : Text
type_string = codes "string"

abbrev pub type_integer : Text
type_integer = codes "integer"

abbrev pub type_number : Text
type_number = codes "number"

abbrev pub type_boolean : Text
type_boolean = codes "boolean"

abbrev pub type_null : Text
type_null = codes "null"

-- `"#/$defs/"`, in front of the name of a definition
abbrev pub defs_prefix : Text
defs_prefix = codes "#/$defs/"

-- `Properties == nil`
unfoldable pub is_unset : Properties → Bool
is_unset unset = true
is_unset _ = false
