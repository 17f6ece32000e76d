-- ===== src/Pointer.antt =====
-- internal/jsonbuild/jsonbuild.go, `location`, `pointer` and `render`: where in a document an argument of
-- `jz new` places its value, and how messages write that.
pub mod Rendered
use jsonize.Prelude.{
  Bool, true, false, ◌&&◌, ◌||◌, ◌⊎◌, inl, inr, List, [], ◌∷◌, ◌++◌, Option, none, some, Text,
  codes, ◌==◌, same, within, if◌then◌else◌,
}

pub record Token : Type 0 where
  pub name : Text
  pub appends : Bool
  pub index : Bool

pub data PointerError : Type 0 where
  other_tilde empty_key append_suffix ends_in_colon no_keys key_is_empty double_append :
      PointerError

-- `strings.CutSuffix`
unfoldable pub cut_suffix : Text → Text → Option Text
unfolding same
cut_suffix suffix [] = if same [] suffix then some [] else none
cut_suffix suffix (c ∷ cs) =
    let rest = cut_suffix suffix cs in
    if same (c ∷ cs) suffix then some [] else elim rest [ none ↦ none | some t ↦ some (c ∷ t) ]

abbrev pub has_suffix : Text → Text → Bool
has_suffix suffix text = elim (cut_suffix suffix text) [ none ↦ false | some _ ↦ true ]

-- `strings.Split(text, "/")`
unfoldable pub put_first : Text → List Text → List Text
put_first part [] = part ∷ []
put_first part (p ∷ ps) = (part ++ p) ∷ ps

unfoldable pub split_slash : Text → List Text
unfolding put_first
split_slash [] = [] ∷ []
split_slash (c ∷ cs) =
    let rest = split_slash cs in if c == b'/' then [] ∷ rest else put_first (c ∷ []) rest

abbrev pub with_byte : Text → Option Text → Option Text
with_byte b none = none
with_byte b (some t) = some (b ++ t)

-- the loop of `unescape`
unfoldable pub unescape_from : Text → Option Text
unescape_from [] = some []
unescape_from (c ∷ []) = if c == b'~' then none else some (c ∷ [])
unescape_from (c ∷ d ∷ ds) =
    let next = unescape_from (d ∷ ds) in
    let behind = unescape_from ds in
    if c == b'~'
    then if d == b'0'
      then with_byte (b'~' ∷ []) behind
      else if d == b'1'
      then with_byte (b'/' ∷ []) behind
      else none
    else with_byte (c ∷ []) next

unfoldable pub holds_tilde : Text → Bool
holds_tilde [] = false
holds_tilde (c ∷ cs) = c == b'~' || holds_tilde cs

unfoldable pub unescape : Text → Option Text
unfolding holds_tilde unescape_from
unescape part = if holds_tilde part then unescape_from part else some part

unfoldable pub all_decimal : Text → Bool
all_decimal [] = true
all_decimal (c ∷ cs) = within b'0' b'9' c && all_decimal cs

unfoldable pub is_index : Text → Bool
unfolding all_decimal
is_index [] = false
is_index (c ∷ []) = all_decimal (c ∷ [])
is_index (c ∷ d ∷ ds) = if c == b'0' then false else all_decimal (c ∷ d ∷ ds)

-- the switch of `pointer` on a part and the name it holds
unfoldable pub token_of : Text → Text → PointerError ⊎ Token
unfolding same cut_suffix is_index
token_of part [] = inl empty_key
token_of part (c ∷ cs) =
    if same part (codes "-")
    then inr (record { name = []; appends = true; index = false })
    else if has_suffix (codes "[]") (c ∷ cs)
    then inl append_suffix
    else inr (record { name = c ∷ cs; appends = false; index = is_index (c ∷ cs) })

unfoldable pub read_part : Text → PointerError ⊎ Token
unfolding unescape token_of
read_part part = elim (unescape part) [ none ↦ inl other_tilde | some name ↦ token_of part name ]

-- the loop of `pointer`
unfoldable pub read_parts : List Text → PointerError ⊎ List Token
unfolding read_part
read_parts [] = inr []
read_parts (part ∷ parts) =
    let rest = read_parts parts in
    elim (read_part part) [
      | inl e ↦ inl e
      | inr t ↦ elim rest [ inl e ↦ inl e | inr ts ↦ inr (t ∷ ts) ]
    ]

-- `pointer`, of what stands behind the first byte
unfoldable pub pointer : Text → PointerError ⊎ List Token
unfolding read_parts split_slash
pointer ptr = read_parts (split_slash ptr)

abbrev pub appending : Token
appending = record { name = []; appends = true; index = false }

abbrev key : Text → Token
key name = record { name = name; appends = false; index = false }

-- the part of `location` behind the cut
unfoldable pub plain_location : Text → List Token → PointerError ⊎ List Token
unfolding cut_suffix same
plain_location name appended =
    if same name []
    then inl key_is_empty
    else if has_suffix (codes "[]") name
    then inl double_append
    else inr (key name ∷ appended)

unfoldable pub key_location : Text → PointerError ⊎ List Token
unfolding plain_location
key_location loc = elim (cut_suffix (codes "[]") loc) [
  | none ↦ plain_location loc []
  | some name ↦ plain_location name (appending ∷ [])
]

-- `location`, without what the form of the argument adds to a message
unfoldable pub location : Text → Bool → PointerError ⊎ List Token
unfolding pointer key_location
location loc array = if has_suffix (codes ":") loc then inl ends_in_colon else elim loc [
  | [] ↦ if array then inr (appending ∷ []) else key_location []
  | c ∷ cs ↦ if c == b'/' then pointer cs else if array then inl no_keys else key_location (c ∷ cs)
]

-- `strings.ReplaceAll` of a byte
unfoldable pub replace_all : Text → Text → Text → Text
replace_all from to [] = []
replace_all from to (c ∷ cs) =
    let rest = replace_all from to cs in if same (c ∷ []) from then to ++ rest else c ∷ rest

unfoldable pub escape_name : Text → Text
unfolding replace_all same
escape_name name = replace_all (codes "/") (codes "~1") (replace_all (codes "~") (codes "~0") name)

unfoldable pub render : List Token → Text
unfolding escape_name
render [] = []
render (t ∷ ts) =
    let rest = render ts in b'/' ∷ (if t.appends then b'-' ∷ rest else escape_name t.name ++ rest)
