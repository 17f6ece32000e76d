-- ===== src/KeyFilter.antt =====
-- internal/cli/keys.go: the keys named by --extract and --exclude. A Go map that only says which keys
-- it holds is a list of texts. What a definition's schema says of the keys of a record (`recordKeys`)
-- is an argument, and so is the reading of a value as a string. The filter is not nil; a nil one passes
-- every value on.
pub mod Narrow
pub mod Unseen
pub mod Emit
use jsonize.Prelude.{
  ℕ, Bool, true, false, not, ◌&&◌, ◌||◌, List, [], ◌∷◌, ◌++◌, Option, none, some, Text, same, ◌==◌,
  ltb, leb, if◌then◌else◌, length,
}
use jsonize.Object.{Member, Object, new_object, set, get}

-- `maxShownKeys`
abbrev pub max_shown_keys : ℕ
max_shown_keys = 64

pub record KeyFilter : Type 0 where
  pub keys : List Text
  pub keep : Bool
  pub known : List Text
  pub open_keys : Bool
  pub seen : List Text
  pub present : List Text
  pub cut : Bool

unfoldable pub has : Text → List Text → Bool
has k [] = false
has k (x ∷ xs) = same x k || has k xs

-- `m[k] = true`
unfoldable pub mark_key : Text → List Text → List Text
mark_key k ks = if has k ks then ks else ks ++ k ∷ []

-- `maps.Copy`
unfoldable pub copy_keys : List Text → List Text → List Text
copy_keys ks [] = ks
copy_keys ks (x ∷ xs) = copy_keys (mark_key x ks) xs

unfoldable pub new_key_filter : List Text → Bool → KeyFilter
new_key_filter keys keep = record {
  keys = copy_keys [] keys;
  keep = keep;
  known = [];
  open_keys = true;
  seen = [];
  present = [];
  cut = false;
}

-- `a == b` on Go's bool
abbrev pub agrees : Bool → Bool → Bool
agrees true b = b
agrees false b = not b

unfoldable pub less : Text → Text → Bool
less [] [] = false
less [] (_ ∷ _) = true
less (_ ∷ _) [] = false
less (x ∷ xs) (y ∷ ys) = ltb x y || x == y && less xs ys

-- `slices.Sorted`
unfoldable pub put_sorted : Text → List Text → List Text
put_sorted k [] = k ∷ []
put_sorted k (x ∷ xs) = if less x k then x ∷ put_sorted k xs else k ∷ x ∷ xs

unfoldable pub sorted : List Text → List Text
sorted [] = []
sorted (k ∷ ks) = put_sorted k (sorted ks)

-- `slices.Compact`
unfoldable pub compact : List Text → List Text
compact [] = []
compact (k ∷ []) = k ∷ []
compact (k ∷ j ∷ ks) = let rest = compact (j ∷ ks) in if same k j then rest else k ∷ rest

abbrev sort_strings : List Text → List Text
sort_strings s = compact (sorted s)

pub record UnknownKeyError : Type 0 where
  pub keys : List Text
  pub present : List Text
  pub cut : Bool

-- the keys of a list that a test does not pass
unfoldable pub failing : (Text → Bool) → List Text → List Text
failing passes [] = []
failing passes (k ∷ ks) = if passes k then failing passes ks else k ∷ failing passes ks

abbrev is_empty : List Text → Bool
is_empty [] = true
is_empty (_ ∷ _) = false

unfoldable pub refuse : KeyFilter → List Text → Option UnknownKeyError
refuse f known =
    let unknown = failing (λ k. has k known) f.keys in
    if is_empty unknown
    then none
    else some (record { keys = sort_strings unknown; present = sort_strings known; cut = false })

-- the argument is what `recordKeys` gives for the definition
unfoldable pub know : KeyFilter → List Text × Bool → KeyFilter × Option UnknownKeyError
unfolding refuse
know f (known, is_open) =
    let told = record f { known = known; open_keys = is_open } in
    if is_empty f.keys
    then (f, none)
    else if is_open
    then (told, none)
    else (told, refuse told known)

-- The loop over the definitions; none where one of them takes its keys from the input.
unfoldable pub known_before : List (List Text × Bool) → List Text → Option (List Text)
known_before [] known = some known
known_before ((keys, is_open) ∷ defs) known =
    let rest = known_before defs (copy_keys known keys) in if is_open then none else rest

unfoldable pub know_before : KeyFilter → List (List Text × Bool) → Option UnknownKeyError
unfolding known_before refuse
know_before f [] = none
know_before f (d ∷ defs) =
    if is_empty f.keys
    then none
    else elim (known_before (d ∷ defs) []) [ none ↦ none | some known ↦ refuse f known ]

unfoldable pub unseen : KeyFilter → Option UnknownKeyError
unseen f =
    let missing = failing (λ k. has k f.seen || has k f.known) f.keys in
    if is_empty missing
    then none
    else some (record {
      keys = sort_strings missing;
      present = sorted (copy_keys (copy_keys [] f.known) f.present);
      cut = f.cut;
    })

unfoldable pub saw : KeyFilter → Text → Bool → KeyFilter
saw f key named =
    let g = if named then record f { seen = mark_key key f.seen } else f in
    if has key g.present
    then g
    else if leb max_shown_keys (length g.present)
    then record g { cut = true }
    else record g { present = g.present ++ key ∷ [] }

-- A document: an object, a list of documents, or anything else. The values of an object are not
-- looked into.
mutual
  pub data Doc {ℓ} (V : Type ℓ) : Type ℓ where
    object : Object V → Doc V
    array : Docs V → Doc V
    other : V → Doc V

  pub data Docs {ℓ} (V : Type ℓ) : Type ℓ where
    nil : Docs V
    cons : Doc V → Docs V → Docs V

module _ {ℓ} {V : Type ℓ} where
  -- the loop of `narrow`, with what `out` holds so far
  unfoldable pub narrow_from : KeyFilter → List (Member V) → Object V → Object V × KeyFilter
  narrow_from f [] out = (out, f)
  narrow_from f (m ∷ ms) out =
      let named = has m.key f.keys in
      narrow_from (saw f m.key named) ms
        (if agrees named f.keep then set out m.key m.value else out)

  unfoldable pub narrow : KeyFilter → Object V → Object V × KeyFilter
  unfolding narrow_from
  narrow f o = narrow_from f o.members new_object

  abbrev as_object : Object V × KeyFilter → Doc V × KeyFilter
  as_object (o, f) = (object o, f)

  abbrev as_array : Docs V × KeyFilter → Doc V × KeyFilter
  as_array (ds, f) = (array ds, f)

  abbrev put_first : Doc V → Docs V × KeyFilter → Docs V × KeyFilter
  put_first d (ds, f) = (cons d ds, f)

  unfoldable mutual
    pub walk : KeyFilter → Doc V → Doc V × KeyFilter
    walk f (object o) = as_object (narrow f o)
    walk f (array ds) = as_array (walk_all f ds)
    walk f (other v) = (other v, f)

    pub walk_all : KeyFilter → Docs V → Docs V × KeyFilter
    walk_all f nil = (nil, f)
    walk_all f (cons d ds) = let r = walk f d in put_first r.0 (walk_all r.1 ds)

  unfoldable pub apply : KeyFilter → Doc V → Doc V × Option UnknownKeyError
  unfolding walk unseen
  apply f d = let r = walk f d in (r.0, unseen r.1)
