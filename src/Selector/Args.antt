-- ===== src/Selector/Args.antt =====
-- pkg/selector/selector.go, `matchArgs`: the arguments a command was run with against those a definition
-- asks for. A Go map that only says which keys it holds is a list.
use jsonize.Prelude.{
  ℕ, zero, suc, ◌+◌, ◌/◌, ◌%◌, Bool, true, false, not, ◌&&◌, ◌||◌, List, [], ◌∷◌, ◌++◌, Option,
  none, some, Text, codes, same, contains, ltb, ◌==◌, if◌then◌else◌,
}
use jsonize.Utf8.{runes}
use jsonize.Selector.{ArgsMatch, Reason, needs_one_of, needs_argument, excluded_by, is_nil}

-- `string(r)` of a rune
unfoldable pub encode_rune : ℕ → Text
encode_rune r =
    if ltb r 0x80
    then r ∷ []
    else if ltb r 0x800
    then (0xc0 + r / 64) ∷ (0x80 + r % 64) ∷ []
    else if ltb r 0x10000
    then (0xe0 + r / 4096) ∷ (0x80 + r / 64 % 64) ∷ (0x80 + r % 64) ∷ []
    else (0xf0 + r / 262144) ∷ (0x80 + r / 4096 % 64) ∷ (0x80 + r / 64 % 64) ∷ (0x80 + r % 64) ∷ []

-- `count[r]++`
unfoldable pub count_rune : ℕ → List (ℕ × ℕ) → List (ℕ × ℕ)
count_rune r [] = (r, 1) ∷ []
count_rune r ((q, n) ∷ rest) = if q == r then (q, suc n) ∷ rest else (q, n) ∷ count_rune r rest

pub record Arguments : Type 0 where
  pub set : List Text
  pub count : List (ℕ × ℕ)

-- `arg[:i]` of the first `=`
unfoldable pub before_equals : Text → Option Text
before_equals [] = none
before_equals (c ∷ cs) =
    let rest = before_equals cs in
    if c == b'=' then some [] else elim rest [ none ↦ none | some t ↦ some (c ∷ t) ]

abbrev pub longer_than_one : Text → Bool
longer_than_one [] = false
longer_than_one (_ ∷ []) = false
longer_than_one (_ ∷ _ ∷ _) = true

abbrev pub has_dash : Text → Bool
has_dash [] = false
has_dash (c ∷ _) = c == b'-'

-- an option with a value holds the option with its "="
unfoldable pub add_option : Text → List Text → List Text
unfolding before_equals same
add_option arg set =
    if has_dash arg
    then elim (before_equals arg) [
      | none ↦ set
      | some name ↦
          if longer_than_one name && not (same name (codes "--"))
          then (name ++ b'=' ∷ []) ∷ set
          else set
    ]
    else set

-- the loop over the letters of a bundle
unfoldable pub add_letters : List ℕ → Arguments → Arguments
unfolding encode_rune count_rune
add_letters [] a = a
add_letters (r ∷ rs) a =
    add_letters rs (record { set = (b'-' ∷ encode_rune r) ∷ a.set; count = count_rune r a.count })

unfoldable pub add_bundle : Text → Arguments → Arguments
unfolding add_letters runes
add_bundle (c ∷ d ∷ cs) a =
    if c == b'-' && not (d == b'-') then add_letters (runes (d ∷ cs)) a else a
add_bundle _ a = a

-- the loop over the arguments
unfoldable pub read_args : List Text → Arguments → Arguments
unfolding add_option add_bundle same
read_args [] a = a
read_args (arg ∷ args) a =
    let rest =
      read_args args
        (add_bundle arg (record { set = add_option arg (arg ∷ a.set); count = a.count })) in
    if same arg (codes "--") then a else rest

unfoldable pub repeat : ℕ → Text → Text
repeat zero t = []
repeat (suc n) t = t ++ repeat n t

-- `set["-"+strings.Repeat(string(r), k)]` for k from 2 to n
unfoldable pub bundles : ℕ → ℕ → List Text → List Text
unfolding repeat encode_rune
bundles r zero set = set
bundles r (suc zero) set = set
bundles r (suc (suc n)) set =
    bundles r (suc n) ((b'-' ∷ repeat (suc (suc n)) (encode_rune r)) ∷ set)

unfoldable pub add_counts : List (ℕ × ℕ) → List Text → List Text
unfolding bundles
add_counts [] set = set
add_counts ((r, n) ∷ rest) set = add_counts rest (bundles r n set)

unfoldable pub argument_set : List Text → List Text
unfolding read_args add_counts
argument_set args =
    let a = read_args args (record { set = []; count = [] }) in add_counts a.count a.set

unfoldable pub holds_any : List Text → List Text → Bool
unfolding contains
holds_any [] set = false
holds_any (want ∷ rest) set = contains want set || holds_any rest set

unfoldable pub first_missing : List Text → List Text → Option Text
unfolding contains
first_missing [] set = none
first_missing (want ∷ rest) set =
    let later = first_missing rest set in if contains want set then later else some want

unfoldable pub first_held : List Text → List Text → Option Text
unfolding contains
first_held [] set = none
first_held (bad ∷ rest) set =
    let later = first_held rest set in if contains bad set then some bad else later

-- The reason, where the arguments are refused, and the argument listed under none that refused them.
unfoldable pub match_set : ArgsMatch → List Text → Option (Reason × Text)
unfolding holds_any first_missing first_held
match_set a set =
    if not (is_nil a.any) && not (holds_any a.any set)
    then some (needs_one_of a.any, [])
    else elim (first_missing a.all set) [
      | some want ↦ some (needs_argument want, [])
      | none ↦ elim (first_held a.no set) [ some bad ↦ some (excluded_by bad, bad) | none ↦ none ]
    ]

unfoldable pub match_args : ArgsMatch → List Text → Option (Reason × Text)
unfolding match_set argument_set
match_args a args = match_set a (argument_set args)
