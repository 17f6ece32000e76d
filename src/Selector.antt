-- ===== src/Selector.antt =====
-- pkg/selector/selector.go and the parts of pkg/definition/definition.go and pkg/registry/registry.go
-- that it reads: what a definition says of the texts it describes, and what is known of an input. A
-- compiled expression is its test on texts, with what the selector works out of its syntax; a priority
-- is counted from the least machine integer, since only its order bears on a choice.
pub mod Settle
pub mod Tie
pub mod Best
pub mod Args
pub mod Window
pub mod Check
pub mod Watch
pub mod Judged
pub mod Growth
pub mod Final
pub mod Standing
pub mod Scan
pub mod Search
pub mod Reach
pub mod Enough
pub mod Distance
pub mod Edits
use jsonize.Prelude.{
  ℕ, Bool, true, false, not, ◌&&◌, ◌||◌, List, [], ◌∷◌, ◌++◌, Option, none, some, Text, codes, same,
  lookup, if◌then◌else◌,
}

-- `*regexp.Regexp` with its `shape`: whether it looks at the end of the text, and, for an expression
-- anchored to the start of the text, whether a text that begins so could still match (`viable`).
pub record Expression : Type 0 where
  pub matches : Text → Bool
  pub ends_text : Bool
  pub viable : Option (Text → Bool)

pub record Signature : Type 0 where
  pub all : List Expression
  pub any : List Expression
  pub no : List Expression
  pub window : ℕ

pub record ArgsMatch : Type 0 where
  pub any : List Text
  pub all : List Text
  pub no : List Text

pub record Alias : Type 0 where
  pub name : Text
  pub args : Option ArgsMatch

pub record Detect : Type 0 where
  pub auto_detect : Option Bool
  pub os : List Text
  pub args : ArgsMatch
  pub signature : Signature
  pub priority : ℕ

pub record Definition : Type 0 where
  pub command : Text
  pub variant : Text
  pub aliases : List Alias
  pub detect : Detect
  -- `Input.Separator() == 0`
  pub nul_separated : Bool

-- An entry is reached by its address, `handle`.
pub record Entry : Type 0 where
  pub handle : ℕ
  pub def : Definition
  pub source : Text
  pub precedence : ℕ

abbrev pub is_nil {ℓ} : {A : Type ℓ} → List A → Bool
is_nil [] = true
is_nil (_ ∷ _) = false

abbrev pub is_none {ℓ} : {A : Type ℓ} → Option A → Bool
is_none none = true
is_none (some _) = false

-- `Signature.IsZero`
unfoldable pub unsigned : Signature → Bool
unsigned s = is_nil s.all && is_nil s.any && is_nil s.no

-- `ArgsMatch.IsZero`
unfoldable pub takes_any_args : ArgsMatch → Bool
takes_any_args a = is_nil a.any && is_nil a.all && is_nil a.no

unfoldable pub auto_detectable : Detect → Bool
auto_detectable d = elim d.auto_detect [ none ↦ true | some b ↦ b ]

-- the loop of `ArgsFor`
unfoldable pub alias_args : Text → List Alias → ArgsMatch → ArgsMatch
alias_args name [] args = args
alias_args name (a ∷ rest) args =
    if same a.name name
    then elim a.args [ some own ↦ own | none ↦ args ]
    else alias_args name rest args

unfoldable pub args_for : Definition → Text → ArgsMatch
unfolding alias_args
args_for d name =
    if is_nil name || same name d.command
    then d.detect.args
    else alias_args name d.aliases d.detect.args

unfoldable pub explicit_only : Definition → Bool
unfolding auto_detectable unsigned
explicit_only d = not (auto_detectable d.detect) || unsigned d.detect.signature

unfoldable pub shape_only : Definition → Bool
unfolding auto_detectable unsigned
shape_only d = not (auto_detectable d.detect) && unsigned d.detect.signature

-- The texts of `Rejection.Reason`, with what they quote; an expression is its place in its list.
pub data Reason : Type 0 where
  nul_reason first_expression_failed no_any_matched no_text : Reason
  all_did_not_match none_matched : ℕ → Reason
  written_for : List Text → Text → Reason
  needs_one_of : List Text → Reason
  needs_argument excluded_by needs_parser has_no_signature : Text → Reason
  fits_after : Text → Text → Reason
  fits_with : ℕ → ℕ → Reason

pub record Rejection : Type 0 where
  pub entry : Entry
  pub reason : Reason
  pub close : Bool
  pub explicit : Bool

-- What `Load` leaves: every entry in the order of their ids, and those a name answers to.
pub record Registry : Type 0 where
  pub all : List Entry
  pub by_command : List (Text × List Entry)
  pub names : List Text

unfoldable pub variants : Registry → Text → List Entry
variants reg command = elim (lookup command reg.by_command) [ none ↦ [] | some es ↦ es ]

-- `r.entries[command+"/"+variant]`
unfoldable pub entry_of : Text → List Entry → Option Entry
entry_of id [] = none
entry_of id (e ∷ es) =
    if same (e.def.command ++ b'/' ∷ e.def.variant) id then some e else entry_of id es

unfoldable pub variant_of : Text → List Entry → Option Entry
variant_of variant [] = none
variant_of variant (e ∷ es) = if same e.def.variant variant then some e else variant_of variant es

-- `Lookup`
unfoldable pub lookup_entry : Registry → Text → Text → Option Entry
unfolding entry_of variant_of variants
lookup_entry reg command variant = elim (entry_of (command ++ b'/' ∷ variant) reg.all) [
  | some e ↦ some e
  | none ↦ variant_of variant (variants reg command)
]
