-- ===== src/Selector/Watch.antt =====
-- pkg/selector/watch.go: following a selection while the leading lines arrive. `judge` says what an
-- expression's answer on them is worth, `decide` what a definition's is, and `settled_between` whether
-- the choice stands.
use jsonize.Prelude.{
  ℕ, Bool, true, false, not, ◌&&◌, ◌||◌, List, [], ◌∷◌, ◌++◌, Option, none, some, Text, leb, ◌==◌,
  length, if◌then◌else◌,
}
use jsonize.Selector.{
  is_none, Expression, Signature, Entry, Registry, unsigned, explicit_only, shape_only, variants,
  lookup_entry, is_nil,
}
use jsonize.Selector.Settle.{settle}
use jsonize.Selector.Window.{join_lines}
use jsonize.Selector.Check.{
  Context, ok, match_signature, signature_lines, wrong_os, wrong_args, wrong_nul,
}

pub data Decision : Type 0 where
  undecided decided_fits decided_out : Decision

unfoldable pub judge : Expression → Text → Decision
judge re text =
    if re.matches text then (if re.ends_text then undecided else decided_fits) else elim re.viable [
      | none ↦ undecided
      | some open_for ↦ if open_for (text ++ b'\n' ∷ []) then undecided else decided_out
    ]

-- the loop over signature.all, with the result so far
unfoldable pub judge_all : List Expression → Text → Decision → Decision
unfolding judge
judge_all [] text result = result
judge_all (re ∷ res) text result = elim (judge re text) [
  | decided_out ↦ decided_out
  | undecided ↦ judge_all res text undecided
  | decided_fits ↦ judge_all res text result
]

pub record Hits : Type 0 where
  pub hit : Bool
  pub still_open : Bool

-- the loop over signature.any
unfoldable pub judge_any : List Expression → Text → Hits
unfolding judge
judge_any [] text = record { hit = false; still_open = false }
judge_any (re ∷ res) text =
    let rest = judge_any res text in
    elim (judge re text) [
      | decided_fits ↦ record rest { hit = true }
      | undecided ↦ record rest { still_open = true }
      | decided_out ↦ rest
    ]

-- the loop over signature.none
unfoldable pub judge_none : List Expression → Text → Decision → Decision
unfolding judge
judge_none [] text result = result
judge_none (re ∷ res) text result = elim (judge re text) [
  | decided_fits ↦ decided_out
  | undecided ↦ judge_none res text undecided
  | decided_out ↦ judge_none res text result
]

unfoldable pub judge_rest : Signature → Text → Decision → Decision
unfolding judge_any judge_none
judge_rest s text result =
    if is_nil s.any
    then judge_none s.no text result
    else if (judge_any s.any text).hit
    then judge_none s.no text result
    else if (judge_any s.any text).still_open
    then judge_none s.no text undecided
    else decided_out

unfoldable pub judge_signature : Signature → Text → Decision
unfolding judge_all judge_rest
judge_signature s text = elim (judge_all s.all text decided_fits) [
  | decided_out ↦ decided_out
  | undecided ↦ judge_rest s text undecided
  | decided_fits ↦ judge_rest s text decided_fits
]

unfoldable pub decide_lines : Signature → List Text → Decision
decide_lines s lines =
    if leb (signature_lines s) (length lines)
    then (if ok (match_signature s lines false) then decided_fits else decided_out)
    else if is_nil lines
    then undecided
    else judge_signature s (join_lines lines)

unfoldable pub decide : Context → List Text → Entry → Decision
decide ctx lines e =
    if wrong_nul ctx e || wrong_os ctx e then decided_out else elim (wrong_args ctx e) [
      | some _ ↦ decided_out
      | none ↦
          if unsigned e.def.detect.signature
          then decided_fits
          else decide_lines e.def.detect.signature lines
    ]

-- `slices.Contains(fits, best)`, of pointers
unfoldable pub holds_handle : ℕ → List Entry → Bool
holds_handle h [] = false
holds_handle h (e ∷ es) = e.handle == h || holds_handle h es

unfoldable pub settled_between : List Entry → List Entry → Bool
unfolding holds_handle
settled_between fits open_entries =
    if is_nil open_entries
    then true
    else if is_nil fits
    then false
    else elim (settle (fits ++ open_entries)).best [
      | none ↦ false
      | some best ↦ holds_handle best.handle fits
    ]

unfoldable pub any_claims : List Entry → Bool
unfolding unsigned
any_claims [] = false
any_claims (e ∷ es) = not (unsigned e.def.detect.signature) || any_claims es

unfoldable pub without_shapes : List Entry → List Entry
unfolding shape_only
without_shapes [] = []
without_shapes (e ∷ es) =
    let rest = without_shapes es in if shape_only e.def then rest else e ∷ rest

unfoldable pub without_explicit : List Entry → List Entry
unfolding explicit_only
without_explicit [] = []
without_explicit (e ∷ es) =
    let rest = without_explicit es in if explicit_only e.def then rest else e ∷ rest

unfoldable pub watched_variants : Context → List Entry → Option (List Entry)
unfolding any_claims without_shapes
watched_variants ctx found =
    if is_nil found
    then none
    else some (if is_none ctx.args && any_claims found then without_shapes found else found)

-- The definitions `Select` checks the text against; `none` where the selection fails before.
unfoldable pub watched : Registry → Context → Option (List Entry)
unfolding lookup_entry variants watched_variants without_explicit
watched reg ctx =
    if not (is_nil ctx.variant)
    then (if is_nil ctx.parser then none else elim (lookup_entry reg ctx.parser ctx.variant) [
      | none ↦ none
      | some e ↦ some (e ∷ [])
    ])
    else if not (is_nil ctx.parser)
    then watched_variants ctx (variants reg ctx.parser)
    else some (without_explicit reg.all)

-- What a watch keeps between its calls.
pub record Watching : Type 0 where
  pub fits : List Entry
  pub still_open : List Entry

-- the loop of one call over the definitions still open
unfoldable pub sift : Context → List Text → List Entry → Watching → Watching
unfolding decide
sift ctx lines [] w = w
sift ctx lines (e ∷ es) w = elim (decide ctx lines e) [
  | decided_fits ↦ sift ctx lines es (record w { fits = w.fits ++ e ∷ [] })
  | undecided ↦ sift ctx lines es (record w { still_open = w.still_open ++ e ∷ [] })
  | decided_out ↦ sift ctx lines es w
]

-- One call of the function that `Watch` returns, on the lines read so far.
unfoldable pub look : Context → List Text → Watching → Watching × Bool
unfolding sift settled_between
look ctx lines w =
    let next = sift ctx lines w.still_open (record { fits = w.fits; still_open = [] }) in
    (next, settled_between next.fits next.still_open)
