-- ===== src/Engine/Select.antt =====
-- pkg/engine/engine.go, `applySelect`: the part of the lines that a definition reads. The expressions
-- are tests on texts; `heading` and `end` say whether one describes the whole of a line.
pub mod Counts
pub mod Exact
use jsonize.Prelude.{
  ℕ, ◌≡◌, refl, Bool, true, ◌&&◌, List, [], ◌∷◌, ◌++◌, Option, none, some, Text, arith, length,
  if◌then◌else◌, ltb, leb, take, drop, take-append-drop, append-nil, append_assoc, sym, ap, ◌∙◌,
  Option-cases, inl, inr, Bool-cases,
}
use jsonize.Engine.Line.{Line}

pub record Select : Type 0 where
  pub after : Option (Text → Bool)
  pub until : Option (Text → Bool)
  pub skip : ℕ
  pub limit : ℕ
  pub heading : Text → Bool
  pub end : Text → Bool

pub record Region : Type 0 where
  pub region : List Line
  pub heading : Option Line
  pub end : Option Line

-- the loop for `after`: the line that matches, and those behind it
unfoldable pub find_after : (Text → Bool) → List Line → Option (Line × List Line)
find_after re [] = none
find_after re (l ∷ ls) = if re l.text then some (l, ls) else find_after re ls

-- the loop for `until`: the lines before the one that matches, and that line
unfoldable pub before_until : (Text → Bool) → List Line → List Line
before_until re [] = []
before_until re (l ∷ ls) = if re l.text then [] else l ∷ before_until re ls

unfoldable pub find_until : (Text → Bool) → List Line → Option Line
find_until re [] = none
find_until re (l ∷ ls) = if re l.text then some l else find_until re ls

-- `select.skip`, then `select.limit`
unfoldable pub skip_limit : ℕ → ℕ → List Line → List Line
skip_limit skip limit lines =
    if ltb 0 skip && leb (length lines) skip
    then []
    else (let rest = drop skip lines in
        if ltb 0 limit && ltb limit (length rest) then take limit rest else rest)

unfoldable pub select_until : Select → List Line → Option Line → Region
unfolding skip_limit
select_until sel lines heading = elim sel.until [
  | none ↦ record { region = skip_limit sel.skip sel.limit lines; heading = heading; end = none }
  | some re ↦ record {
    region = skip_limit sel.skip sel.limit (before_until re lines);
    heading = heading;
    end = find_until re lines;
  }
]

unfoldable pub apply_select : Select → List Line → Region
apply_select sel lines = elim sel.after [
  | none ↦ select_until sel lines none
  | some re ↦ elim (find_after re lines) [
    | none ↦ record { region = []; heading = none; end = none }
    | some (l, ls) ↦ select_until sel ls (some l)
  ]
]
