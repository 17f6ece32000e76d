-- ===== src/Stream/Left.antt =====
-- `applySelect` and `feedSelected` of pkg/engine: the lines that a selection leaves out, and how many it
-- still skips and takes.
use jsonize.Prelude.{
  length, ℕ, zero, suc, ◌≤◌, ◌≡◌, refl, ap, Bool, true, ◌&&◌, List, [], ◌∷◌, ◌++◌, Option, none,
  some, Text, arith, if◌then◌else◌, take, drop, ltb,
}
use jsonize.Space.{blank}
use jsonize.Engine.Line.{Line}
use jsonize.Engine.Select.{Select, find_after, before_until, skip_limit}

unfoldable pub blank_lines : List Line → Bool
blank_lines [] = true
blank_lines (l ∷ ls) = blank l.text && blank_lines ls

-- a line that an expression matches, unless the expression describes all of it
abbrev pub unless : (Text → Bool) → Line → List Line
unless whole l = if whole l.text then [] else l ∷ []

-- the lines in front of the closing one, and what is left unread from that one on
abbrev pub body_of : Select → List Line → List Line
body_of sel ls = elim sel.until [ none ↦ ls | some re ↦ before_until re ls ]

abbrev pub behind_body : Select → List Line → List Line
behind_body sel ls = elim sel.until [
  | none ↦ []
  | some re ↦ elim (find_after re ls) [ none ↦ [] | some (l, rest) ↦ unless sel.end l ++ rest ]
]

abbrev pub over : ℕ → ℕ → List Line → List Line
over limit k ls = if ltb 0 limit then drop k ls else []

abbrev pub limited : ℕ → ℕ → List Line → List Line
limited limit k ls = if ltb 0 limit then take k ls else ls

-- The lines that a selection leaves out, from the line behind its heading on.
unfoldable pub left_until : Select → List Line → List Line
unfolding before_until find_after
left_until sel ls =
    take sel.skip (body_of sel ls)
    ++ (over sel.limit sel.limit (drop sel.skip (body_of sel ls)) ++ behind_body sel ls)

-- The lines that a selection leaves out and that no expression of it describes in full.
unfoldable pub left_lines : Select → List Line → List Line
unfolding left_until find_after before_until
left_lines sel ls = elim sel.after [
  | none ↦ left_until sel ls
  | some re ↦ before_until re ls ++ (elim (find_after re ls) [
    | none ↦ []
    | some (l, rest) ↦ unless sel.heading l ++ left_until sel rest
  ])
]

abbrev pub gate {ℓ} : {X : Type ℓ} → List Line → Option X → Option X
gate ls o = if blank_lines ls then o else none

pub take-nil : (n : ℕ) → ◌≡◌ {A = List Line} (take n []) []
take-nil zero = refl
take-nil (suc n) = refl

pub drop-nil : (n : ℕ) → ◌≡◌ {A = List Line} (drop n []) []
drop-nil zero = refl
drop-nil (suc n) = refl

pub drop-all : (n : ℕ) (ls : List Line) → length ls ≤ n → drop n ls ≡ []
drop-all zero [] h = refl
drop-all zero (l ∷ ls) h = absurd (omega arith)
drop-all (suc n) [] h = refl
drop-all (suc n) (l ∷ ls) h = drop-all n ls (omega arith)

pub take-all : (n : ℕ) (ls : List Line) → length ls ≤ n → take n ls ≡ ls
take-all zero [] h = refl
take-all zero (l ∷ ls) h = absurd (omega arith)
take-all (suc n) [] h = refl
take-all (suc n) (l ∷ ls) h = ap (λ t. l ∷ t) (take-all n ls (omega arith))

pub skip_limit-limited :
    (skip limit : ℕ) (ls : List Line)
    → skip_limit skip limit ls ≡ limited limit limit (drop skip ls)
unfolding skip_limit
skip_limit-limited skip limit ls =
    ground (arith, drop-all skip ls, take-all limit (drop skip ls), take-nil limit)
