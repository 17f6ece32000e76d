-- ===== src/Engine/Fold.antt =====
-- pkg/engine/engine.go, `foldLines`: a line the fold expression matches is joined onto the one above it.
-- The expression is a test on texts (the regexp package decides it).
use jsonize.Prelude.{
  ℕ, ◌+◌, ◌≡◌, Bool, true, false, List, [], ◌∷◌, ◌++◌, Option, none, some, Text, arith, length,
  length-append, if◌then◌else◌,
}
use jsonize.Space.{blank, trim_space}
use jsonize.Engine.Line.{Line, nothing_to_join}
use jsonize.Engine.Split.{Split, ok, err}

-- `strings.Join(pieces, sep)`
unfoldable pub join : ℕ → List Text → Text
join sep [] = []
join sep (p ∷ []) = p
join sep (p ∷ q ∷ ps) = p ++ (sep ∷ join sep (q ∷ ps))

-- The last line of `out` is kept apart while pieces are joined onto it.
unfoldable pub flush : List Line → Option (Line × List Text) → List Line
unfolding join
flush out none = out
flush out (some (l, pieces)) = out ++ record l { text = join b' ' pieces } ∷ []

unfoldable pub fold_from :
    (Text → Bool) → List Line → List Line → Option (Line × List Text) → Split (List Line)
fold_from matches [] out last = ok (flush out last)
fold_from matches (l ∷ ls) out last = elim (matches l.text) [
  | false ↦ fold_from matches ls (flush out last) (some (l, l.text ∷ []))
  | true ↦ elim last [
    | none ↦ err (nothing_to_join l.num)
    | some (o, pieces) ↦ elim (blank o.text) [
      | true ↦ err (nothing_to_join l.num)
      | false ↦ fold_from matches ls out (some (o, pieces ++ trim_space l.text ∷ []))
    ]
  ]
]

unfoldable pub fold_lines : Option (Text → Bool) → List Line → Split (List Line)
fold_lines none lines = ok lines
fold_lines (some matches) lines = fold_from matches lines [] none

-- How many lines are continuations.
abbrev pub continuations : Option (Text → Bool) → List Line → ℕ
continuations none lines = 0
continuations (some matches) [] = 0
continuations (some matches) (l ∷ ls) =
    (if matches l.text then 1 else 0) + continuations (some matches) ls

abbrev pending : Option (Line × List Text) → ℕ
pending none = 0
pending (some _) = 1

length-flush :
    (out : List Line) (last : Option (Line × List Text))
    → length (flush out last) ≡ length out + pending last
unfolding flush
length-flush out none = omega arith
length-flush out (some (l, ps)) =
    omega (arith, length-append out (record l { text = join b' ' ps } ∷ []))

fold_from-length :
    (matches : Text → Bool) (ls out : List Line) (last : Option (Line × List Text))
    (res : List Line)
    → fold_from matches ls out last ≡ ok res
    → length res + continuations (some matches) ls ≡ length out + pending last + length ls
unfolding fold_from
fold_from-length matches [] out last res h = ground (arith, length-flush out last)
fold_from-length matches (l ∷ ls) out none res h = ground (
  arith,
  length-flush out none,
  fold_from-length matches ls (flush out none) (some (l, l.text ∷ [])) res,
)
fold_from-length matches (l ∷ ls) out (some (o, ps)) res h = ground (
  arith,
  length-flush out (some (o, ps)),
  fold_from-length matches ls (flush out (some (o, ps))) (some (l, l.text ∷ [])) res,
  fold_from-length matches ls out (some (o, ps ++ trim_space l.text ∷ [])) res,
)

-- Folding that succeeds gives as many lines as there are lines that are no continuation.
pub fold_lines-length :
    (matches : Option (Text → Bool)) (lines res : List Line)
    → fold_lines matches lines ≡ ok res
    → length res + continuations matches lines ≡ length lines
unfolding fold_lines
fold_lines-length none lines res h = ground arith
fold_lines-length (some matches) lines res h =
    ground (arith, fold_from-length matches lines [] none res)
