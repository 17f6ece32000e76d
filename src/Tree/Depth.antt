-- ===== src/Tree/Depth.antt =====
-- pkg/engine/tree.go, `treeDepth` and `openingUnit`.
use jsonize.Prelude.{
  ◌<◌, ◌⊎◌, ℕ, zero, suc, ◌+◌, ◌≤◌, ◌≡◌, refl, ap, ◌∙◌, Bool, true, false, not, ◌&&◌, ◌||◌, List,
  [], ◌∷◌, ◌++◌, Option, none, some, Text, length, arith, ◌==◌, ltb, if◌then◌else◌, Bool-cases,
  Option-cases, inl, inr, drop,
}

-- `MaxTreeDepth` of pkg/definition/definition.go
abbrev pub max_tree_depth : ℕ
max_tree_depth = 32

-- `strings.HasPrefix(text, unit)`
unfoldable pub has_prefix : Text → Text → Bool
has_prefix text [] = true
has_prefix [] (u ∷ us) = false
has_prefix (c ∷ cs) (u ∷ us) = c == u && has_prefix cs us

abbrev is_nil : Text → Bool
is_nil [] = true
is_nil (_ ∷ _) = false

unfoldable pub opening_unit : List Text → Text → Option Text
opening_unit [] text = none
opening_unit (u ∷ us) text =
    if not (is_nil u) && has_prefix text u then some u else opening_unit us text

abbrev is_indent : ℕ → Bool
is_indent c = c == b' ' || c == b'\t'

-- `unit[len(unit)-1]` is neither a space nor a tab
unfoldable pub is_branch : Text → Bool
is_branch [] = false
is_branch (c ∷ []) = not (is_indent c)
is_branch (c ∷ d ∷ cs) = is_branch (d ∷ cs)

abbrev starts_indented : Text → Bool
starts_indented [] = false
starts_indented (c ∷ _) = is_indent c

pub data Depth : Type 0 where
  -- the level of the line and the rest of it
  at : ℕ → Text → Depth
  too_deep : Depth
  ragged : Depth

-- The loop, on the text from here on and the depth so far. A round goes one level deeper, so the fuel is
-- the levels that are left and one for the refusal.
unfoldable pub depth_from : ℕ → List Text → ℕ → Text → Depth
depth_from zero indent depth text = too_deep
depth_from (suc fuel) indent depth text = elim (opening_unit indent text) [
  | none ↦ if starts_indented text then ragged else at depth text
  | some u ↦ if ltb max_tree_depth (suc depth) then too_deep else elim (is_branch u) [
    | true ↦ at (suc depth) (drop (length u) text)
    | false ↦ depth_from fuel indent (suc depth) (drop (length u) text)
  ]
]

unfoldable pub tree_depth : List Text → Text → Depth
unfolding depth_from opening_unit has_prefix is_branch
tree_depth indent text = depth_from (suc max_tree_depth) indent 0 text

abbrev pub Among : Text → List Text → Type 0
Among u [] = ⊥
Among u (x ∷ xs) = (x ≡ u) ⊎ Among u xs

abbrev pub AllAmong : List Text → List Text → Type 0
AllAmong indent [] = Unit
AllAmong indent (u ∷ us) = Among u indent × AllAmong indent us

abbrev pub spelled : List Text → Text → Text
spelled [] rest = rest
spelled (u ∷ us) rest = u ++ spelled us rest

has_prefix-drop : (text u : Text) → has_prefix text u ≡ true → text ≡ u ++ drop (length u) text
unfolding has_prefix
has_prefix-drop text [] h = refl
has_prefix-drop [] (u ∷ us) h = cc
has_prefix-drop (c ∷ cs) (u ∷ us) h = ground (arith, has_prefix-drop cs us)

opening_unit-prefix :
    (indent : List Text) (text u : Text)
    → opening_unit indent text ≡ some u
    → Among u indent × (text ≡ u ++ drop (length u) text)
unfolding opening_unit
opening_unit-prefix [] text u h = cc
opening_unit-prefix (x ∷ xs) text u h = elim (Bool-cases (not (is_nil x) && has_prefix text x)) [
  | inl e ↦ (inl (ground arith), ground (arith, has_prefix-drop text x))
  | inr e ↦ let (m, p) = opening_unit-prefix xs text u (ground arith) in (inr m, p)
]

-- What a depth that was found says of the line: the units of its levels, each one that the definition
-- states, and the rest.
abbrev pub IsSplit : List Text → ℕ → Text → ℕ → Text → Type 0
IsSplit indent from text d rest =
    (us : List Text) × (text ≡ spelled us rest)
    × (d ≡ from + length us)
    × AllAmong indent us
    × (d ≤ max_tree_depth)

depth_from-IsSplit :
    (fuel : ℕ) (indent : List Text) (depth : ℕ) (text : Text) (d : ℕ) (rest : Text)
    → depth ≤ max_tree_depth
    → depth_from fuel indent depth text ≡ at d rest
    → IsSplit indent depth text d rest
unfolding depth_from
depth_from-IsSplit zero indent depth text d rest le h = cc
depth_from-IsSplit (suc fuel) indent depth text d rest le h =
    elim (Option-cases (opening_unit indent text)) [
      | inl e ↦ ([], ground arith, ground arith, tt, ground arith)
      | inr (u, e) ↦
          let (among, split) = opening_unit-prefix indent text u e in
          elim (Bool-cases (ltb max_tree_depth (suc depth))) [
            | inl f ↦ ground arith
            | inr f ↦ elim (Bool-cases (is_branch u)) [
              | inl g ↦ (u ∷ [], ground arith, ground arith, (among, tt), ground arith)
              | inr g ↦
                  let (us, s, n, al, b) =
                    depth_from-IsSplit fuel indent (suc depth) (drop (length u) text) d rest
                      (ground arith) (ground arith) in
                  (u ∷ us, split ∙ ap (λ t. u ++ t) s, omega arith, (among, al), b)
            ]
          ]
    ]

-- A line found at a depth begins with as many units as that depth says, each one that the definition
-- states, and what is left of it is the rest: no byte of the line is lost. No depth is over the limit.
pub tree_depth-IsSplit :
    (indent : List Text) (text : Text) (d : ℕ) (rest : Text)
    → tree_depth indent text ≡ at d rest
    → IsSplit indent 0 text d rest
unfolding tree_depth
tree_depth-IsSplit indent text d rest =
    depth_from-IsSplit (suc max_tree_depth) indent 0 text d rest (omega arith)

depth_from-cong :
    (f g : ℕ) (indent : List Text) (depth : ℕ) (text : Text)
    → ((t : Text) → depth_from f indent (suc depth) t ≡ depth_from g indent (suc depth) t)
    → depth_from (suc f) indent depth text ≡ depth_from (suc g) indent depth text
unfolding depth_from
depth_from-cong f g indent depth text h = elim (Option-cases (opening_unit indent text)) [
  | inl e ↦ ground arith
  | inr (u, e) ↦ ground (arith, h (drop (length u) text))
]

depth_from-at_limit :
    (f : ℕ) (indent : List Text) (depth : ℕ) (text : Text)
    → depth ≡ max_tree_depth
    → depth_from (suc f) indent depth text ≡ depth_from 1 indent depth text
unfolding depth_from
depth_from-at_limit f indent depth text h = elim (Option-cases (opening_unit indent text)) [
  | inl e ↦ ground arith
  | inr (u, e) ↦ ground arith
]

depth_from-fuel :
    (k m : ℕ) (indent : List Text) (depth : ℕ) (text : Text)
    → depth + k ≡ max_tree_depth
    → k ≤ m
    → depth_from (suc m) indent depth text ≡ depth_from (suc k) indent depth text
depth_from-fuel zero m indent depth text h le =
    depth_from-at_limit m indent depth text (omega arith)
depth_from-fuel (suc k) zero indent depth text h le = absurd (omega arith)
depth_from-fuel (suc k) (suc m) indent depth text h le =
    depth_from-cong (suc m) (suc k) indent depth text
      λ t. depth_from-fuel k m indent (suc depth) t (omega arith) (omega arith)

-- More fuel than the model gives changes nothing: the limit on the depth ends the loop first.
tree_depth_fuel :
    (fuel : ℕ) (indent : List Text) (text : Text)
    → max_tree_depth < fuel
    → depth_from fuel indent 0 text ≡ tree_depth indent text
unfolding tree_depth
tree_depth_fuel zero indent text h = absurd (omega arith)
tree_depth_fuel (suc m) indent text h =
    depth_from-fuel max_tree_depth m indent 0 text refl (omega arith)
