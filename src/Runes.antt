-- ===== src/Runes.antt =====
-- Texts as runes, which is how the tables of pkg/engine/table.go walk a line: the white space of the
-- standard library's unicode package, and what trimming leaves.
use jsonize.Prelude.{
  ℕ, ◌≡◌, refl, ◌∙◌, Bool, true, false, ◌&&◌, ◌||◌, List, [], ◌∷◌, ◌++◌, ◌==◌, within,
  if◌then◌else◌, arith,
}

-- `unicode.IsSpace`
unfoldable pub is_space : ℕ → Bool
is_space r =
    within 9 13 r
    || r == 32
    || r == 0x85
    || r == 0xa0
    || r == 0x1680
    || within 0x2000 0x200a r
    || r == 0x2028
    || r == 0x2029
    || r == 0x202f
    || r == 0x205f
    || r == 0x3000

unfoldable pub trim_left : List ℕ → List ℕ
trim_left [] = []
trim_left (r ∷ rs) = if is_space r then trim_left rs else r ∷ rs

abbrev pub is_nil : List ℕ → Bool
is_nil [] = true
is_nil (_ ∷ _) = false

unfoldable pub trim_right : List ℕ → List ℕ
trim_right [] = []
trim_right (r ∷ rs) = let rest = trim_right rs in if is_space r && is_nil rest then [] else r ∷ rest

-- `strings.TrimSpace`
unfoldable pub trim_space : List ℕ → List ℕ
unfolding trim_left trim_right
trim_space s = trim_right (trim_left s)

-- What can be seen of a text: its runes but the white space.
unfoldable pub visible : List ℕ → List ℕ
visible [] = []
visible (r ∷ rs) = if is_space r then visible rs else r ∷ visible rs

pub visible-append : (xs ys : List ℕ) → visible (xs ++ ys) ≡ visible xs ++ visible ys
unfolding visible
visible-append [] ys = refl
visible-append (r ∷ rs) ys = ground (arith, visible-append rs ys)

pub visible-trim_left : (s : List ℕ) → visible (trim_left s) ≡ visible s
unfolding visible trim_left
visible-trim_left [] = refl
visible-trim_left (r ∷ rs) = ground (arith, visible-trim_left rs)

visible-trim_right : (s : List ℕ) → visible (trim_right s) ≡ visible s
unfolding visible trim_right
visible-trim_right [] = refl
visible-trim_right (r ∷ rs) = ground (arith, visible-trim_right rs)

-- Trimming takes off white space alone.
pub visible-trim_space : (s : List ℕ) → visible (trim_space s) ≡ visible s
unfolding trim_space
visible-trim_space s = visible-trim_right (trim_left s) ∙ visible-trim_left s
