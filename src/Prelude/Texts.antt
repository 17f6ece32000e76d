-- ===== src/Prelude/Texts.antt =====
-- Texts as lists of numbers (bytes, or code points where the program walks runes), and dictionaries
-- keyed by texts.
use Prim.Native.Char.{code}
use Prim.Native.String.{String}
use Prim.Native.Nat.{ℕ}
use mathlib.Core.Path.{◌≡◌, refl}
use mathlib.Core.Logic.{◌↔◌}
use mathlib.Core.Bool.{Bool, true, false, ◌&&◌, ◌||◌}
use mathlib.Core.List.{List, [], ◌∷◌}
use mathlib.Core.Option.{Option, none, some}
use native.Mathlib.Omega.{arith}
use jsonize.Prelude.Tests.{◌==◌, if◌then◌else◌}

abbrev pub Text : Type 0
Text = List ℕ

-- The code points of a literal: its bytes, if it is ASCII.
abbrev pub codes : String → Text
codes String.[] = []
codes (String.◌∷◌ c s) = code c ∷ codes s

-- `==` on Go strings.
unfoldable pub same : Text → Text → Bool
same [] [] = true
same (x ∷ xs) (y ∷ ys) = x == y && same xs ys
same _ _ = false

pub same_iff : (a b : Text) → (same a b ≡ true) ↔ (a ≡ b)
unfolding same
same_iff (x ∷ a) (y ∷ b) = ground (arith, same_iff a b)
same_iff _ _ = ground arith

pub same_refl : (a : Text) → same a a ≡ true
same_refl a = (same_iff a a).1 refl

-- `slices.Contains` on Go strings.
unfoldable pub contains : Text → List Text → Bool
contains k [] = false
contains k (x ∷ xs) = same x k || contains k xs

-- Two Go slices of strings compared element by element.
unfoldable pub same_all : List Text → List Text → Bool
same_all [] [] = true
same_all (x ∷ xs) (y ∷ ys) = same x y && same_all xs ys
same_all _ _ = false

pub same_all→eq : (a b : List Text) → same_all a b ≡ true → a ≡ b
unfolding same_all
same_all→eq [] [] h = refl
same_all→eq [] (_ ∷ _) h = cc
same_all→eq (_ ∷ _) [] h = cc
same_all→eq (x ∷ a) (y ∷ b) h = ground (arith, same_iff x y, same_all→eq a b)

-- `strings.CutPrefix`, of the prefix and the text: what stands behind it, where it stands there.
unfoldable pub cut_prefix : Text → Text → Option Text
cut_prefix [] text = some text
cut_prefix (_ ∷ _) [] = none
cut_prefix (p ∷ ps) (c ∷ cs) = let rest = cut_prefix ps cs in if p == c then rest else none

-- A Go map with string keys.
module _ {ℓ} {V : Type ℓ} where
  unfoldable pub lookup : Text → List (Text × V) → Option V
  lookup k [] = none
  lookup k ((j, v) ∷ m) = if same j k then some v else lookup k m

  unfoldable pub insert : Text → V → List (Text × V) → List (Text × V)
  insert k v [] = (k, v) ∷ []
  insert k v ((j, w) ∷ m) = if same j k then (k, v) ∷ m else (j, w) ∷ insert k v m

  pub lookup-insert :
      (k j : Text) (v : V) (m : List (Text × V))
      → lookup j (insert k v m) ≡ (if same k j then some v else lookup j m)
  unfolding lookup insert
  lookup-insert k j v [] = refl
  lookup-insert k j v ((i, w) ∷ m) =
      ground (arith, same_iff k j, same_iff i k, same_iff i j, lookup-insert k j v m)
