-- ===== src/Space.antt =====
-- The white space of the standard library's strings and bytes packages, on the bytes of a UTF-8 text:
-- `TrimSpace`, `TrimLeft(s, " \t")` and the test that a text is blank (`blank` of pkg/engine/ledger.go).
use jsonize.Prelude.{
  ℕ, zero, suc, Bool, true, false, ◌&&◌, ◌||◌, [], ◌∷◌, Text, ◌==◌, within, if◌then◌else◌,
}

-- `unicode.IsSpace` of the character a byte opens, with the two bytes behind it: how many bytes the
-- space takes, and 0 for any other character.
unfoldable pub space_len : ℕ → ℕ → ℕ → ℕ
space_len c d e =
    if within 9 13 c || c == 32
    then 1
    else if c == 0xc2 && (d == 0x85 || d == 0xa0)
    then 2
    else if c == 0xe1 && d == 0x9a && e == 0x80
    then 3
    else if c == 0xe2 && d == 0x80 && (within 0x80 0x8a e || e == 0xa8 || e == 0xa9 || e == 0xaf)
    then 3
    else if c == 0xe2 && d == 0x81 && e == 0x9f
    then 3
    else if c == 0xe3 && d == 0x80 && e == 0x80
    then 3
    else 0

-- The space that opens a text.
unfoldable pub leading_space : Text → ℕ
unfolding space_len
leading_space [] = 0
leading_space (c ∷ []) = space_len c 0 0
leading_space (c ∷ d ∷ []) = space_len c d 0
leading_space (c ∷ d ∷ e ∷ _) = space_len c d e

-- `TrimLeftFunc(s, unicode.IsSpace)`; the first argument counts the bytes of a space to pass over.
unfoldable pub trim_left_from : ℕ → Text → Text
trim_left_from k [] = []
trim_left_from (suc k) (c ∷ cs) = trim_left_from k cs
trim_left_from zero (c ∷ cs) = elim (leading_space (c ∷ cs)) [
  | zero ↦ c ∷ cs
  | suc n ↦ trim_left_from n cs
]

abbrev is_nil : Text → Bool
is_nil [] = true
is_nil (_ ∷ _) = false

-- `strings.TrimSpace(s) == ""`
unfoldable pub blank : Text → Bool
unfolding trim_left_from leading_space
blank s = is_nil (trim_left_from 0 s)

-- `TrimRightFunc(s, unicode.IsSpace)`
unfoldable pub trim_right : Text → Text
unfolding blank
trim_right [] = []
trim_right (c ∷ cs) = if blank (c ∷ cs) then [] else c ∷ trim_right cs

unfoldable pub trim_space : Text → Text
unfolding trim_right trim_left_from leading_space
trim_space s = trim_right (trim_left_from 0 s)
