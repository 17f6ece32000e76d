-- ===== src/Utf8.antt =====
-- The UTF-8 decoder of the standard library, as far as the program uses it: `utf8.ValidString` and the
-- conversion to runes.
use jsonize.Prelude.{
  List, ◌+◌, ◌*◌, ◌%◌, ℕ, zero, suc, Bool, true, false, ◌&&◌, ◌||◌, [], ◌∷◌, Text, ◌==◌, within,
  ltb, if◌then◌else◌,
}

abbrev continues : ℕ → Bool
continues = within 0x80 0xbf

-- The bytes of the character that a byte opens, with the three bytes behind it; 0 where it opens none.
unfoldable pub rune_len : ℕ → ℕ → ℕ → ℕ → ℕ
rune_len c d e f =
    if ltb c 0x80
    then 1
    else if within 0xc2 0xdf c && continues d
    then 2
    else if (c == 0xe0 && within 0xa0 0xbf d
          || (within 0xe1 0xec c || within 0xee 0xef c) && continues d
          || c == 0xed && within 0x80 0x9f d)
        && continues e
    then 3
    else if (c == 0xf0 && within 0x90 0xbf d
          || within 0xf1 0xf3 c && continues d
          || c == 0xf4 && within 0x80 0x8f d)
        && continues e
        && continues f
    then 4
    else 0

-- A missing byte reads as 0, which continues no character.
unfoldable pub leading_rune : Text → ℕ
unfolding rune_len
leading_rune [] = 0
leading_rune (c ∷ []) = rune_len c 0 0 0
leading_rune (c ∷ d ∷ []) = rune_len c d 0 0
leading_rune (c ∷ d ∷ e ∷ []) = rune_len c d e 0
leading_rune (c ∷ d ∷ e ∷ f ∷ _) = rune_len c d e f

-- The first argument counts the bytes of a character to pass over.
unfoldable pub valid_from : ℕ → Text → Bool
valid_from k [] = true
valid_from (suc k) (c ∷ cs) = valid_from k cs
valid_from zero (c ∷ cs) = elim (leading_rune (c ∷ cs)) [ zero ↦ false | suc n ↦ valid_from n cs ]

unfoldable pub valid_utf8 : Text → Bool
unfolding valid_from leading_rune
valid_utf8 = valid_from 0

-- The code point of a character of the given length.
unfoldable pub rune_value : ℕ → Text → ℕ
rune_value n (c ∷ []) = c
rune_value n (c ∷ d ∷ []) = if n == 2 then (c % 32) * 64 + d % 64 else c
rune_value n (c ∷ d ∷ e ∷ []) =
    if n == 3
    then (c % 16) * 4096 + (d % 64) * 64 + e % 64
    else if n == 2
    then (c % 32) * 64 + d % 64
    else c
rune_value n (c ∷ d ∷ e ∷ f ∷ _) =
    if n == 4
    then (c % 8) * 262144 + (d % 64) * 4096 + (e % 64) * 64 + f % 64
    else if n == 3
    then (c % 16) * 4096 + (d % 64) * 64 + e % 64
    else if n == 2
    then (c % 32) * 64 + d % 64
    else c
rune_value n [] = 0

-- `[]rune(s)`: a byte that opens no character reads as U+FFFD.
unfoldable pub runes_from : ℕ → Text → List ℕ
unfolding rune_value leading_rune
runes_from k [] = []
runes_from (suc k) (c ∷ cs) = runes_from k cs
runes_from zero (c ∷ cs) = elim (leading_rune (c ∷ cs)) [
  | zero ↦ 0xfffd ∷ runes_from 0 cs
  | suc n ↦ rune_value (suc n) (c ∷ cs) ∷ runes_from n cs
]

unfoldable pub runes : Text → List ℕ
unfolding runes_from
runes = runes_from 0
