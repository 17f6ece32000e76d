-- ===== src/JsonString.antt =====
-- pkg/jsonutil/object.go, `writeString` and `writeEscape`: a text as a JSON string. The text is its
-- bytes, and so is what is written; runs that need no escape are copied byte by byte here.
pub mod End
use jsonize.Prelude.{
  ℕ, zero, suc, ◌+◌, ◌-◌, ◌/◌, ◌%◌, Bool, true, false, ◌&&◌, ◌||◌, List, [], ◌∷◌, ◌++◌, Text, codes,
  ◌==◌, ltb, leb, if◌then◌else◌,
}
use jsonize.Utf8.{leading_rune, rune_value}

-- `hexDigits`
unfoldable pub hex_digit : ℕ → ℕ
hex_digit n = if ltb n 10 then b'0' + n else b'a' + (n - 10)

-- the four digits are `r >> 12 & 0xF` and so on
unfoldable pub write_escape : ℕ → Text
unfolding hex_digit
write_escape r =
    b'\\'
    ∷ b'u'
    ∷ hex_digit (r / 4096 % 16)
    ∷ hex_digit (r / 256 % 16)
    ∷ hex_digit (r / 16 % 16)
    ∷ hex_digit (r % 16)
    ∷ []

-- the switch on a byte below `utf8.RuneSelf`
unfoldable pub write_byte : ℕ → Text
unfolding write_escape
write_byte b =
    if b == b'\\' || b == b'"'
    then b'\\' ∷ b ∷ []
    else if leb 0x20 b
    then b ∷ []
    else if b == 0x08
    then codes "\\b"
    else if b == 0x0c
    then codes "\\f"
    else if b == 0x0a
    then codes "\\n"
    else if b == 0x0d
    then codes "\\r"
    else if b == 0x09
    then codes "\\t"
    else write_escape b

abbrev is_separator : ℕ → Bool
is_separator r = r == 0x2028 || r == 0x2029

-- The loop. The first argument counts the bytes of a rune that are passed over, and the flag says
-- whether they are copied.
unfoldable pub write_from : ℕ → Bool → Text → Text
unfolding write_byte leading_rune rune_value
write_from k copied [] = []
write_from (suc k) copied (c ∷ cs) =
    let rest = write_from k copied cs in if copied then c ∷ rest else rest
write_from zero copied (c ∷ cs) =
    if ltb c 0x80 then write_byte c ++ write_from 0 true cs else elim (leading_rune (c ∷ cs)) [
      | zero ↦ write_escape 0xfffd ++ write_from 0 true cs
      | suc n ↦
          let r = rune_value (suc n) (c ∷ cs) in
          if is_separator r
          then write_escape r ++ write_from n false cs
          else c ∷ write_from n true cs
    ]

unfoldable pub write_string : Text → Text
unfolding write_from
write_string s = b'"' ∷ (write_from 0 true s ++ b'"' ∷ [])
