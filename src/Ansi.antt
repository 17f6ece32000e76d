-- ===== src/Ansi.antt =====
-- pkg/convert/convert.go, `StripANSI` and `escapeEnd`. The index `i` of the source is the rest of the
-- text from it on, and `i = end` the number of bytes that are passed over before the next one is read.
pub mod Lines
pub mod Escapes
use jsonize.Prelude.{
  zero, suc, ◌+◌, ℕ, Bool, true, false, ◌||◌, ◌&&◌, [], ◌∷◌, Option, none, some, Text, ◌==◌, within,
  if◌then◌else◌,
}

abbrev pub escape : ℕ
escape = 0x1b

-- `bytes.ContainsRune(b, 0x1b)`
unfoldable pub holds_escape : Text → Bool
holds_escape [] = false
holds_escape (c ∷ cs) = c == escape || holds_escape cs

abbrev pub is_break : ℕ → Bool
is_break c = c == b'\r' || c == b'\n'

-- `b[i+1:limit]`: what is left of the line
unfoldable pub before_break : Text → Text
before_break [] = []
before_break (c ∷ cs) = if is_break c then [] else c ∷ before_break cs

abbrev pub starts_with : ℕ → Text → Bool
starts_with b [] = false
starts_with b (c ∷ _) = c == b

-- `case '['`, on the bytes behind the bracket; `j` counts the bytes behind the escape
unfoldable pub csi_end : Text → ℕ → Option ℕ
csi_end [] j = none
csi_end (c ∷ cs) j =
    if within 0x20 0x3f c
    then csi_end cs (suc j)
    else if within 0x40 0x7e c
    then some (suc j)
    else none

-- `case ']'`
unfoldable pub osc_end : Text → ℕ → Option ℕ
osc_end [] j = none
osc_end (c ∷ cs) j =
    if c == 0x07
    then some (suc j)
    else if c == escape && starts_with b'\\' cs
    then some (suc (suc j))
    else osc_end cs (suc j)

-- `default`
unfoldable pub other_end : Text → ℕ → Option ℕ
other_end [] j = none
other_end (c ∷ cs) j = if within 0x20 0x2f c then other_end cs (suc j) else some (suc j)

-- How many bytes behind the escape its sequence takes, on the rest of the line. The line is empty
-- where the escape ends the text, or stands before a line break.
unfoldable pub escape_end : Text → Option ℕ
escape_end [] = none
escape_end (c ∷ cs) =
    if c == b'[' then csi_end cs 1 else if c == b']' then osc_end cs 1 else other_end (c ∷ cs) 0

-- What stands behind a byte: bytes to pass over, or none where the byte is kept.
unfoldable pub sequence : ℕ → Text → Option ℕ
sequence c cs = if c == escape then escape_end (before_break cs) else none

-- The loop; the first argument is how many bytes are still passed over.
unfoldable pub strip_from : ℕ → Text → Text
strip_from skip [] = []
strip_from (suc k) (c ∷ cs) = strip_from k cs
strip_from zero (c ∷ cs) = elim (sequence c cs) [
  | some n ↦ strip_from n cs
  | none ↦ c ∷ strip_from 0 cs
]

unfoldable pub strip_ansi : Text → Text
strip_ansi b = if holds_escape b then strip_from 0 b else b
