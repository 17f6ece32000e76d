-- ===== src/Record.antt =====
-- internal/recordio/recordio.go, `Read`. The reader is the bytes it has not handed out yet, and the
-- size of its buffer; reads from the file below it do not fail. `ReadSlice` is of the standard library's
-- bufio: it hands out the bytes up to the separator, a whole buffer where none holds one, or what is
-- left of the input.
pub mod Spec
use jsonize.Prelude.{
  zero, suc, ◌+◌, ◌-◌, ◌*◌, ◌<◌, ℕ, Bool, true, false, [], ◌∷◌, ◌++◌, Option, none, some, Text,
  ◌==◌, ltb, if◌then◌else◌, length,
}

-- the error of a call of `ReadSlice`
pub data SliceEnd : Type 0 where
  found buffer_full eof : SliceEnd

-- what it handed out, how it ended, and what is left
pub record Slice : Type 0 where
  pub chunk : Text
  pub end : SliceEnd
  pub rest : Text

-- one more byte in front of a slice
abbrev pub before : ℕ → Slice → Slice
before c s = record s { chunk = c ∷ s.chunk }

-- The first argument is the room left in the buffer.
unfoldable pub read_slice : ℕ → ℕ → Text → Slice
read_slice zero sep input = record { chunk = []; end = buffer_full; rest = input }
read_slice (suc room) sep [] = record { chunk = []; end = eof; rest = [] }
read_slice (suc room) sep (c ∷ cs) =
    if c == sep
    then record { chunk = c ∷ []; end = found; rest = cs }
    else before c (read_slice room sep cs)

pub data Read : Type 0 where
  -- the record, whether a separator ended it, and what is left of the input
  line : Text → Bool → Text → Read
  too_long : Read
  out_of_fuel : Read

-- `if len(out) > 0 && out[len(out)-1] == sep { out = out[:len(out)-1] }`
unfoldable pub trim_sep : ℕ → Text → Text
trim_sep sep [] = []
trim_sep sep (c ∷ []) = if c == sep then [] else c ∷ []
trim_sep sep (c ∷ d ∷ cs) = c ∷ trim_sep sep (d ∷ cs)

abbrev finish : ℕ → Text → Bool → Text → Read
finish max_len out ended rest = if ltb max_len (length out) then too_long else line out ended rest

abbrev is_found : SliceEnd → Bool
is_found found = true
is_found _ = false

-- The rounds of the loop are counted by the fuel.
unfoldable pub read_from : ℕ → ℕ → ℕ → ℕ → Text → Text → Read
read_from zero size sep max_len out input = out_of_fuel
read_from (suc fuel) size sep max_len out input =
    let s = read_slice size sep input in
    let longer = out ++ s.chunk in
    if ltb (max_len + 1) (length out + length s.chunk) then too_long else elim s.end [
      | buffer_full ↦ read_from fuel size sep max_len longer s.rest
      | found ↦ finish max_len (trim_sep sep longer) true s.rest
      | eof ↦ finish max_len (trim_sep sep longer) false s.rest
    ]

-- A full buffer takes a byte at least, so there are no more rounds than bytes, and one.
unfoldable pub read : ℕ → ℕ → ℕ → Text → Read
read size sep max_len input = read_from (suc (length input)) size sep max_len [] input
