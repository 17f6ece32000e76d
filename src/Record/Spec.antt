-- ===== src/Record/Spec.antt =====
-- The record that `Read` of internal/recordio/recordio.go is meant to give, without a buffer.
use jsonize.Prelude.{
  ◌⊎◌, append_assoc, length-append, length-concat, inl, inr, ap, zero, suc, ◌+◌, ◌<◌, ◌≤◌, ℕ, Bool,
  true, false, [], ◌∷◌, ◌++◌, Text, ◌==◌, ltb, if◌then◌else◌, length, append_assoc, length-append,
  ◌≡◌, refl, arith, inl, inr,
}
use jsonize.Record.{
  SliceEnd, found, buffer_full, eof, Slice, read_slice, Read, line, too_long, trim_sep, read_from,
  read,
}

-- The bytes before the first separator, whether there is one, and what stands behind it.
unfoldable pub line_of : ℕ → Text → Text
line_of sep [] = []
line_of sep (c ∷ cs) = if c == sep then [] else c ∷ line_of sep cs

unfoldable pub has_sep : ℕ → Text → Bool
has_sep sep [] = false
has_sep sep (c ∷ cs) = if c == sep then true else has_sep sep cs

unfoldable pub behind : ℕ → Text → Text
behind sep [] = []
behind sep (c ∷ cs) = if c == sep then cs else behind sep cs

-- What `Read` is to answer.
abbrev pub record_of : ℕ → ℕ → Text → Read
record_of sep max_len input =
    if ltb max_len (length (line_of sep input))
    then too_long
    else line (line_of sep input) (has_sep sep input) (behind sep input)

trim_sep-concat : (sep : ℕ) (xs : Text) → trim_sep sep (xs ++ sep ∷ []) ≡ xs
unfolding trim_sep
trim_sep-concat sep [] = ground arith
trim_sep-concat sep (c ∷ []) = ground arith
trim_sep-concat sep (c ∷ d ∷ cs) = ap (◌∷◌ c) (trim_sep-concat sep (d ∷ cs))

trim_sep-lacks : (sep : ℕ) (xs : Text) → has_sep sep xs ≡ false → trim_sep sep xs ≡ xs
unfolding trim_sep has_sep
trim_sep-lacks sep [] h = refl
trim_sep-lacks sep (c ∷ []) h = ground arith
trim_sep-lacks sep (c ∷ d ∷ cs) h = ground (arith, trim_sep-lacks sep (d ∷ cs))

has_sep-append :
    (sep : ℕ) (xs ys : Text)
    → has_sep sep xs ≡ false
    → has_sep sep ys ≡ false
    → has_sep sep (xs ++ ys) ≡ false
unfolding has_sep
has_sep-append sep [] ys h k = k
has_sep-append sep (c ∷ cs) ys h k = ground (arith, has_sep-append sep cs ys)

-- What a slice says of the input that it was taken from, by how it ended.
record SliceIs (room sep : ℕ) (input : Text) (s : Slice) : Type 0 where
  at_sep :
      s.end ≡ found
      → (s.chunk ≡ line_of sep input ++ sep ∷ [])
        × (has_sep sep input ≡ true)
        × (s.rest ≡ behind sep input)
  at_eof :
      s.end ≡ eof
      → (s.chunk ≡ line_of sep input)
        × (has_sep sep input ≡ false)
        × (s.rest ≡ [])
        × (behind sep input ≡ [])
  at_full :
      s.end ≡ buffer_full
      → (has_sep sep s.chunk ≡ false)
        × (line_of sep input ≡ s.chunk ++ line_of sep s.rest)
        × (has_sep sep input ≡ has_sep sep s.rest)
        × (behind sep input ≡ behind sep s.rest)
        × (room + length s.rest ≤ length input)

read_slice-SliceIs :
    (room sep : ℕ) (input : Text) → SliceIs room sep input (read_slice room sep input)
unfolding read_slice line_of has_sep behind
read_slice-SliceIs zero sep input = ground arith
read_slice-SliceIs (suc room) sep [] = ground arith
read_slice-SliceIs (suc room) sep (c ∷ cs) =
    let ih = read_slice-SliceIs room sep cs in ground (arith, ih.at_sep, ih.at_eof, ih.at_full)

line_of-lacks : (sep : ℕ) (xs : Text) → has_sep sep (line_of sep xs) ≡ false
unfolding has_sep line_of
line_of-lacks sep [] = refl
line_of-lacks sep (c ∷ cs) = ground (arith, line_of-lacks sep cs)

SliceEnd-cases : (e : SliceEnd) → (e ≡ found) ⊎ (e ≡ eof) ⊎ (e ≡ buffer_full)
SliceEnd-cases found = inl refl
SliceEnd-cases eof = inr (inl refl)
SliceEnd-cases buffer_full = inr (inr refl)

read_from-record :
    (fuel size sep max_len : ℕ) (out input : Text)
    → has_sep sep out ≡ false
    → 0 < size
    → length input < fuel
    → read_from fuel size sep max_len out input ≡ (
        if ltb max_len (length (out ++ line_of sep input))
        then too_long
        else line (out ++ line_of sep input) (has_sep sep input) (behind sep input))
unfolding read_from
read_from-record zero size sep max_len out input h p lt = absurd (omega arith)
read_from-record (suc fuel) size sep max_len out input h p lt =
    let s = read_slice size sep input in
    let facts = read_slice-SliceIs size sep input in
    elim (SliceEnd-cases s.end) [
      | inl e ↦ ground (
        arith,
        facts.at_sep e,
        trim_sep-concat sep (out ++ line_of sep input),
        append_assoc out (line_of sep input) (sep ∷ []),
        length-append out (line_of sep input),
        length-concat (line_of sep input) sep,
      )
      | inr (inl e) ↦ ground (
        arith,
        facts.at_eof e,
        trim_sep-lacks sep (out ++ line_of sep input),
        has_sep-append sep out (line_of sep input),
        line_of-lacks sep input,
        length-append out (line_of sep input),
      )
      | inr (inr e) ↦
          let ih = read_from-record fuel size sep max_len (out ++ s.chunk) s.rest in
          ground (
            arith,
            facts.at_full e,
            ih,
            has_sep-append sep out s.chunk,
            append_assoc out s.chunk (line_of sep s.rest),
            length-append out s.chunk,
            length-append (out ++ s.chunk) (line_of sep s.rest),
          )
    ]

-- `Read` answers with what stands before the first separator, or with the whole input where there is
-- none, and leaves what stands behind the separator; it refuses exactly the records longer than the
-- limit. The size of the buffer, which is not 0, makes no difference, and the rounds counted suffice.
pub read-record_of :
    (size sep max_len : ℕ) (input : Text)
    → 0 < size
    → read size sep max_len input ≡ record_of sep max_len input
unfolding read
read-record_of size sep max_len input h =
    read_from-record (suc (length input)) size sep max_len [] input (unfold has_sep in refl) h
      (omega arith)
