-- ===== src/JsonString/End.antt =====
-- `writeString` of pkg/jsonutil/object.go against a reader of JSON strings that looks for the closing
-- quote.
use jsonize.Prelude.{
  ℕ, zero, suc, ◌/◌, ◌%◌, ◌≡◌, refl, ap, ◌∙◌, Bool, true, false, [], ◌∷◌, ◌++◌, Option, none, some,
  Text, ◌==◌, ltb, leb, if◌then◌else◌, arith, Bool-cases, inl, inr, ◌⊎◌, append_assoc,
}
use jsonize.Utf8.{leading_rune, rune_len, rune_value}
use jsonize.JsonString.{hex_digit, write_escape, write_byte, is_separator, write_from, write_string}

-- What stands behind the quote that closes a string. A control byte stands in no string; the flag
-- says that a backslash stands before this byte.
unfoldable pub behind_string : Bool → Text → Option Text
behind_string escaped [] = none
behind_string true (c ∷ cs) = if ltb c 0x20 then none else behind_string false cs
behind_string false (c ∷ cs) =
    if c == b'"'
    then some cs
    else if c == b'\\'
    then behind_string true cs
    else if ltb c 0x20
    then none
    else behind_string false cs

-- The bytes counted are no ASCII.
abbrev High : ℕ → Text → Type 0
High zero cs = Unit
High (suc k) [] = Unit
High (suc k) (c ∷ cs) = (leb 0x80 c ≡ true) × High k cs

leading_rune-High :
    (c : ℕ) (cs : Text) (n : ℕ) → ltb c 0x80 ≡ false → leading_rune (c ∷ cs) ≡ suc n → High n cs
unfolding leading_rune rune_len
leading_rune-High c cs zero h e = tt
leading_rune-High c [] (suc n) h e = tt
leading_rune-High c (d ∷ []) (suc zero) h e = (ground arith, tt)
leading_rune-High c (d ∷ []) (suc (suc n)) h e = ground arith
leading_rune-High c (d ∷ x ∷ []) (suc zero) h e = (ground arith, tt)
leading_rune-High c (d ∷ x ∷ []) (suc (suc zero)) h e = (ground arith, (ground arith, tt))
leading_rune-High c (d ∷ x ∷ []) (suc (suc (suc n))) h e = ground arith
leading_rune-High c (d ∷ x ∷ y ∷ cs) (suc zero) h e = (ground arith, tt)
leading_rune-High c (d ∷ x ∷ y ∷ cs) (suc (suc zero)) h e = (ground arith, (ground arith, tt))
leading_rune-High c (d ∷ x ∷ y ∷ cs) (suc (suc (suc zero))) h e =
    (ground arith, (ground arith, (ground arith, tt)))
leading_rune-High c (d ∷ x ∷ y ∷ cs) (suc (suc (suc (suc n)))) h e = ground arith

-- one hexadecimal digit is passed over
behind-hex_digit :
    (n : ℕ) (t : Text) → behind_string false (hex_digit (n % 16) ∷ t) ≡ behind_string false t
unfolding behind_string hex_digit
behind-hex_digit n t = ground arith

behind-write_escape :
    (r : ℕ) (t : Text) → behind_string false (write_escape r ++ t) ≡ behind_string false t
unfolding write_escape
behind-write_escape r t =
    let d0 = hex_digit (r % 16) in
    let d1 = hex_digit (r / 16 % 16) in
    let d2 = hex_digit (r / 256 % 16) in
    let start : behind_string false (write_escape r ++ t)
        ≡ behind_string false (hex_digit (r / 4096 % 16) ∷ d2 ∷ d1 ∷ d0 ∷ t) =
      unfold behind_string in refl in
    start
    ∙ behind-hex_digit (r / 4096) (d2 ∷ d1 ∷ d0 ∷ t)
    ∙ behind-hex_digit (r / 256) (d1 ∷ d0 ∷ t)
    ∙ behind-hex_digit (r / 16) (d0 ∷ t)
    ∙ behind-hex_digit r t

-- what is written for a byte is passed over
behind-write_byte :
    (b : ℕ) (t : Text) → behind_string false (write_byte b ++ t) ≡ behind_string false t
unfolding write_byte behind_string
behind-write_byte b t = ground (arith, behind-write_escape b t)

behind-high :
    (c : ℕ) (t : Text) → leb 0x80 c ≡ true → behind_string false (c ∷ t) ≡ behind_string false t
unfolding behind_string
behind-high c t h = ground arith

ℕ-cases : (n : ℕ) → (n ≡ 0) ⊎ ((m : ℕ) × (n ≡ suc m))
ℕ-cases zero = inl refl
ℕ-cases (suc m) = inr (m, refl)

write_from-behind :
    (k : ℕ) (copied : Bool) (s rest : Text)
    → High k s
    → behind_string false (write_from k copied s ++ b'"' ∷ rest) ≡ some rest
unfolding write_from
write_from-behind k copied [] rest h = unfold behind_string in refl
write_from-behind (suc k) true (c ∷ cs) rest (high, h) =
    behind-high c (write_from k true cs ++ b'"' ∷ rest) high ∙ write_from-behind k true cs rest h
write_from-behind (suc k) false (c ∷ cs) rest (high, h) = write_from-behind k false cs rest h
write_from-behind zero copied (c ∷ cs) rest h = elim (Bool-cases (ltb c 0x80)) [
  | inl e ↦ rw e (
      ap (behind_string false) (append_assoc (write_byte c) (write_from 0 true cs) (b'"' ∷ rest))
      ∙ behind-write_byte c (write_from 0 true cs ++ b'"' ∷ rest)
      ∙ write_from-behind 0 true cs rest tt)
  | inr e ↦ elim (ℕ-cases (leading_rune (c ∷ cs))) [
    | inl z ↦
        rw (e, z)
          (ap (behind_string false)
              (append_assoc (write_escape 0xfffd) (write_from 0 true cs) (b'"' ∷ rest))
            ∙ behind-write_escape 0xfffd (write_from 0 true cs ++ b'"' ∷ rest)
            ∙ write_from-behind 0 true cs rest tt)
    | inr (n, z) ↦
        let high = leading_rune-High c cs n e z in
        let r = rune_value (suc n) (c ∷ cs) in
        elim (Bool-cases (is_separator r)) [
          | inl sep ↦
              rw (e, z, sep)
                (ap (behind_string false)
                    (append_assoc (write_escape r) (write_from n false cs) (b'"' ∷ rest))
                  ∙ behind-write_escape r (write_from n false cs ++ b'"' ∷ rest)
                  ∙ write_from-behind n false cs rest high)
          | inr plain ↦
              rw (e, z, plain)
                (behind-high c (write_from n true cs ++ b'"' ∷ rest) (ground arith)
                  ∙ write_from-behind n true cs rest high)
        ]
  ]
]

abbrev pub read_string : Text → Option Text
read_string [] = none
read_string (c ∷ cs) = if c == b'"' then behind_string false cs else none

-- The string written for a text, valid UTF-8 or not, ends exactly where it ends: with any text behind
-- it, a reader that begins at its opening quote finds its closing quote, no control byte before it, and
-- that text behind it.
pub write_string-read : (s rest : Text) → read_string (write_string s ++ rest) ≡ some rest
unfolding write_string
write_string-read s rest =
    ap (behind_string false) (append_assoc (write_from 0 true s) (b'"' ∷ []) rest)
    ∙ write_from-behind 0 true s rest tt
