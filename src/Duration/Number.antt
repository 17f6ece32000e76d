-- ===== src/Duration/Number.antt =====
-- pkg/convert/convert.go: the numbers of a printed length (`allDigits`, `isDecimal`, `addDecimal`). A
-- big.Rat is a decimal fraction here.
use jsonize.Prelude.{
  ℕ, ◌+◌, ◌-◌, ◌*◌, ◌^◌, Bool, true, false, not, ◌&&◌, [], ◌∷◌, ◌++◌, Option, none, some, Text,
  ◌==◌, leb, within, if◌then◌else◌, length,
}

-- num / 10 ^ scale
pub record Decimal : Type 0 where
  pub num : ℕ
  pub scale : ℕ

abbrev pub whole : ℕ → Decimal
whole n = record { num = n; scale = 0 }

abbrev pub is_digit : ℕ → Bool
is_digit c = within b'0' b'9' c

unfoldable pub digits_only : Text → Bool
digits_only [] = true
digits_only (c ∷ cs) = is_digit c && digits_only cs

abbrev pub is_nil : Text → Bool
is_nil [] = true
is_nil (_ ∷ _) = false

unfoldable pub all_digits : Text → Bool
unfolding digits_only
all_digits s = digits_only s && not (is_nil s)

-- `strings.Cut`, and with it `strings.Index`, at one byte
unfoldable pub cut : ℕ → Text → Option (Text × Text)
cut b [] = none
cut b (c ∷ cs) =
    if c == b
    then some ([], cs)
    else elim (cut b cs) [ none ↦ none | some (x, y) ↦ some (c ∷ x, y) ]

unfoldable pub is_decimal : Text → Bool
unfolding cut all_digits
is_decimal s = elim (cut b'.' s) [ none ↦ false | some (w, f) ↦ all_digits w && all_digits f ]

-- the number that digits spell behind `acc`
unfoldable pub value_from : ℕ → Text → ℕ
value_from acc [] = acc
value_from acc (c ∷ cs) = value_from (acc * 10 + (c - b'0')) cs

abbrev pub value : Text → ℕ
value = value_from 0

-- a run of digits with at most one dot, as an exact number
unfoldable pub decimal : Text → Option Decimal
unfolding is_decimal all_digits cut value_from
decimal s =
    if all_digits s
    then some (whole (value s))
    else if is_decimal s
    then elim (cut b'.' s) [
      | none ↦ none
      | some (w, f) ↦ some (record { num = value (w ++ f); scale = length f })
    ]
    else none

unfoldable pub add : Decimal → Decimal → Decimal
add a b = record { num = a.num * 10 ^ b.scale + b.num * 10 ^ a.scale; scale = a.scale + b.scale }

unfoldable pub times : Decimal → Decimal → Decimal
times a b = record { num = a.num * b.num; scale = a.scale + b.scale }

unfoldable pub add_decimal : Decimal → Text → Decimal → Option Decimal
unfolding decimal add times
add_decimal total s unit = elim (decimal s) [
  | none ↦ none
  | some n ↦ some (add total (times n unit))
]

-- `strconv.ParseFloat` of a decimal: it refuses what rounds past the largest float64.
unfoldable pub overflows : Decimal → Bool
overflows d = leb ((2 ^ 1024 - 2 ^ 970) * 10 ^ d.scale) d.num

-- `n >= 60` of the float64: the halfway point below 60 rounds up to it.
unfoldable pub rounds_to_60 : Decimal → Bool
rounds_to_60 d = leb ((60 * 2 ^ 48 - 1) * 10 ^ d.scale) (d.num * 2 ^ 48)
