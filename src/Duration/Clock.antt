-- ===== src/Duration/Clock.antt =====
-- pkg/convert/convert.go, `parseClock`: a colon-separated reading.
use jsonize.Prelude.{
  ℕ, zero, suc, Bool, true, false, not, ◌&&◌, ◌||◌, List, [], ◌∷◌, Option, none, some, Text, ◌==◌,
  ltb, if◌then◌else◌, length,
}
use jsonize.Engine.Split.{cut_records}
use jsonize.Duration.Number.{
  Decimal, whole, is_digit, all_digits, is_nil, cut, decimal, add_decimal, overflows, rounds_to_60,
}

-- the layout of a field, which settles what the last of two parts is
pub data Layout : Type 0 where
  hour_minute minute_second unset : Layout

infixl 5 ◌>>=◌
abbrev pub ◌>>=◌ {ℓ κ} : {A : Type ℓ} {B : Type κ} → Option A → (A → Option B) → Option B
none >>= f = none
some a >>= f = f a

-- The days in front of a dash, and the rest; a dash that opens the text is left.
unfoldable pub clock_days : Text → Option (Decimal × Text)
clock_days t = elim (cut b'-' t) [
  | none ↦ some (whole 0, t)
  | some (d, rest) ↦
      if is_nil d
      then some (whole 0, t)
      else if not (all_digits d)
      then none
      else elim (add_decimal (whole 0) d (whole 86400)) [ none ↦ none | some n ↦ some (n, rest) ]
]

pub data LastUnit : Type 0 where
  no_unit minutes seconds hours : LastUnit

unfoldable pub unit_letter : ℕ → Option LastUnit
unit_letter c =
    if c == b'm'
    then some minutes
    else if c == b's'
    then some seconds
    else if c == b'h'
    then some hours
    else none

-- A letter that ends the text names the unit of the last part, and comes off.
unfoldable pub last_unit : Text → Option (LastUnit × Text)
unfolding unit_letter
last_unit [] = some (no_unit, [])
last_unit (c ∷ []) =
    if is_digit c
    then some (no_unit, c ∷ [])
    else elim (unit_letter c) [ none ↦ none | some u ↦ some (u, []) ]
last_unit (c ∷ d ∷ cs) = elim (last_unit (d ∷ cs)) [ none ↦ none | some (u, s) ↦ some (u, c ∷ s) ]

abbrev is_hour_minute : Layout → Bool
is_hour_minute hour_minute = true
is_hour_minute _ = false

abbrev is_no_unit : LastUnit → Bool
is_no_unit no_unit = true
is_no_unit _ = false

abbrev is_minutes : LastUnit → Bool
is_minutes minutes = true
is_minutes _ = false

-- The units of one, two or three parts, the largest first.
unfoldable pub units_of : LastUnit → Layout → ℕ → List ℕ
units_of hours layout (suc zero) = 3600 ∷ []
units_of minutes layout (suc zero) = 60 ∷ []
units_of u layout (suc zero) = 1 ∷ []
units_of u layout (suc (suc zero)) =
    if is_minutes u || is_hour_minute layout && is_no_unit u then 3600 ∷ 60 ∷ [] else 60 ∷ 1 ∷ []
units_of u layout n = 3600 ∷ 60 ∷ 1 ∷ []

-- The loop over the parts; the flag says that a part stands before this one.
unfoldable pub add_parts : Bool → Decimal → List Text → List ℕ → Option Decimal
add_parts later total [] us = some total
add_parts later total (p ∷ ps) [] = some total
add_parts later total (p ∷ ps) (u ∷ us) = do
  n ← decimal p
  next ← if overflows n || later && rounds_to_60 n then none else add_decimal total p (whole u)
  add_parts true next ps us

unfoldable pub add_clock : Layout → Decimal → LastUnit × Text → Option Decimal
unfolding add_parts units_of
add_clock layout total (u, s) =
    let parts = cut_records b':' s in
    if ltb 3 (length parts)
    then none
    else add_parts false total parts (units_of u layout (length parts))

unfoldable pub parse_clock : Text → Layout → Option Decimal
unfolding clock_days last_unit add_clock
parse_clock t layout = do
  (total, rest) ← clock_days t
  last ← last_unit rest
  add_clock layout total last
