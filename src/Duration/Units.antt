-- ===== src/Duration/Units.antt =====
-- pkg/convert/convert.go, `parseUnits`, `splitLeadingDays`, `parseDuration` and `Duration`.
use jsonize.Prelude.{
  ℕ, zero, suc, ◌+◌, ◌*◌, ◌/◌, ◌%◌, ◌^◌, Bool, true, false, not, ◌&&◌, ◌||◌, List, [], ◌∷◌, ◌++◌,
  Option, none, some, Text, codes, same, lookup, ◌==◌, ltb, leb, within, if◌then◌else◌, length,
}
use jsonize.Space.{trim_space}
use jsonize.Duration.Number.{
  Decimal, whole, is_digit, all_digits, is_nil, is_decimal, cut, add, add_decimal,
}
use jsonize.Duration.Clock.{Layout, hour_minute, parse_clock, ◌>>=◌}
use jsonize.Duration.Whole.{max_seconds, whole_clock, guard}

-- `durationUnits`; a unit of less than a second has a scale
unfoldable pub duration_units : List (Text × Decimal)
duration_units =
    (codes "ns", record { num = 1; scale = 9 })
    ∷ (codes "us", record { num = 1; scale = 6 })
    ∷ (0xc2 ∷ 0xb5 ∷ b's' ∷ [], record { num = 1; scale = 6 })
    ∷ (codes "ms", record { num = 1; scale = 3 })
    ∷ (codes "s", whole 1)
    ∷ (codes "sec", whole 1)
    ∷ (codes "secs", whole 1)
    ∷ (codes "second", whole 1)
    ∷ (codes "seconds", whole 1)
    ∷ (codes "m", whole 60)
    ∷ (codes "min", whole 60)
    ∷ (codes "mins", whole 60)
    ∷ (codes "minute", whole 60)
    ∷ (codes "minutes", whole 60)
    ∷ (codes "h", whole 3600)
    ∷ (codes "hr", whole 3600)
    ∷ (codes "hrs", whole 3600)
    ∷ (codes "hour", whole 3600)
    ∷ (codes "hours", whole 3600)
    ∷ (codes "d", whole 86400)
    ∷ (codes "day", whole 86400)
    ∷ (codes "days", whole 86400)
    ∷ (codes "w", whole 604800)
    ∷ (codes "wk", whole 604800)
    ∷ (codes "week", whole 604800)
    ∷ (codes "weeks", whole 604800)
    ∷ []

abbrev lower_byte : ℕ → ℕ
lower_byte c = if within b'A' b'Z' c then c + 32 else c

-- `strings.ToLower` of the standard library, as far as a unit's name can depend on it: the letters of
-- ASCII, and the two others whose lower case is one, the Kelvin sign and the capital I with a dot.
unfoldable pub to_lower : Text → Text
to_lower (c ∷ d ∷ e ∷ cs) =
    if c == 0xe2 && d == 0x84 && e == 0xaa
    then b'k' ∷ to_lower cs
    else if c == 0xc4 && d == 0xb0
    then b'i' ∷ to_lower (e ∷ cs)
    else lower_byte c ∷ to_lower (d ∷ e ∷ cs)
to_lower (c ∷ d ∷ []) =
    if c == 0xc4 && d == 0xb0 then b'i' ∷ [] else lower_byte c ∷ lower_byte d ∷ []
to_lower (c ∷ []) = lower_byte c ∷ []
to_lower [] = []

unfoldable pub duration_unit : Text → Option Decimal
unfolding duration_units to_lower
duration_unit u = elim (lookup u duration_units) [
  | some m ↦ some m
  | none ↦ if leb (length u) 2 then none else lookup (to_lower u) duration_units
]

abbrev pub is_indent : ℕ → Bool
is_indent c = c == b' ' || c == b'\t'

-- `strings.TrimLeft(t, " \t")`
unfoldable pub trim_indent : Text → Text
trim_indent [] = []
trim_indent (c ∷ cs) = if is_indent c then trim_indent cs else c ∷ cs

-- the loops over `j` and over `k`: what they pass over, and what is left
unfoldable pub span : (ℕ → Bool) → Text → Text × Text
span p [] = ([], [])
span p (c ∷ cs) = let (x, y) = span p cs in if p c then (c ∷ x, y) else ([], c ∷ cs)

abbrev in_number : ℕ → Bool
in_number c = is_digit c || c == b'.'

abbrev in_unit : ℕ → Bool
in_unit c = not (is_digit c) && not (is_indent c)

-- `a < b` of two decimal fractions
abbrev less : Decimal → Decimal → Bool
less a b = ltb (a.num * 10 ^ b.scale) (b.num * 10 ^ a.scale)

abbrev is_smaller : Decimal → Option Decimal → Bool
is_smaller m none = true
is_smaller m (some prev) = less m prev

-- The loop takes a byte at least in each round, so the fuel is their number.
unfoldable pub units_from : ℕ → Decimal → Option Decimal → Text → Option Decimal
unfolding trim_indent span duration_unit
units_from fuel total prev [] = some total
units_from zero total prev (c ∷ cs) = none
units_from (suc fuel) total prev (c ∷ cs) = do
  let number = span in_number (trim_indent (c ∷ cs))
  let unit = span in_unit (trim_indent number.1)
  _ ← guard (not (is_nil number.0) && not (is_nil unit.0))
  m ← duration_unit unit.0
  _ ← guard (is_smaller m prev)
  next ← add_decimal total number.0 m
  units_from fuel next (some m) unit.1

unfoldable pub parse_units : Text → Option Decimal
unfolding units_from
parse_units t = units_from (length t) (whole 0) none t

-- "13 days" as its number and its unit
unfoldable pub split_number_and_unit : Text → Option (Text × Text)
unfolding span
split_number_and_unit s =
    let (n, rest) = span in_number s in
    if is_nil n || not (all_digits n) && not (is_decimal n)
    then none
    else some (n, to_lower (trim_space rest))

-- the number of days and what stands behind their comma
unfoldable pub split_leading_days : Text → Option (Text × Text)
unfolding split_number_and_unit
split_leading_days t = do
  (head, tail) ← cut b',' t
  (n, unit) ← split_number_and_unit (trim_space head)
  if same unit (codes "day") || same unit (codes "days") then some (n, trim_space tail) else none

abbrev contains : ℕ → Text → Bool
contains b t = elim (cut b t) [ none ↦ false | some _ ↦ true ]

-- behind the days: nothing, a count of units, or a clock reading
unfoldable pub after_days : Text → Text → Option Decimal
after_days days rest =
    if is_nil rest
    then add_decimal (whole 0) days (whole 86400)
    else if not (contains b':' rest)
    then parse_units (days ++ codes " days " ++ rest)
    else (do
      total ← add_decimal (whole 0) days (whole 86400)
      secs ← parse_clock rest hour_minute
      some (add total secs))

unfoldable pub parse_duration : Text → Layout → Option Decimal
unfolding after_days
parse_duration t layout = elim (split_leading_days t) [
  | some (days, rest) ↦ after_days days rest
  | none ↦ if contains b':' t then parse_clock t layout else parse_units t
]

-- an int64, or the float64 nearest to a fraction
pub data Seconds : Type 0 where
  int : ℕ → Seconds
  float : Decimal → Seconds

-- The limit and the choice of the number's type.
unfoldable pub seconds_of : Decimal → Option Seconds
seconds_of d =
    if ltb (max_seconds * 10 ^ d.scale) d.num
    then none
    else if d.num % 10 ^ d.scale == 0
    then some (int (d.num / 10 ^ d.scale))
    else some (float d)

-- what `Duration` does where `wholeClock` declines
unfoldable pub exact_duration : Text → Layout → Option Seconds
unfolding seconds_of
exact_duration t layout = do d ← parse_duration t layout; seconds_of d

unfoldable pub duration : Text → Layout → Option Seconds
unfolding exact_duration
duration s layout =
    let t = trim_space s in
    if is_nil t
    then none
    else elim (whole_clock t layout) [ some n ↦ some (int n) | none ↦ exact_duration t layout ]
