-- ===== src/Duration/Whole.antt =====
-- pkg/convert/convert.go, `wholeClock` and `smallWhole`: the clock readings whose parts are all whole.
use jsonize.Prelude.{
  ℕ, ◌+◌, ◌*◌, ◌^◌, Bool, true, false, not, ◌||◌, Option, none, some, Text, ltb, if◌then◌else◌,
  length,
}
use jsonize.Duration.Number.{all_digits, is_nil, cut, value}
use jsonize.Duration.Clock.{Layout, hour_minute, ◌>>=◌}

abbrev pub guard : Bool → Option (Unit {0})
guard true = some tt
guard false = none

-- one to twelve digits, which `strconv.ParseInt` reads
unfoldable pub small_whole : Text → Option ℕ
small_whole s = if is_nil s || ltb 12 (length s) || not (all_digits s) then none else some (value s)

-- `1 << 53`
abbrev pub max_seconds : ℕ
max_seconds = 2 ^ 53

unfoldable pub two_parts : Layout → ℕ → ℕ → ℕ
two_parts hour_minute a b = a * 3600 + b * 60
two_parts _ a b = a * 60 + b

-- the parts behind the days
unfoldable pub whole_parts : Text → Layout → Option ℕ
unfolding small_whole two_parts
whole_parts t layout = do
  (first, rest) ← cut b':' t
  a ← small_whole first
  elim (cut b':' rest) [
    | none ↦ (do b ← small_whole rest; _ ← guard (ltb b 60); some (two_parts layout a b))
    | some (second, third) ↦ (do
      b ← small_whole second
      _ ← guard (ltb b 60)
      c ← small_whole third
      _ ← guard (ltb c 60)
      some (a * 3600 + b * 60 + c))
  ]

abbrev pub within_limit : ℕ → Option ℕ
within_limit secs = if ltb max_seconds secs then none else some secs

unfoldable pub whole_clock : Text → Layout → Option ℕ
unfolding whole_parts
whole_clock t layout = elim (cut b'-' t) [
  | none ↦ (do secs ← whole_parts t layout; within_limit secs)
  | some (d, rest) ↦ (do
    days ← small_whole d
    secs ← whole_parts rest layout
    within_limit (secs + days * 86400))
]
