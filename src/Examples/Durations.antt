-- ===== src/Examples/Durations.antt =====
-- Printed lengths of time.
use jsonize.Prelude.{◌≡◌, refl, none, some, codes, lookup, same}
use jsonize.Space.{trim_space}
use jsonize.Duration.Number.{add_decimal, cut, all_digits, value_from, overflows, rounds_to_60}
use jsonize.Duration.Clock.{hour_minute, minute_second, unset, parse_clock}
use jsonize.Duration.Whole.{whole_clock}
use jsonize.Duration.Units.{
  int, duration, exact_duration, parse_duration, split_leading_days, parse_units,
}
use jsonize.Duration.Agree.{whole_clock-exact}
use jsonize.Engine.Split.{cut_records}

whole_runs :
    (whole_clock (codes "3-04:05:06") unset ≡ some 273906)
    × (whole_clock (codes "4:50") minute_second ≡ some 290)
    × (whole_clock (codes "1:23") hour_minute ≡ some 4980)
    × (whole_clock (codes "1:60") unset ≡ none)
unfolding whole_clock cut all_digits value_from
whole_runs = (refl, refl, refl, refl)

whole_clock-exact_example : exact_duration (codes "3-04:05:06") unset ≡ some (int 273906)
whole_clock-exact_example = whole_clock-exact (codes "3-04:05:06") unset 273906 whole_runs.0

duration_runs :
    (duration (codes " 13 days, 4:30 ") unset ≡ some (int 1139400))
    × (duration (codes "1h2m3s") unset ≡ some (int 3723))
    × (duration (codes "13:42m") unset ≡ some (int 49320))
    × (duration (codes "1m2h") unset ≡ none)
unfolding duration parse_duration split_leading_days parse_units parse_clock add_decimal cut_records
    trim_space lookup same whole_clock overflows rounds_to_60
duration_runs = (refl, refl, refl, refl)
