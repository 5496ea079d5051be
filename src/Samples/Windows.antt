-- ===== src/Samples/Windows.antt =====
-- A window that opens at 02:30 on the first of January and on Sundays, for one hour.
use maintenance_orchestrator.Prelude.{
  ℕ, ◌+◌, ◌*◌, ◌/◌, ◌%◌, ◌≡◌, refl, ◌↔◌, leb, ℤ, pos, negsuc, Bool, true, false, Option, none, List,
  [], ◌∷◌, All, arith,
}
use maintenance_orchestrator.Api.Spec.{Window}
use maintenance_orchestrator.Window.Cron.{
  Schedule, CalendarFields, parsed, invalid, out_of_range, parse_cron, parse_field, range_values,
  has_value,
}
use maintenance_orchestrator.Window.Ranges.{InRange, range_values_lem}
use maintenance_orchestrator.Window.Openings.{
  Zones, answer, max_lookahead_minutes, minute, location, is_open, next_open, found_or, no_opening,
}
use maintenance_orchestrator.Window.Openness.{OpenedAgo, IsNext, is_open_lem, next_open_lem}

abbrev window : Window
window = record { cron = "30 2 1 1 0"; duration = pos 3600000000000; time_zone = "" }

abbrev schedule : Schedule
schedule = record {
  minutes = pos 30 ∷ [];
  hours = pos 2 ∷ [];
  doms = pos 1 ∷ [];
  months = pos 1 ∷ [];
  dows = pos 0 ∷ [];
  dom_star = false;
  dow_star = false;
}

-- A calendar of one endless month.
abbrev calendar : ℤ → CalendarFields
calendar (pos m) = record {
  minute = m % 60;
  hour = m / 60 % 24;
  day = 1 + m / 1440;
  month = 1;
  weekday = (m / 1440 + 1) % 7;
}
calendar (negsuc m) = record { minute = 0; hour = 0; day = 1; month = 1; weekday = 0 }

abbrev zones : Zones
zones = record { utc = calendar; load = λ tz. none }

-- 03:00 on the first day.
abbrev now : ℕ
now = 180 * minute

parses : parse_cron window.cron ≡ parsed schedule
unfolding parse_cron
parses = refl

steps : parse_field "1-9/4,3" (pos 0) (pos 59) ≡ parsed (pos 1 ∷ pos 5 ∷ pos 9 ∷ pos 3 ∷ [])
unfolding parse_field
steps = refl

past_the_end : parse_field "7/2,60" (pos 0) (pos 10) ≡ invalid (out_of_range "60" (pos 0) (pos 10))
unfolding parse_field
past_the_end = refl

is_open_lem_example :
    (b : Bool) × (is_open zones window now ≡ answer b)
    × ((b ≡ true) ↔ ((j : ℕ) × OpenedAgo schedule calendar now 3600000000000 j))
unfolding location
is_open_lem_example =
    is_open_lem zones window now 3600000000000 schedule calendar parses refl refl (omega arith)

next_open_lem_example :
    (o : Option ℕ) × (next_open zones window now ≡ found_or (no_opening window.cron) o)
    × IsNext schedule calendar now max_lookahead_minutes (now / minute + 1) 200 o
unfolding location
next_open_lem_example = next_open_lem zones window now 200 schedule calendar parses refl

range_values_lem_example :
    All (InRange 9 23 2) (range_values 128 (pos 9) (pos 23) (pos 2))
    × (has_value (9 + 3 * 2) (range_values 128 (pos 9) (pos 23) (pos 2)) ≡ leb (9 + 3 * 2) 23)
range_values_lem_example = range_values_lem 9 23 2 3 (omega arith) (omega arith) (omega arith)

-- A huge step wraps: "5/9223372036854775807" also holds 3 and 1.
wrapped :
    (vs : List ℤ) × (parse_field "5/9223372036854775807" (pos 0) (pos 59) ≡ parsed vs)
    × (has_value 3 vs ≡ true)
unfolding parse_field has_value
wrapped = (_, refl, refl)
