-- ===== src/Cron/Tests.antt =====
-- services/cron.go on concrete expressions.
use talepanel.Base.{
  ℕ, ℤ, pos, ◌+◌, ◌*◌, ◌/◌, ◌%◌, ◌≤◌, ◌<◌, ◌≡◌, refl, true, false, some, List, [], ◌∷◌, codes, Text,
  split, fields, arith, ◌↔◌, all,
}
use talepanel.Store.Tables.{Time, minute}
use talepanel.Cron.Next.{
  Calendar, Schedule, ok, parse_schedule, next_cron_time, next_match, search_from, accepts,
  day_matches,
}
use talepanel.Cron.Search.{next_cron_time_sound, next_cron_time-finds, is_due}
use talepanel.Cron.Exact.{parse_cron_field-exact, Denotes, SomePart, small_step}
use talepanel.Cron.Atoi.{atoi, cut}
use talepanel.Cron.Field.{
  parse_cron_field, allows, parse_part, parse_parts, values, add_int64, field_fuel,
}

list_field :
    parse_cron_field (codes "1,10-30/10") 0 59 ≡ some (pos 1 ∷ pos 10 ∷ pos 20 ∷ pos 30 ∷ [])
unfolding parse_cron_field parse_parts parse_part values add_int64 atoi cut split
list_field = refl

-- A step near 2^63 wraps `v += step` around, so that the field allows a value below its range.
wrapped_field :
    parse_cron_field (codes "5-59/9223372036854775806") 0 59
    ≡ some (pos 5 ∷ ℤ.negsuc 9223372036854775804 ∷ pos 1 ∷ [])
unfolding parse_cron_field parse_parts parse_part values add_int64 atoi cut split
wrapped_field = refl

-- The calendar of UTC in January 1970.
abbrev january : Calendar
january = record {
  month = λ t. 1;
  day = λ t. t / (24 * 60 * minute) + 1;
  weekday = λ t. (t / (24 * 60 * minute) + 4) % 7;
  hour = λ t. t / (60 * minute) % 24;
  minute_of = λ t. t / minute % 60;
}

-- Every second minute of the first four, on Thursdays.
abbrev expression : Text
expression = codes "0-3/2 0 * * 4"

abbrev expected : Schedule
expected = record {
  minutes = pos 0 ∷ pos 2 ∷ [];
  hours = pos 0 ∷ [];
  doms = values field_fuel (pos 1) (pos 31) 1;
  months = values field_fuel (pos 1) (pos 12) 1;
  dows = pos 4 ∷ [];
  dom_restricted = false;
  dow_restricted = true;
}

expression-parses : parse_schedule expression ≡ ok expected
unfolding parse_schedule parse_cron_field parse_parts parse_part values add_int64 atoi cut split
    fields
expression-parses = refl

expression-due : is_due january expected (2 * minute) ≡ true
unfolding values
expression-due = refl

next_cron_time-finds_example :
    (t : Time) × (next_cron_time january expression 5 ≡ ok t)
    × (5 < t)
    × ((r : ℕ) × (t ≡ r * minute))
    × (is_due january expected t ≡ true)
    × (t ≤ 2 * minute)
next_cron_time-finds_example =
    next_cron_time-finds january expression 5 (2 * minute) 2 expected expression-parses
      (omega arith) (omega arith) refl expression-due

expression-next : next_cron_time january expression 5 ≡ ok (2 * minute)
unfolding next_cron_time parse_schedule parse_cron_field parse_parts parse_part values add_int64
    atoi cut split fields next_match search_from accepts day_matches
expression-next = refl

next_cron_time_sound_example :
    (5 < 2 * minute)
    × (2 * minute < 5 + 367 * 24 * 60 * minute)
    × ((q : ℕ) × (2 * minute ≡ q * minute))
    × (is_due january expected (2 * minute) ≡ true)
next_cron_time_sound_example =
    next_cron_time_sound january expression 5 (2 * minute) expected expression-parses
      expression-next

abbrev twenty : List ℤ
twenty = pos 1 ∷ pos 10 ∷ pos 20 ∷ pos 30 ∷ []

small_steps : all (small_step 0 59) (split (codes "1,10-30/10") b',') ≡ true
unfolding parse_part atoi cut split
small_steps = refl

parse_cron_field-exact_example :
    (allows twenty (pos 20) ≡ true)
    ↔ SomePart (Denotes 0 59 (pos 20)) (split (codes "1,10-30/10") b',')
parse_cron_field-exact_example =
    parse_cron_field-exact (codes "1,10-30/10") 0 59 twenty (pos 20) (omega arith) list_field
      small_steps
