-- ===== src/Cron/Field.antt =====
-- parseCronField. The set that a field allows is the list of the keys that the loop writes.
use talepanel.Base.{
  ℕ, zero, suc, ℤ, pos, negsuc, ltb_ℤ, eqb_ℤ, pos_part, ◌+◌, ◌-◌, Bool, ◌||◌, Option, none, some,
  List, [], ◌∷◌, ◌++◌, leb, ltb, if◌then◌else◌, Text, codes, text_eq, split, any,
}
use talepanel.Cron.Atoi.{atoi, cut}

-- `v + step` in 64 bits, for a positive step.
unfoldable pub add_int64 : ℤ → ℕ → ℤ
add_int64 (pos n) step =
    if ltb (n + step) 9223372036854775808
    then pos (n + step)
    else negsuc (18446744073709551616 - (n + step) - 1)
add_int64 (negsuc m) step = if leb step m then negsuc (m - step) else pos (step - m - 1)

-- `for v := lo; v <= hi; v += step`, at most `fuel` rounds: the values of v.
unfoldable pub values : ℕ → ℤ → ℤ → ℕ → List ℤ
unfolding add_int64
values zero v hi step = []
values (suc fuel) v hi step =
    let rest = values fuel (add_int64 v step) hi step in if ltb_ℤ hi v then [] else v ∷ rest

-- More rounds than any field makes.
abbrev pub field_fuel : ℕ
field_fuel = 128

-- The bounds and the step of one part of a field.
pub record Span : Type 0 where
  pub lo : ℤ
  pub hi : ℤ
  pub step : ℕ

abbrev pub positive_step : Option ℤ → Option ℕ
positive_step none = none
positive_step (some s) = if ltb_ℤ s (pos 1) then none else some (pos_part s)

-- What stands before a "/", and the step.
abbrev pub stepped : Text → Option (Text × Text) → Option (Text × ℕ)
stepped part none = some (part, 1)
stepped part (some (range_part, after)) = elim (positive_step (atoi after)) [
  | none ↦ none
  | some step ↦ some (range_part, step)
]

abbrev both : Option ℤ → Option ℤ → Option (ℤ × ℤ)
both (some a) (some b) = some (a, b)
both (some a) none = none
both none b = none

abbrev value_or_range : Text → Option (Text × Text) → Option (ℤ × ℤ)
value_or_range range_part (some (a, b)) = both (atoi a) (atoi b)
value_or_range range_part none = elim (atoi range_part) [ none ↦ none | some v ↦ some (v, v) ]

abbrev pub bounds : ℕ → ℕ → Text → Option (ℤ × ℤ)
bounds min max range_part =
    if text_eq range_part (codes "*")
    then some (pos min, pos max)
    else value_or_range range_part (cut b'-' range_part)

abbrev pub in_range : ℕ → ℕ → ℕ → Option (ℤ × ℤ) → Option Span
in_range min max step none = none
in_range min max step (some (lo, hi)) =
    if ltb_ℤ lo (pos min) || ltb_ℤ (pos max) hi || ltb_ℤ hi lo
    then none
    else some (record { lo = lo; hi = hi; step = step })

abbrev pub spanned : ℕ → ℕ → Option (Text × ℕ) → Option Span
spanned min max none = none
spanned min max (some (range_part, step)) = in_range min max step (bounds min max range_part)

-- One part of a field.
unfoldable pub parse_part : ℕ → ℕ → Text → Option Span
unfolding atoi cut
parse_part min max part = spanned min max (stepped part (cut b'/' part))

abbrev pub span_values : Span → List ℤ
span_values s = values field_fuel s.lo s.hi s.step

abbrev joined : Option Span → Option (List ℤ) → Option (List ℤ)
joined none rest = none
joined (some s) none = none
joined (some s) (some vs) = some (span_values s ++ vs)

unfoldable pub parse_parts : ℕ → ℕ → List Text → Option (List ℤ)
unfolding parse_part values
parse_parts min max [] = some []
parse_parts min max (part ∷ parts) = joined (parse_part min max part) (parse_parts min max parts)

unfoldable pub parse_cron_field : Text → ℕ → ℕ → Option (List ℤ)
unfolding parse_parts split
parse_cron_field field min max = parse_parts min max (split field b',')

-- `out[v]`
abbrev pub allows : List ℤ → ℤ → Bool
allows set v = any (eqb_ℤ v) set
