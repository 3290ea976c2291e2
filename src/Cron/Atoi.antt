-- ===== src/Cron/Atoi.antt =====
-- strconv.Atoi and strings.Index, as the parser of cron fields uses them.
use talepanel.Base.{
  ℕ, zero, suc, ℤ, pos, negsuc, ◌+◌, ◌-◌, ◌*◌, ◌&&◌, Option, none, some, [], ◌∷◌, leb, ◌==◌,
  if◌then◌else◌, Text,
}

-- The value of decimal digits behind those already read.
value_from : ℕ → Text → Option ℕ
value_from acc [] = some acc
value_from acc (c ∷ s) =
    if leb b'0' c && leb c b'9' then value_from (acc * 10 + (c - b'0')) s else none

abbrev digits : Text → Option ℕ
digits [] = none
digits (c ∷ s) = value_from 0 (c ∷ s)

abbrev int_max : ℕ
int_max = 9223372036854775807

abbrev positive : Option ℕ → Option ℤ
positive none = none
positive (some n) = if leb n int_max then some (pos n) else none

abbrev negated : ℕ → ℤ
negated zero = pos 0
negated (suc n) = negsuc n

abbrev negative : Option ℕ → Option ℤ
negative none = none
negative (some n) = if leb n (int_max + 1) then some (negated n) else none

-- `strconv.Atoi`: an optional sign, then decimal digits, within an int64.
unfoldable pub atoi : Text → Option ℤ
unfolding value_from
atoi [] = none
atoi (c ∷ s) =
    if c == b'-'
    then negative (digits s)
    else (if c == b'+' then positive (digits s) else positive (digits (c ∷ s)))

abbrev behind : ℕ → Option (Text × Text) → Option (Text × Text)
behind c none = none
behind c (some (before, after)) = some (c ∷ before, after)

-- The text before and after the first `sep`, if there is one.
unfoldable pub cut : ℕ → Text → Option (Text × Text)
cut sep [] = none
cut sep (c ∷ s) = if c == sep then some ([], s) else behind c (cut sep s)
