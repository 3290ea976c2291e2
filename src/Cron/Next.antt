-- ===== src/Cron/Next.antt =====
-- nextCronTime. A time is in nanoseconds since the Unix epoch; `calendar` reads it in the time's
-- location, which is the environment's.
use talepanel.Base.{
  ℕ, zero, suc, ℤ, pos, ◌+◌, ◌*◌, ◌/◌, Bool, true, false, not, ◌&&◌, ◌||◌, Option, none, some, List,
  [], ◌∷◌, ltb, if◌then◌else◌, Text, codes, text_eq, fields,
}
use talepanel.Store.Tables.{Time, minute}
use talepanel.Cron.Field.{parse_cron_field, allows}

-- `t.Month()`, `t.Day()`, `t.Weekday()` with 0 for Sunday, `t.Hour()`, `t.Minute()`.
pub record Calendar : Type 0 where
  pub month : Time → ℕ
  pub day : Time → ℕ
  pub weekday : Time → ℕ
  pub hour : Time → ℕ
  pub minute_of : Time → ℕ

pub data CronError : Type 0 where
  wrong_fields bad_minute bad_hour bad_day_of_month bad_month bad_day_of_week no_match : CronError

pub data Parsed (A : Type 0) : Type 0 where
  ok : A → Parsed A
  bad : CronError → Parsed A

infixl 5 ◌>>=◌
abbrev pub ◌>>=◌ : {A B : Type 0} → Parsed A → (A → Parsed B) → Parsed B
ok a >>= f = f a
bad e >>= f = bad e

abbrev or_bad : {A : Type 0} → CronError → Option A → Parsed A
or_bad e none = bad e
or_bad e (some a) = ok a

pub record Schedule : Type 0 where
  pub minutes : List ℤ
  pub hours : List ℤ
  pub doms : List ℤ
  pub months : List ℤ
  pub dows : List ℤ
  pub dom_restricted : Bool
  pub dow_restricted : Bool

-- `if dow[7] { dow[0] = true }`
abbrev pub with_sunday : List ℤ → List ℤ
with_sunday dow = if allows dow (pos 7) then pos 0 ∷ dow else dow

abbrev parse_five : Text → Text → Text → Text → Text → Parsed Schedule
parse_five f0 f1 f2 f3 f4 = do
  minutes ← or_bad bad_minute (parse_cron_field f0 0 59)
  hours ← or_bad bad_hour (parse_cron_field f1 0 23)
  doms ← or_bad bad_day_of_month (parse_cron_field f2 1 31)
  months ← or_bad bad_month (parse_cron_field f3 1 12)
  dows ← or_bad bad_day_of_week (parse_cron_field f4 0 7)
  ok (record {
    minutes = minutes;
    hours = hours;
    doms = doms;
    months = months;
    dows = with_sunday dows;
    dom_restricted = not (text_eq f2 (codes "*"));
    dow_restricted = not (text_eq f4 (codes "*"));
  })

abbrev parse_fields : List Text → Parsed Schedule
parse_fields (f0 ∷ f1 ∷ f2 ∷ f3 ∷ f4 ∷ []) = parse_five f0 f1 f2 f3 f4
parse_fields _ = bad wrong_fields

unfoldable pub parse_schedule : Text → Parsed Schedule
unfolding parse_cron_field fields
parse_schedule expr = parse_fields (fields expr)

unfoldable pub day_matches : Calendar → Schedule → Time → Bool
day_matches calendar s t =
    let d_match = allows s.doms (pos (calendar.day t)) in
    let w_match = allows s.dows (pos (calendar.weekday t)) in
    if s.dom_restricted && s.dow_restricted
    then d_match || w_match
    else (if s.dom_restricted then d_match else (if s.dow_restricted then w_match else true))

-- The tests of one round, with a `continue` for each that fails.
unfoldable pub accepts : Calendar → Schedule → Time → Bool
unfolding day_matches
accepts calendar s t =
    if not (allows s.months (pos (calendar.month t)))
    then false
    else (if not (day_matches calendar s t)
        then false
        else allows s.hours (pos (calendar.hour t))
          && allows s.minutes (pos (calendar.minute_of t)))

-- `for t.Before(limit)`, at most `fuel` rounds.
unfoldable pub search_from : Calendar → Schedule → ℕ → Time → Time → Option Time
unfolding accepts
search_from calendar s zero t limit = none
search_from calendar s (suc fuel) t limit =
    let rest = search_from calendar s fuel (t + minute) limit in
    if ltb t limit then (if accepts calendar s t then some t else rest) else none

-- `after.Truncate(time.Minute).Add(time.Minute)`, `after.Add(367 * 24 * time.Hour)`, and the minutes
-- between them.
abbrev pub first_minute : Time → Time
first_minute after = after / minute * minute + minute

abbrev pub limit_of : Time → Time
limit_of after = after + 367 * 24 * 60 * minute

abbrev pub search_fuel : ℕ
search_fuel = 528481

unfoldable pub next_match : Calendar → Schedule → Time → Option Time
next_match calendar s after =
    search_from calendar s search_fuel (first_minute after) (limit_of after)

abbrev matched : Option Time → Parsed Time
matched none = bad no_match
matched (some t) = ok t

unfoldable pub next_cron_time : Calendar → Text → Time → Parsed Time
unfolding parse_schedule
next_cron_time calendar expr after = do
  s ← parse_schedule expr
  matched (next_match calendar s after)
