-- ===== src/Cron/Search.antt =====
-- services/cron.go, nextCronTime: what the minute-by-minute search finds, and that its fuel is enough.
use talepanel.Base.{
  ℕ, zero, suc, pos, ◌+◌, ◌-◌, ◌*◌, ◌/◌, not, ◌&&◌, ◌||◌, ◌<◌, ◌≤◌, ◌≡◌, ap, Bool, true, false,
  some, ltb, Option-cases, Bool-cases, arith, inl, inr, if◌then◌else◌, Text,
}
use talepanel.Store.Tables.{Time, minute}
use talepanel.Cron.Field.{allows}
use talepanel.Cron.Next.{
  Calendar, ok, Schedule, accepts, search_from, first_minute, limit_of, search_fuel, next_match,
  next_cron_time, parse_schedule, day_matches,
}

-- A result of the search is an accepted minute before the limit.
search_from-inv :
    (calendar : Calendar) (s : Schedule) (fuel : ℕ) (t limit u : Time)
    → search_from calendar s fuel t limit ≡ some u
    → (k : ℕ) × (u ≡ t + k * minute) × (u < limit) × (accepts calendar s u ≡ true)
unfolding search_from
search_from-inv calendar s zero t limit u found = ground arith
search_from-inv calendar s (suc fuel) t limit u found = elim (Bool-cases (ltb t limit)) [
  | inr past ↦ ground arith
  | inl before ↦ elim (Bool-cases (accepts calendar s t)) [
    | inl here ↦ (0, ground arith, ground arith, ground arith)
    | inr not_here ↦
        let (k, is_u, early, there) =
          search_from-inv calendar s fuel (t + minute) limit u (ground arith) in
        (suc k, omega (arith, is_u), early, there)
  ]
]

-- The search ends at an accepted minute, if there is one within its fuel and before the limit.
search_from-finds :
    (calendar : Calendar) (s : Schedule) (fuel : ℕ) (t limit : Time) (k : ℕ) (v : Time)
    → v ≡ t + k * minute
    → k < fuel
    → v < limit
    → accepts calendar s v ≡ true
    → (u : Time) × (search_from calendar s fuel t limit ≡ some u) × (u ≤ v)
unfolding search_from
search_from-finds calendar s zero t limit k v is_v enough early there = ground arith
search_from-finds calendar s (suc fuel) t limit zero v is_v enough early there =
    (t, ground (arith, ap (accepts calendar s) is_v), omega (arith, is_v))
search_from-finds calendar s (suc fuel) t limit (suc k) v is_v enough early there =
    let (u, found, least) =
      search_from-finds calendar s fuel (t + minute) limit k v (omega (arith, is_v)) (omega arith)
        early there in
    elim (Bool-cases (accepts calendar s t)) [
      | inl here ↦ (t, ground arith, omega (arith, is_v))
      | inr not_here ↦ (u, ground arith, least)
    ]

-- The usual rule of cron: the month, the hour and the minute are allowed, and so is the day; a day
-- restricted both ways is allowed by either restriction.
abbrev pub is_due : Calendar → Schedule → Time → Bool
is_due calendar s t =
    allows s.months (pos (calendar.month t))
    && allows s.hours (pos (calendar.hour t))
    && allows s.minutes (pos (calendar.minute_of t))
    && (if s.dom_restricted && s.dow_restricted
        then allows s.doms (pos (calendar.day t)) || allows s.dows (pos (calendar.weekday t))
        else (not s.dom_restricted || allows s.doms (pos (calendar.day t)))
          && (not s.dow_restricted || allows s.dows (pos (calendar.weekday t))))

due_rule :
    (month hour minute dom dow both_dom both_dow : Bool)
    → (if not month
        then false
        else (if not (
              if both_dom && both_dow
              then dom || dow
              else (if both_dom then dom else (if both_dow then dow else true)))
            then false
            else hour && minute))
      ≡ (month
          && hour
          && minute
          && (if both_dom && both_dow
              then dom || dow
              else (not both_dom || dom) && (not both_dow || dow)))
due_rule month hour minute dom dow both_dom both_dow = ground arith

accepts-eq-is_due :
    (calendar : Calendar) (s : Schedule) (t : Time) → accepts calendar s t ≡ is_due calendar s t
unfolding accepts day_matches
accepts-eq-is_due calendar s t =
    due_rule (allows s.months (pos (calendar.month t))) (allows s.hours (pos (calendar.hour t)))
      (allows s.minutes (pos (calendar.minute_of t))) (allows s.doms (pos (calendar.day t)))
      (allows s.dows (pos (calendar.weekday t))) s.dom_restricted s.dow_restricted

-- For a schedule that parses, a time that nextCronTime returns lies behind `after` and within 367
-- days of it, is a whole minute, and is due on the schedule.
pub next_cron_time_sound :
    (calendar : Calendar) (expr : Text) (after t : Time) (s : Schedule)
    → parse_schedule expr ≡ ok s
    → next_cron_time calendar expr after ≡ ok t
    → (after < t)
      × (t < after + 367 * 24 * 60 * minute)
      × ((q : ℕ) × (t ≡ q * minute))
      × (is_due calendar s t ≡ true)
unfolding next_cron_time next_match
next_cron_time_sound calendar expr after t s parses found =
    let (k, is_t, early, there) =
      search_from-inv calendar s search_fuel (first_minute after) (limit_of after) t
        (ground (arith, Option-cases (next_match calendar s after))) in
    (
      omega (arith, is_t),
      early,
      (after / minute + 1 + k, omega (arith, is_t)),
      (cc (accepts-eq-is_due calendar s t, there)),
    )

-- For a schedule that parses, if a whole minute behind `after` and within 367 days of it is due, then
-- nextCronTime returns a time that lies behind `after`, is a whole minute, is due and is no later: the
-- first such minute.
pub next_cron_time-finds :
    (calendar : Calendar) (expr : Text) (after v q : ℕ) (s : Schedule)
    → parse_schedule expr ≡ ok s
    → after < v
    → v < after + 367 * 24 * 60 * minute
    → v ≡ q * minute
    → is_due calendar s v ≡ true
    → (t : Time) × (next_cron_time calendar expr after ≡ ok t)
      × (after < t)
      × ((r : ℕ) × (t ≡ r * minute))
      × (is_due calendar s t ≡ true)
      × (t ≤ v)
unfolding next_cron_time next_match
next_cron_time-finds calendar expr after v q s parses later early whole due =
    let (t, found, least) =
      search_from-finds calendar s search_fuel (first_minute after) (limit_of after)
        (q - (after / minute + 1)) v (omega (arith, whole)) (omega (arith, whole)) early
        (cc (accepts-eq-is_due calendar s v, due)) in
    let returned : next_cron_time calendar expr after ≡ ok t = ground arith in
    let (behind, within_, whole_, due_) =
      next_cron_time_sound calendar expr after t s parses returned in
    (t, returned, behind, whole_, due_, least)
