-- ===== src/Requests/RateLimit.antt =====
-- middleware/ratelimit.go. A counter of Redis is keyed by the client's address and the minute; it
-- does not expire before the minute is over. `lost` says whether the pipeline of a request fails.
use talepanel.Base.{
  ℕ, ◌+◌, ◌-◌, ◌/◌, ◌≤◌, String, Bool, true, false, not, ◌&&◌, ◌||◌, List, [], ◌∷◌, ◌==◌, ltb,
  str_eq, if◌then◌else◌, ◌≡◌, arith, eq_iff, Bool-cases, inl, inr,
}
use talepanel.Store.Tables.{Time, second}
use talepanel.Permissions.Guard.{Outcome, next, abort}

pub record Counter : Type 0 where
  pub ip : String
  pub minute : ℕ
  pub hits : ℕ

abbrev pub is_counter : String → ℕ → Counter → Bool
is_counter ip minute c = str_eq c.ip ip && c.minute == minute

-- INCR: the value of a counter, 0 if it is absent, and the counters with one more.
unfoldable pub hits_of : String → ℕ → List Counter → ℕ
hits_of ip minute [] = 0
hits_of ip minute (c ∷ cs) = if is_counter ip minute c then c.hits else hits_of ip minute cs

unfoldable pub increment : String → ℕ → List Counter → List Counter
increment ip minute [] = record { ip = ip; minute = minute; hits = 1 } ∷ []
increment ip minute (c ∷ cs) =
    if is_counter ip minute c
    then record c { hits = c.hits + 1 } ∷ cs
    else c ∷ increment ip minute cs

-- `now.Unix() / 60`
abbrev pub minute_at : Time → ℕ
minute_at now = now / second / 60

-- localWhitelist
abbrev pub is_whitelisted : String → Bool
is_whitelisted ip = str_eq ip "127.0.0.1" || str_eq ip "::1"

pub record Request : Type 0 where
  pub ip : String
  pub at : Time
  pub lost : Bool

abbrev pub over : ℕ → ℕ → Outcome
over count limit = if ltb limit count then abort 429 else next

unfoldable pub rate_limit : ℕ → Bool → Request → List Counter → Outcome × List Counter
rate_limit limit dev_mode req counters =
    if dev_mode && is_whitelisted req.ip
    then (next, counters)
    else (if req.lost then (next, counters) else (
      over (hits_of req.ip (minute_at req.at) counters + 1) limit,
      increment req.ip (minute_at req.at) counters,
    ))

hits_of-increment :
    (ip other : String) (minute later : ℕ) (counters : List Counter)
    → hits_of other later (increment ip minute counters) ≡ (
        if str_eq ip other && minute == later
        then hits_of ip minute counters + 1
        else hits_of other later counters)
unfolding hits_of increment
hits_of-increment ip other minute later [] = ground arith
hits_of-increment ip other minute later (c ∷ cs) = ground (
  arith,
  hits_of-increment ip other minute later cs,
  eq_iff ip other,
  eq_iff c.ip ip,
  eq_iff c.ip other,
)

abbrev pub passes : Outcome → ℕ
passes next = 1
passes (abort status) = 0

-- The requests of one address in one minute, among others.
abbrev pub is_of : String → ℕ → Request → Bool
is_of ip minute req = str_eq req.ip ip && minute_at req.at == minute

-- How many of them pass, in a run of requests.
abbrev pub passed : ℕ → String → ℕ → List Request → List Counter → ℕ
passed limit ip minute [] counters = 0
passed limit ip minute (req ∷ reqs) counters =
    let (outcome, counters') = rate_limit limit false req counters in
    (if is_of ip minute req && not req.lost then passes outcome else 0)
    + passed limit ip minute reqs counters'

hits_of-rate_limit :
    (limit : ℕ) (req : Request) (ip : String) (minute : ℕ) (counters : List Counter)
    → hits_of ip minute (rate_limit limit false req counters).1 ≡ (
        if is_of ip minute req && not req.lost
        then hits_of ip minute counters + 1
        else hits_of ip minute counters)
unfolding rate_limit
hits_of-rate_limit limit req ip minute counters =
    ground (arith, hits_of-increment req.ip ip (minute_at req.at) minute counters, eq_iff req.ip ip)

rate_limit-passes :
    (limit : ℕ) (req : Request) (ip : String) (minute : ℕ) (counters : List Counter)
    → (is_of ip minute req && not req.lost) ≡ true
    → passes (rate_limit limit false req counters).0
      ≡ (if ltb limit (hits_of ip minute counters + 1) then 0 else 1)
unfolding rate_limit
rate_limit-passes limit req ip minute counters counted = ground (arith, eq_iff req.ip ip)

-- Outside development mode, of all requests of one address in one minute, in whatever order with
-- others, at most `limit` pass beyond those already counted, those aside whose Redis call fails.
pub passed_bound :
    (limit : ℕ) (ip : String) (minute : ℕ) (reqs : List Request) (counters : List Counter)
    → passed limit ip minute reqs counters ≤ limit - hits_of ip minute counters
passed_bound limit ip minute [] counters = omega arith
passed_bound limit ip minute (req ∷ reqs) counters =
    let rest = passed_bound limit ip minute reqs (rate_limit limit false req counters).1 in
    let after = hits_of-rate_limit limit req ip minute counters in
    elim (Bool-cases (is_of ip minute req && not req.lost)) [
      | inl counted ↦
          ground
            (arith, rest, after, counted, rate_limit-passes limit req ip minute counters counted)
      | inr other ↦ ground (arith, rest, after, other)
    ]
