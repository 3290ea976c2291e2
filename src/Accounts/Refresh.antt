-- ===== src/Accounts/Refresh.antt =====
-- RefreshToken and rotatedResult of services/auth_service.go.
use Prim.Native.String.{◌++◌ as str_append}
use talepanel.Base.{
  ℕ, zero, suc, ◌*◌, String, Bool, not, ◌&&◌, ◌==◌, Option, none, some, str_eq, ltb, find,
  count_where, update_where, if◌then◌else◌,
}
use talepanel.Store.Tables.{Uuid, Time, second, User, without_secret, LoginResult, Session, Tables}
use talepanel.Store.Exec.{
  RedisValue, flag, login_body, World, Result, ok, err, session_expired, user_inactive, Exec, pure,
  raise, ◌>>=◌, ◌>>◌, gets, statement, query, write, attempt, found_or,
}
use talepanel.Store.Redis.{redis_get, redis_set}
use talepanel.Accounts.Outside.{Outside, Draws, Client}
use talepanel.Accounts.Tokens.{issue_full_tokens, has_user_id}
use talepanel.Accounts.Login.{set_revoked}

abbrev pub refresh_grace_period : Time
refresh_grace_period = 30 * second

abbrev pub refresh_grace_key : String → String
refresh_grace_key hash = str_append "refresh_grace:" hash

abbrev pub refresh_rotating_key : String → String
refresh_rotating_key hash = str_append "refresh_rotating:" hash

-- What becomes of the world while the n-th attempt waits 100 ms, and whether the request is
-- cancelled then.
pub record Waits : Type 0 where
  pub elapse : ℕ → World → World
  pub cancelled : ℕ → Bool

abbrev without_hash : User → User
without_hash user = record user { password_hash = ""; totp_secret = "" }

abbrev shown_user : Option User → Option User
shown_user none = none
shown_user (some user) = some (without_hash user)

-- json.Marshal and json.Unmarshal: the fields of a user with the tag "-" are lost.
abbrev pub through_json : LoginResult → LoginResult
through_json result = record result { user = shown_user result.user }

-- The rest of an attempt, from the answer of GET on; `again` is the next attempt.
module _ (waits : Waits) (n : ℕ) (again : Exec LoginResult) where
  abbrev pub wait_for : Exec LoginResult
  wait_for w = if waits.cancelled n then (err session_expired, w) else again (waits.elapse n w)

  abbrev pub is_rotating : Result (Option RedisValue) → Exec LoginResult
  is_rotating (ok (some value)) = wait_for
  is_rotating (ok none) = raise session_expired
  is_rotating (err e) = raise session_expired

  abbrev pub got_body : String → Result (Option RedisValue) → Exec LoginResult
  got_body hash (err e) = raise session_expired
  got_body hash (ok (some (login_body result))) = pure result
  got_body hash (ok (some flag)) = raise session_expired
  got_body hash (ok none) = do
    marked ← attempt (redis_get (refresh_rotating_key hash))
    is_rotating marked

unfoldable pub rotated_attempts : Waits → ℕ → String → Exec LoginResult
unfolding attempt redis_get
rotated_attempts waits zero hash = raise session_expired
rotated_attempts waits (suc n) hash = do
  body ← attempt (redis_get (refresh_grace_key hash))
  got_body waits n (rotated_attempts waits n hash) hash body

unfoldable pub rotated_result : Waits → String → Exec LoginResult
unfolding rotated_attempts
rotated_result waits hash = rotated_attempts waits 20 hash

abbrev pub has_token : String → Session → Bool
has_token hash session = str_eq session.token_hash hash

abbrev pub with_user : Tables → Option Session → Option (Session × User)
with_user db none = none
with_user db (some session) = elim (find (has_user_id session.user_id) db.users) [
  | none ↦ none
  | some user ↦ some (session, without_secret user)
]

-- sessions JOIN users WHERE token_hash = $1
abbrev pub session_with_user : String → Tables → Option (Session × User)
session_with_user hash db = with_user db (find (has_token hash) db.sessions)

abbrev pub claimable : Uuid → Session → Bool
claimable id session = session.id == id && not session.revoked

-- UPDATE sessions SET revoked = true WHERE id = $1 AND NOT revoked, and the rows it affects
unfoldable pub claim_session : Uuid → Exec ℕ
unfolding statement
claim_session id = do
  statement
  affected ← gets (λ w. count_where (claimable id) w.db.sessions)
  write λ db. record db { sessions = update_where (claimable id) set_revoked db.sessions }
  pure affected

module _ (lib : Outside) where
  -- The rotation that was claimed. Neither command of Redis has to succeed.
  unfoldable pub rotate : String → User → Client → Draws → Exec LoginResult
  unfolding attempt redis_set
  rotate hash user client draws = do
    _ ← attempt (redis_set (refresh_rotating_key hash) flag (5 * second))
    result ← issue_full_tokens lib user client draws
    _ ←
        attempt (
          redis_set (refresh_grace_key hash) (login_body (through_json result))
            refresh_grace_period)
    pure result

module _ (lib : Outside) (waits : Waits) where
  -- `ct.RowsAffected()` rows were claimed.
  unfoldable pub after_claim : ℕ → String → User → Client → Draws → Exec LoginResult
  after_claim affected hash user client draws =
      if affected == 0 then rotated_result waits hash else rotate lib hash user client draws

  unfoldable pub claim_and_rotate : String → Session → User → Client → Draws → Exec LoginResult
  unfolding claim_session
  claim_and_rotate hash session user client draws = do
    affected ← claim_session session.id
    after_claim affected hash user client draws

  unfoldable pub refresh_session :
      Time → String → Session → User → Client → Draws → Exec LoginResult
  refresh_session now hash session user client draws =
      if ltb session.expires_at now
      then raise session_expired
      else (if session.revoked
          then rotated_result waits hash
          else (if not user.is_active
              then raise user_inactive
              else claim_and_rotate hash session user client draws))

  unfoldable pub refresh_token : String → Client → Draws → Exec LoginResult
  unfolding query refresh_session
  refresh_token token client draws = do
    found ← query (session_with_user (lib.digest token))
    (session, user) ← found_or session_expired found
    now ← gets (λ w. w.now)
    refresh_session now (lib.digest token) session user client draws
