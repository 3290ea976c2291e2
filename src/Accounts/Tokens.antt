-- ===== src/Accounts/Tokens.antt =====
-- The users and tokens of services/auth_service.go: findUserByEmail, findUserByID, signAccessToken,
-- issuePartialToken and issueFullTokens.
use mathlib.Core.Option
use talepanel.Base.{
  ℕ, ◌+◌, ◌*◌, ◌/◌, String, Bool, false, not, ◌&&◌, ◌||◌, ◌==◌, Option, none, some, [], ◌∷◌, ◌++◌,
  str_eq, any, find, update_where, if◌then◌else◌,
}
use talepanel.Store.Tables.{
  Uuid, Time, second, minute, hour, User, without_secret, LoginResult, Session, Tables,
}
use talepanel.Store.Exec.{
  database, user_absent, encryption_failed, signing_failed, Exec, pure, raise, ◌>>=◌, ◌>>◌, gets,
  statement, query, execute, write, attempt, found_or, drawn,
}
use talepanel.Permissions.Service.{known_user}
use talepanel.Accounts.Outside.{
  Outside, JwtClaims, access_key, refresh_key, Draws, Client, citext_eq,
}

abbrev pub access_token_duration : Time
access_token_duration = 15 * minute

abbrev pub refresh_token_duration : Time
refresh_token_duration = 7 * 24 * hour

-- time.Time.Unix
abbrev pub unix : Time → ℕ
unix t = t / second

abbrev pub has_user_id : Uuid → User → Bool
has_user_id id user = user.id == id

-- The foreign key and the unique columns of sessions.
abbrev pub accepts_session : (String → Bool) → Session → Tables → Bool
accepts_session is_inet row db =
    known_user row.user_id db
    && is_inet row.ip_address
    && not (any (λ (s : Session). s.id == row.id || str_eq s.token_hash row.token_hash) db.sessions)

abbrev pub add_session : Session → Tables → Tables
add_session row db = record db { sessions = db.sessions ++ row ∷ [] }

unfoldable pub insert_session : (String → Bool) → Session → Exec Unit
unfolding statement
insert_session is_inet row = do
  statement
  valid ← gets (λ w. accepts_session is_inet row w.db)
  if valid then write (add_session row) else raise database

abbrev pub set_last_login : Time → User → User
set_last_login now user = record user { last_login_at = some now }

-- UPDATE users SET last_login_at = NOW() WHERE id = $1
unfoldable pub touch_login : Uuid → Exec Unit
unfolding execute
touch_login id = do
  now ← gets (λ w. w.db_now)
  execute λ db. record db { users = update_where (has_user_id id) (set_last_login now) db.users }

module _ (lib : Outside) where
  unfoldable pub find_user_by_email : String → Exec (Option User)
  find_user_by_email email =
      query
        λ db. Option.map without_secret (find (λ (u : User). citext_eq lib u.email email) db.users)

  abbrev pub decrypted : User → Option String → Exec User
  decrypted user none = raise encryption_failed
  decrypted user (some secret) = pure (record user { totp_secret = secret })

  abbrev pub with_secret : User → Exec User
  with_secret user =
      if str_eq user.totp_secret ""
      then pure user
      else decrypted user (lib.decrypt user.totp_secret)

  -- `pgx.ErrNoRows` is `user_absent`.
  unfoldable pub find_user_by_id : Uuid → Exec User
  unfolding query
  find_user_by_id id = do
    found ← query (λ db. find (has_user_id id) db.users)
    user ← found_or user_absent found
    with_secret user

  abbrev pub access_claims : User → String → Time → JwtClaims
  access_claims user jti now = record {
    sub = some (lib.uuid_text user.id);
    role = some user.role;
    jti = some jti;
    kind = none;
    iat = some (unix now);
    exp = some (unix (now + access_token_duration));
  }

  unfoldable pub sign_access_token : User → String → Time → Option String
  sign_access_token user jti now = lib.sign access_key (access_claims user jti now)

  abbrev pub partial_claims : Uuid → Time → JwtClaims
  partial_claims user_id now = record {
    sub = some (lib.uuid_text user_id);
    role = none;
    jti = none;
    kind = some "totp_partial";
    iat = none;
    exp = some (unix (now + 5 * minute));
  }

  unfoldable pub issue_partial_token : Uuid → Time → Option String
  issue_partial_token user_id now = lib.sign refresh_key (partial_claims user_id now)

  abbrev pub new_session : User → Client → Draws → String → Time → Time → Session
  new_session user client draws token now db_now = record {
    id = draws.session_id;
    user_id = user.id;
    token_hash = lib.digest token;
    ip_address = client.ip;
    user_agent = client.user_agent;
    created_at = db_now;
    expires_at = now + refresh_token_duration;
    revoked = false;
  }

  abbrev pub full_result : String → String → User → LoginResult
  full_result access_token refresh_token user = record {
    access_token = access_token;
    refresh_token = refresh_token;
    user = some user;
    requires_totp = false;
    partial_token = "";
  }

  -- Whether the last login could be recorded is not looked at.
  unfoldable pub open_session :
      User → Client → Draws → String → String → Time → Time → Exec LoginResult
  unfolding insert_session touch_login attempt
  open_session user client draws access_token token now db_now = do
    insert_session lib.is_inet (new_session user client draws token now db_now)
    _ ← attempt (touch_login user.id)
    pure (full_result access_token token user)

  unfoldable pub issue_full_tokens : User → Client → Draws → Exec LoginResult
  unfolding sign_access_token open_session
  issue_full_tokens user client draws = do
    now ← gets (λ w. w.now)
    access_token ← found_or signing_failed (sign_access_token user draws.jti now)
    token ← drawn draws.refresh_token
    db_now ← gets (λ w. w.db_now)
    open_session user client draws access_token token now db_now
