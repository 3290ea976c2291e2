-- ===== src/Accounts/Login.antt =====
-- Login, VerifyTOTP and Logout of services/auth_service.go.
use Prim.Native.String.{◌++◌ as str_append}
use talepanel.Base.{
  String, not, ◌==◌, true, Option, none, some, str_eq, update_where, if◌then◌else◌,
}
use talepanel.Store.Tables.{Uuid, Time, User, LoginResult, Session, Tables}
use talepanel.Store.Exec.{
  invalid_creds, user_inactive, signing_failed, invalid_partial_token, totp_invalid, Exec, pure,
  raise, flag, ◌>>=◌, ◌>>◌, gets, query, execute, found_or,
}
use talepanel.Store.Redis.{redis_set}
use talepanel.Accounts.Outside.{Outside, JwtClaims, refresh_key, Draws, Client, normal_email}
use talepanel.Accounts.Tokens.{
  find_user_by_email, find_user_by_id, issue_partial_token, issue_full_tokens,
}

abbrev pub partial_result : String → LoginResult
partial_result token = record {
  access_token = "";
  refresh_token = "";
  user = none;
  requires_totp = true;
  partial_token = token;
}

abbrev pub set_revoked : Session → Session
set_revoked session = record session { revoked = true }

-- UPDATE sessions SET revoked = true WHERE user_id = $1
abbrev pub revoke_sessions_of : Uuid → Tables → Tables
revoke_sessions_of user_id db = record db {
  sessions = update_where (λ (s : Session). s.user_id == user_id) set_revoked db.sessions;
}

-- UPDATE sessions SET revoked = true WHERE token_hash = $1
abbrev pub revoke_token : String → Tables → Tables
revoke_token hash db = record db {
  sessions = update_where (λ (s : Session). str_eq s.token_hash hash) set_revoked db.sessions;
}

-- The key of the blacklist that AuthRequired looks up.
abbrev pub blacklist_key : String → String
blacklist_key jti = str_append "blacklist:" jti

unfoldable pub blacklist : String → Time → Exec Unit
blacklist jti remaining_ttl =
    if str_eq jti "" then pure tt else redis_set (blacklist_key jti) flag remaining_ttl

module _ (lib : Outside) where
  unfoldable pub issue_partial : User → Exec LoginResult
  unfolding issue_partial_token
  issue_partial user = do
    now ← gets (λ w. w.now)
    token ← found_or signing_failed (issue_partial_token lib user.id now)
    pure (partial_result token)

  -- The user with this email, its password and its state.
  unfoldable pub check_user : User → String → Client → Draws → Exec LoginResult
  check_user user password client draws =
      if not (lib.compare_password user.password_hash password)
      then raise invalid_creds
      else (if not user.is_active
          then raise user_inactive
          else (if user.totp_enabled
              then issue_partial user
              else issue_full_tokens lib user client draws))

  unfoldable pub login : String → String → Client → Draws → Exec LoginResult
  unfolding find_user_by_email query
  login email password client draws = do
    found ← find_user_by_email lib (normal_email lib email)
    user ← found_or invalid_creds found
    check_user user password client draws

  -- The user that a partial token is for: `claims["type"]`, the subject and its UUID.
  abbrev pub subject_of : Option String → Option Uuid
  subject_of none = none
  subject_of (some sub) = lib.parse_uuid sub

  abbrev pub is_partial : Option String → Option Uuid → Option Uuid
  is_partial none sub = none
  is_partial (some kind) sub = if str_eq kind "totp_partial" then sub else none

  abbrev pub partial_user : Option JwtClaims → Option Uuid
  partial_user none = none
  partial_user (some claims) = is_partial claims.kind (subject_of claims.sub)

  unfoldable pub check_code : User → String → Time → Client → Draws → Exec LoginResult
  check_code user code now client draws =
      if not user.is_active
      then raise user_inactive
      else (if not (lib.validate_totp code user.totp_secret now)
          then raise totp_invalid
          else issue_full_tokens lib user client draws)

  unfoldable pub verify_totp : String → String → Client → Draws → Exec LoginResult
  unfolding find_user_by_id query
  verify_totp partial_token code client draws = do
    now ← gets (λ w. w.now)
    user_id ←
        found_or invalid_partial_token
          (partial_user (lib.parse_token refresh_key now partial_token))
    user ← find_user_by_id lib user_id
    check_code user code now client draws

  unfoldable pub revoke_refresh : String → Exec Unit
  unfolding execute
  revoke_refresh refresh_token =
      if str_eq refresh_token "" then pure tt else execute (revoke_token (lib.digest refresh_token))

  unfoldable pub logout : String → String → Time → Exec Unit
  unfolding blacklist revoke_refresh
  logout jti refresh_token remaining_ttl = do
    blacklist jti remaining_ttl
    revoke_refresh refresh_token
