-- ===== src/Accounts/Totp.antt =====
-- SetupTOTP, ConfirmTOTP and DisableTOTP of services/auth_service.go. The key of totp.Generate and
-- the nonce of the encryption are arguments; the QR image is not modelled.
use talepanel.Base.{String, true, false, not, Option, str_eq, update_where, if◌then◌else◌}
use talepanel.Store.Tables.{Uuid, Time, User, Tables}
use talepanel.Store.Exec.{
  totp_already_enabled, totp_not_pending, totp_invalid, invalid_creds, encryption_failed, Exec,
  pure, raise, ◌>>=◌, ◌>>◌, gets, execute, found_or, drawn,
}
use talepanel.Accounts.Outside.{Outside}
use talepanel.Accounts.Tokens.{has_user_id, find_user_by_id}

abbrev pub set_secret : String → User → User
set_secret encrypted user = record user { totp_secret = encrypted; totp_enabled = false }

abbrev pub enable_totp : User → User
enable_totp user = record user { totp_enabled = true }

abbrev pub drop_totp : User → User
drop_totp user = record user { totp_enabled = false; totp_secret = "" }

-- UPDATE users SET ... WHERE id = $1
abbrev pub update_user : Uuid → (User → User) → Tables → Tables
update_user id change db = record db { users = update_where (has_user_id id) change db.users }

module _ (lib : Outside) where
  -- `key` is the secret that totp.Generate drew.
  unfoldable pub store_secret : Uuid → Option String → String → User → Exec String
  unfolding execute
  store_secret user_id key nonce user =
      if user.totp_enabled then raise totp_already_enabled else (do
        secret ← drawn key
        encrypted ← found_or encryption_failed (lib.encrypt nonce secret)
        execute (update_user user_id (set_secret encrypted))
        pure secret)

  -- The secret that the user is shown.
  unfoldable pub setup_totp : Uuid → Option String → String → Exec String
  unfolding find_user_by_id store_secret
  setup_totp user_id key nonce = do
    user ← find_user_by_id lib user_id
    store_secret user_id key nonce user

  unfoldable pub confirm_user : Uuid → String → Time → User → Exec Unit
  unfolding execute
  confirm_user user_id code now user =
      if user.totp_enabled
      then raise totp_already_enabled
      else (if str_eq user.totp_secret ""
          then raise totp_not_pending
          else (if not (lib.validate_totp code user.totp_secret now)
              then raise totp_invalid
              else execute (update_user user_id enable_totp)))

  unfoldable pub confirm_totp : Uuid → String → Exec Unit
  unfolding find_user_by_id confirm_user
  confirm_totp user_id code = do
    user ← find_user_by_id lib user_id
    now ← gets (λ w. w.now)
    confirm_user user_id code now user

  unfoldable pub disable_totp : Uuid → String → Exec Unit
  unfolding find_user_by_id execute
  disable_totp user_id password = do
    user ← find_user_by_id lib user_id
    if not (lib.compare_password user.password_hash password)
        then raise invalid_creds
        else execute (update_user user_id drop_totp)
