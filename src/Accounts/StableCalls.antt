-- ===== src/Accounts/StableCalls.antt =====
-- The operations of a user on an account and its sessions keep what the changes of the tables keep.
use mathlib.Core.Option
use talepanel.Base.{String, not, ◌==◌, Option, some, none, str_eq, find, refl, count_where}
use talepanel.Store.Tables.{Uuid, without_secret, Time, User, Session, Tables}
use talepanel.Store.Exec.{
  execute, flag, signing_failed, invalid_creds, user_inactive, totp_invalid, session_not_found,
  wrong_current_password, hashing_failed, user_absent, encryption_failed, invalid_partial_token,
  totp_already_enabled, totp_not_pending,
}
use talepanel.Store.Preserve.{
  Preserves, Preserves-pure, Preserves-raise, Preserves-lift, Preserves-gets, Preserves-statement,
  Preserves-found_or, Preserves-drawn, Preserves-write, Preserves-if, Preserves-bind,
  Preserves-query, Preserves-execute, Preserves-attempt, Preserves-redis_set,
}
use talepanel.Accounts.Outside.{Outside, Draws, Client, normal_email, citext_eq, refresh_key}
use talepanel.Accounts.Tokens.{
  find_user_by_email, find_user_by_id, with_secret, decrypted, has_user_id, issue_partial_token,
}
use talepanel.Accounts.Login.{
  issue_partial, partial_result, partial_user, blacklist_key, check_user, login, check_code,
  verify_totp, blacklist, revoke_refresh, logout, revoke_token, revoke_sessions_of,
}
use talepanel.Accounts.Refresh.{refresh_token}
use talepanel.Accounts.Totp.{
  update_user, set_secret, enable_totp, drop_totp, store_secret, setup_totp, confirm_user,
  confirm_totp, disable_totp,
}
use talepanel.Accounts.Stable.{
  Stable, FreshDraws, IsHarmless, revoke_where, Preserves-issue_full_tokens,
}
use talepanel.Accounts.Admin.{
  store_password, change_password, set_password, revoke_session, is_session_of,
}
use talepanel.Accounts.Password.{validate_password_for_role}

module _ (lib : Outside) {Fresh : String → Type 0} {P : Tables → Type 0}
    (stable : Stable lib Fresh P) where
  Preserves-with_secret : (user : User) → Preserves P (with_secret lib user)
  Preserves-with_secret user =
      Preserves-if (str_eq user.totp_secret "") (Preserves-pure user)
        (decrypts (lib.decrypt user.totp_secret))
    where
      decrypts : (o : Option String) → Preserves P (decrypted lib user o)
      decrypts none = Preserves-raise encryption_failed
      decrypts (some secret) = Preserves-pure (record user { totp_secret = secret })

  Preserves-find_user_by_id : (id : Uuid) → Preserves P (find_user_by_id lib id)
  unfolding find_user_by_id
  Preserves-find_user_by_id id =
      Preserves-bind (Preserves-query (λ db. find (has_user_id id) db.users))
        λ found. Preserves-bind (Preserves-found_or user_absent found) Preserves-with_secret

  Preserves-update :
      (id : Uuid) (f : User → User) → IsHarmless f → Preserves P (execute (update_user id f))
  Preserves-update id f harmless =
      Preserves-execute (update_user id f) λ db. stable.change_user id f db harmless

  Preserves-issue_partial : (user : User) → Preserves P (issue_partial lib user)
  unfolding issue_partial
  Preserves-issue_partial user = Preserves-bind (Preserves-gets (λ w. w.now)) λ now.
      Preserves-bind (Preserves-found_or signing_failed (issue_partial_token lib user.id now))
        λ token. Preserves-pure (partial_result token)

  module _ (client : Client) (draws : Draws) (fresh : FreshDraws Fresh draws) where
    pub Preserves-login :
        (email password : String) → Preserves P (login lib email password client draws)
    unfolding login check_user find_user_by_email
    Preserves-login email password =
        Preserves-bind
          (Preserves-query (λ db.
            Option.map without_secret
              (find (λ (u : User). citext_eq lib u.email (normal_email lib email)) db.users)))
          λ found. Preserves-bind (Preserves-found_or invalid_creds found) λ user.
            Preserves-if (not (lib.compare_password user.password_hash password))
              (Preserves-raise invalid_creds)
              (Preserves-if (not user.is_active) (Preserves-raise user_inactive) (
                Preserves-if user.totp_enabled (Preserves-issue_partial user)
                  (Preserves-issue_full_tokens lib stable user client draws fresh)))

    pub Preserves-verify_totp :
        (partial_token code : String)
        → Preserves P (verify_totp lib partial_token code client draws)
    unfolding verify_totp check_code
    Preserves-verify_totp partial_token code = Preserves-bind (Preserves-gets (λ w. w.now)) λ now.
        Preserves-bind
          (Preserves-found_or invalid_partial_token
            (partial_user lib (lib.parse_token refresh_key now partial_token)))
          λ user_id. Preserves-bind (Preserves-find_user_by_id user_id) λ user.
            Preserves-if (not user.is_active) (Preserves-raise user_inactive) (
              Preserves-if (not (lib.validate_totp code user.totp_secret now))
                (Preserves-raise totp_invalid)
                (Preserves-issue_full_tokens lib stable user client draws fresh))

  pub Preserves-logout :
      (jti refresh_token : String) (ttl : Time) → Preserves P (logout lib jti refresh_token ttl)
  unfolding logout blacklist revoke_refresh
  Preserves-logout jti refresh_token ttl =
      Preserves-bind
        (Preserves-if (str_eq jti "") (Preserves-pure tt)
          (Preserves-redis_set (blacklist_key jti) flag ttl))
        λ _. Preserves-if (str_eq refresh_token "") (Preserves-pure tt) (
          Preserves-execute (revoke_token (lib.digest refresh_token))
            (stable.revoke (λ (s : Session). str_eq s.token_hash (lib.digest refresh_token))))

  pub Preserves-setup_totp :
      (id : Uuid) (key : Option String) (nonce : String) → Preserves P (setup_totp lib id key nonce)
  unfolding setup_totp store_secret
  Preserves-setup_totp id key nonce = Preserves-bind (Preserves-find_user_by_id id) λ user.
      Preserves-if user.totp_enabled (Preserves-raise totp_already_enabled) (
        Preserves-bind (Preserves-drawn key) λ secret.
          Preserves-bind (Preserves-found_or encryption_failed (lib.encrypt nonce secret))
            λ encrypted.
              Preserves-bind
                (Preserves-update id (set_secret encrypted)
                  (record { id = λ u. refl; role = λ u. refl; is_active = λ u. refl }))
                λ _. Preserves-pure secret)

  pub Preserves-confirm_totp : (id : Uuid) (code : String) → Preserves P (confirm_totp lib id code)
  unfolding confirm_totp confirm_user
  Preserves-confirm_totp id code = Preserves-bind (Preserves-find_user_by_id id) λ user.
      Preserves-bind (Preserves-gets (λ w. w.now)) λ now.
        Preserves-if user.totp_enabled (Preserves-raise totp_already_enabled) (
          Preserves-if (str_eq user.totp_secret "") (Preserves-raise totp_not_pending) (
            Preserves-if (not (lib.validate_totp code user.totp_secret now))
              (Preserves-raise totp_invalid)
              (Preserves-update id enable_totp
                (record { id = λ u. refl; role = λ u. refl; is_active = λ u. refl }))))

  pub Preserves-disable_totp :
      (id : Uuid) (password : String) → Preserves P (disable_totp lib id password)
  unfolding disable_totp
  Preserves-disable_totp id password = Preserves-bind (Preserves-find_user_by_id id) λ user.
      Preserves-if (not (lib.compare_password user.password_hash password))
        (Preserves-raise invalid_creds)
        (Preserves-update id drop_totp
          (record { id = λ u. refl; role = λ u. refl; is_active = λ u. refl }))

  pub Preserves-change_password :
      (id : Uuid) (salt old_password new_password : String)
      → Preserves P (change_password lib id salt old_password new_password)
  unfolding change_password store_password
  Preserves-change_password id salt old_password new_password =
      Preserves-bind (Preserves-find_user_by_id id) λ user.
        Preserves-if (not (lib.compare_password user.password_hash old_password))
          (Preserves-raise wrong_current_password)
          (Preserves-bind (Preserves-lift (validate_password_for_role user.role new_password)) λ _.
            Preserves-bind (Preserves-found_or hashing_failed (lib.hash_password salt new_password))
              λ hash.
                Preserves-bind
                  (Preserves-update id (set_password hash)
                    (record { id = λ u. refl; role = λ u. refl; is_active = λ u. refl }))
                  λ _.
                    Preserves-bind
                      (Preserves-attempt (
                        Preserves-execute (revoke_sessions_of id)
                          (stable.revoke (λ (s : Session). s.user_id == id))))
                      λ _. Preserves-pure tt)

  pub Preserves-revoke_session :
      (user_id session_id : Uuid) → Preserves P (revoke_session user_id session_id)
  unfolding revoke_session
  Preserves-revoke_session user_id session_id = Preserves-bind Preserves-statement λ _.
      Preserves-bind
        (Preserves-gets (λ w. count_where (is_session_of user_id session_id) w.db.sessions))
        λ affected.
          Preserves-bind
            (Preserves-write (revoke_where (is_session_of user_id session_id))
              (stable.revoke (is_session_of user_id session_id)))
            λ _.
              Preserves-if (affected == 0) (Preserves-raise session_not_found) (Preserves-pure tt)
