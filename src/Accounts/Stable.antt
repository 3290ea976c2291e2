-- ===== src/Accounts/Stable.antt =====
-- A property of the tables that each single change of the accounts keeps is kept by every operation,
-- on every branch and whatever statements fail.
use talepanel.Base.{
  ℕ, zero, suc, String, Bool, true, not, ◌==◌, Option, some, none, update_where, ltb, ◌≡◌, refl,
  sym, ap, subst, count_where, ◌*◌, if◌then◌else◌, Bool-cases, inl, inr,
}
use talepanel.Store.Tables.{second, Uuid, Time, User, Session, ActivityLog, LoginResult, Tables}
use talepanel.Store.Exec.{
  Result, ok, err, database, World, RedisValue, flag, login_body, Exec, signing_failed,
  user_inactive, session_expired,
}
use talepanel.Store.Preserve.{
  Preserves, Preserves-pure, Preserves-raise, Preserves-gets, Preserves-statement,
  Preserves-found_or, Preserves-write, Preserves-if, Preserves-bind, Preserves-query,
  Preserves-execute, Preserves-attempt, Preserves-redis_get, Preserves-redis_set,
  Preserves-drawn_bind,
}
use talepanel.Accounts.Outside.{Outside, Draws, Client}
use talepanel.Accounts.Tokens.{
  accepts_session, add_session, insert_session, set_last_login, touch_login, issue_full_tokens,
  sign_access_token, new_session, open_session, full_result,
}
use talepanel.Accounts.Login.{set_revoked}
use talepanel.Accounts.Refresh.{
  Waits, got_body, is_rotating, wait_for, rotated_attempts, rotated_result, claim_session, rotate,
  after_claim, claim_and_rotate, refresh_session, refresh_token, session_with_user, claimable,
  refresh_grace_key, refresh_rotating_key, refresh_grace_period, through_json,
}
use talepanel.Accounts.Register.{accepts_user, add_user}
use talepanel.Accounts.Setup.{add_log}
use talepanel.Accounts.Totp.{update_user}

abbrev pub revoke_where : (Session → Bool) → Tables → Tables
revoke_where chosen db = record db { sessions = update_where chosen set_revoked db.sessions }

-- A change of a user that keeps its key, role and state.
pub record IsHarmless (f : User → User) : Type 0 where
  pub id : (u : User) → (f u).id ≡ u.id
  pub role : (u : User) → (f u).role ≡ u.role
  pub is_active : (u : User) → (f u).is_active ≡ u.is_active

-- `P` is kept by the changes of sessions and the harmless ones of users. `Fresh` is what has to be
-- known of a new refresh token.
pub record Stable (lib : Outside) (Fresh : String → Type 0) (P : Tables → Type 0) : Type 0 where
  pub change_user :
      (id : Uuid) (f : User → User) (db : Tables) → IsHarmless f → P db → P (update_user id f db)
  pub revoke : (chosen : Session → Bool) (db : Tables) → P db → P (revoke_where chosen db)
  pub add :
      (row : Session) (token : String) (db : Tables)
      → row.token_hash ≡ lib.digest token
      → Fresh token
      → P db
      → P (add_session row db)
  pub insert :
      (user : User) (db : Tables) → accepts_user lib user db ≡ true → P db → P (add_user user db)
  pub log : (entry : ActivityLog) (db : Tables) → P db → P (add_log entry db)

abbrev pub FreshDraws : (String → Type 0) → Draws → Type 0
FreshDraws Fresh draws = (token : String) → draws.refresh_token ≡ some token → Fresh token

module _ {P : Tables → Type 0} (waits : Waits)
    (quiet : (n : ℕ) (w : World) → P w.db → P (waits.elapse n w).db) where
  module _ (n : ℕ) (again : Exec LoginResult) (kept : Preserves P again) where
    Preserves-wait_for : Preserves P (wait_for waits n again)
    Preserves-wait_for = record {
      at = λ w h. elim (Bool-cases (waits.cancelled n)) [
        | inl over ↦
            subst P
              (ap (λ b. (if b then (err session_expired, w) else again (waits.elapse n w)).1.db)
                (sym over))
              h
        | inr on ↦
            subst P
              (ap (λ b. (if b then (err session_expired, w) else again (waits.elapse n w)).1.db)
                (sym on))
              (kept.at (waits.elapse n w) (quiet n w h))
      ];
    }

    Preserves-is_rotating :
        (r : Result (Option RedisValue)) → Preserves P (is_rotating waits n again r)
    Preserves-is_rotating (ok (some value)) = Preserves-wait_for
    Preserves-is_rotating (ok none) = Preserves-raise session_expired
    Preserves-is_rotating (err e) = Preserves-raise session_expired

    Preserves-got_body :
        (hash : String) (r : Result (Option RedisValue))
        → Preserves P (got_body waits n again hash r)
    Preserves-got_body hash (err e) = Preserves-raise session_expired
    Preserves-got_body hash (ok (some (login_body result))) = Preserves-pure result
    Preserves-got_body hash (ok (some flag)) = Preserves-raise session_expired
    Preserves-got_body hash (ok none) =
        Preserves-bind (Preserves-attempt (Preserves-redis_get (refresh_rotating_key hash)))
          Preserves-is_rotating

  Preserves-rotated_attempts : (n : ℕ) (hash : String) → Preserves P (rotated_attempts waits n hash)
  unfolding rotated_attempts
  Preserves-rotated_attempts zero hash = Preserves-raise session_expired
  Preserves-rotated_attempts (suc n) hash =
      Preserves-bind (Preserves-attempt (Preserves-redis_get (refresh_grace_key hash))) (
        Preserves-got_body n (rotated_attempts waits n hash) (Preserves-rotated_attempts n hash)
          hash)

  pub Preserves-rotated_result : (hash : String) → Preserves P (rotated_result waits hash)
  unfolding rotated_result
  Preserves-rotated_result hash = Preserves-rotated_attempts 20 hash

module _ (lib : Outside) {Fresh : String → Type 0} {P : Tables → Type 0}
    (stable : Stable lib Fresh P) where
  pub Preserves-touch_login : (id : Uuid) → Preserves P (touch_login id)
  unfolding touch_login
  Preserves-touch_login id = Preserves-bind (Preserves-gets (λ w. w.db_now)) λ now.
      Preserves-execute (update_user id (set_last_login now)) λ db.
        stable.change_user id (set_last_login now) db
          (record { id = λ u. refl; role = λ u. refl; is_active = λ u. refl })

  Preserves-insert_session :
      (row : Session) (token : String)
      → row.token_hash ≡ lib.digest token
      → Fresh token
      → Preserves P (insert_session lib.is_inet row)
  unfolding insert_session
  Preserves-insert_session row token same fresh = Preserves-bind Preserves-statement λ _.
      Preserves-bind (Preserves-gets (λ w. accepts_session lib.is_inet row w.db)) λ valid.
        Preserves-if valid
          (Preserves-write (add_session row) λ db. stable.add row token db same fresh)
          (Preserves-raise database)

  pub Preserves-issue_full_tokens :
      (user : User) (client : Client) (draws : Draws)
      → FreshDraws Fresh draws
      → Preserves P (issue_full_tokens lib user client draws)
  unfolding issue_full_tokens open_session
  Preserves-issue_full_tokens user client draws fresh =
      Preserves-bind (Preserves-gets (λ w. w.now)) λ now.
        Preserves-bind
          (Preserves-found_or signing_failed (sign_access_token lib user draws.jti now))
          λ access_token. Preserves-drawn_bind draws.refresh_token λ token drawn_token.
            Preserves-bind (Preserves-gets (λ w. w.db_now)) λ db_now.
              Preserves-bind
                (Preserves-insert_session (new_session lib user client draws token now db_now) token
                  refl (fresh token drawn_token))
                λ _.
                  Preserves-bind (Preserves-attempt (Preserves-touch_login user.id))
                    λ _. Preserves-pure (full_result lib access_token token user)

  pub Preserves-rotate :
      (hash : String) (user : User) (client : Client) (draws : Draws)
      → FreshDraws Fresh draws
      → Preserves P (rotate lib hash user client draws)
  unfolding rotate
  Preserves-rotate hash user client draws fresh =
      Preserves-bind
        (Preserves-attempt (Preserves-redis_set (refresh_rotating_key hash) flag (5 * second)))
        λ _. Preserves-bind (Preserves-issue_full_tokens user client draws fresh) λ result.
          Preserves-bind
            (Preserves-attempt (
              Preserves-redis_set (refresh_grace_key hash) (login_body (through_json result))
                refresh_grace_period))
            λ _. Preserves-pure result

  Preserves-claim_session : (id : Uuid) → Preserves P (claim_session id)
  unfolding claim_session
  Preserves-claim_session id = Preserves-bind Preserves-statement λ _.
      Preserves-bind (Preserves-gets (λ w. count_where (claimable id) w.db.sessions)) λ affected.
        Preserves-bind
          (Preserves-write (revoke_where (claimable id)) (stable.revoke (claimable id)))
          λ _. Preserves-pure affected

  module _ (waits : Waits) (quiet : (n : ℕ) (w : World) → P w.db → P (waits.elapse n w).db) where
    Preserves-refresh_session :
        (now : Time) (hash : String) (session : Session) (user : User) (client : Client)
        (draws : Draws)
        → FreshDraws Fresh draws
        → Preserves P (refresh_session lib waits now hash session user client draws)
    unfolding refresh_session claim_and_rotate after_claim
    Preserves-refresh_session now hash session user client draws fresh =
        Preserves-if (ltb session.expires_at now) (Preserves-raise session_expired) (
          Preserves-if session.revoked (Preserves-rotated_result waits quiet hash) (
            Preserves-if (not user.is_active) (Preserves-raise user_inactive) (
              Preserves-bind (Preserves-claim_session session.id) λ affected.
                Preserves-if (affected == 0) (Preserves-rotated_result waits quiet hash)
                  (Preserves-rotate hash user client draws fresh))))

    pub Preserves-refresh_token :
        (token : String) (client : Client) (draws : Draws)
        → FreshDraws Fresh draws
        → Preserves P (refresh_token lib waits token client draws)
    unfolding refresh_token
    Preserves-refresh_token token client draws fresh =
        Preserves-bind (Preserves-query (session_with_user (lib.digest token))) λ found.
          Preserves-bind (Preserves-found_or session_expired found) λ joined.
            Preserves-bind (Preserves-gets (λ w. w.now)) λ now.
              Preserves-refresh_session now (lib.digest token) joined.0 joined.1 client draws fresh
