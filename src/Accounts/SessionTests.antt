-- ===== src/Accounts/SessionTests.antt =====
-- Sessions on a small database: renewing, signing out, changing the password.
use talepanel.Base.{
  String, true, false, ◌≡◌, ◌≢◌, ◌==◌, refl, arith, some, [], ◌∷◌, find, str_eq, all, not, ◌||◌, ap,
  some_inj, ◌∙◌, ◌*◌,
}
use talepanel.Store.Tables.{User, Session, second}
use talepanel.Store.Exec.{World, ok, statement, query, execute, attempt}
use talepanel.Store.Redis.{redis_get, redis_set}
use talepanel.Store.Sample.{calm, sample, alice}
use talepanel.Accounts.Password.{validate_password_for_role, rune_count, has_digit, has_symbol}
use talepanel.Accounts.Tokens.{
  has_user_id, find_user_by_id, full_result, sign_access_token, insert_session, touch_login,
  open_session, issue_full_tokens,
}
use talepanel.Accounts.Login.{blacklist, revoke_refresh, logout}
use talepanel.Accounts.Refresh.{
  Waits, claim_session, rotate, after_claim, claim_and_rotate, refresh_session, refresh_token,
}
use talepanel.Accounts.Totp.{update_user}
use talepanel.Accounts.Admin.{set_password, store_password, change_password}
use talepanel.Accounts.Calls.{run_calls}
use talepanel.Accounts.Revoked.{rotated_once, logged_out_refused}
use talepanel.Accounts.PasswordChange.{change_password_revokes, change_password_keeps_sessions}
use talepanel.Accounts.Renewal.{issued_token_renews}
use talepanel.Accounts.Tests.{plain, client, first, next, attacks}

abbrev others_pause : Waits
others_pause = record { elapse = λ n w. w; cancelled = λ n. true }

-- Alice is signed in with the refresh token t1.
abbrev alice_session : Session
alice_session = record {
  id = 100;
  user_id = 2;
  token_hash = "t1";
  ip_address = "10.0.0.1";
  user_agent = "browser";
  created_at = 1000;
  expires_at = 90000;
  revoked = false;
}

abbrev open_world : World
open_world = record calm { db = record sample { sessions = alice_session ∷ [] } }

renewed :
    (refresh_token plain others_pause "t1" client next open_world).0
    ≡ ok (full_result plain "signed" "t2" alice)
unfolding refresh_token refresh_session claim_and_rotate after_claim claim_session rotate redis_set
    redis_get issue_full_tokens open_session sign_access_token insert_session touch_login query
    execute attempt statement
renewed = refl

another :
    (token : String) → next.refresh_token ≡ some token → plain.digest token ≢ plain.digest "t1"
another token drawn_token same =
    let here : some "t2" ≡ some token = drawn_token in
    let clash : false ≡ true = ap (λ t. str_eq t "t1") (some_inj here ∙ same) in
    ground (arith, clash)

rotated_once_example :
    (refresh_token plain others_pause "t1" client next (
      run_calls plain attacks
        (refresh_token plain others_pause "t1" client next open_world).1)).1.db
    ≡ (run_calls plain attacks (refresh_token plain others_pause "t1" client next open_world).1).db
rotated_once_example =
    rotated_once plain others_pause others_pause "t1" client client next next attacks open_world
      (full_result plain "signed" "t2" alice) (λ n v. refl) (λ n v. refl) another
      (tt, (tt, (tt, tt))) refl renewed

signed_out : (logout plain "j1" "t1" 60 open_world).0 ≡ ok tt
unfolding logout blacklist revoke_refresh redis_set execute statement
signed_out = refl

abbrev signed_out_world : World
signed_out_world = (logout plain "j1" "t1" 60 open_world).1

logged_out_refused_example :
    (refresh_token plain others_pause "t1" client next signed_out_world).0
    ≢ ok (full_result plain "signed" "t2" alice)
unfolding logout blacklist revoke_refresh redis_set execute statement
logged_out_refused_example =
    logged_out_refused plain others_pause "j1" "t1" 60 client next open_world signed_out_world
      (full_result plain "signed" "t2" alice) refl signed_out refl refl refl

password_changed :
    (change_password plain 2 "salt" "alice-password" "new-password" open_world).0 ≡ ok tt
unfolding change_password store_password find_user_by_id validate_password_for_role rune_count
    has_digit has_symbol query execute attempt statement
password_changed = refl

change_password_revokes_example :
    (all
        (λ (s : Session). not (s.user_id == 2) || s.revoked)
        (change_password plain 2 "salt" "alice-password" "new-password" open_world).1.db.sessions
      ≡ true)
    × ((stored : User) × (find (has_user_id 2) open_world.db.users ≡ some stored)
        × (plain.compare_password stored.password_hash "alice-password" ≡ true)
        × (validate_password_for_role stored.role "new-password" ≡ ok tt))
change_password_revokes_example =
    change_password_revokes plain 2 "salt" "alice-password" "new-password" open_world
      (record { at_call = λ n. refl }) password_changed

-- The third statement fails, the one that revokes the sessions.
abbrev third_lost : World
third_lost = record open_world { faults = λ n. n == 2 }

change_password_keeps_sessions_example :
    ((change_password plain 2 "salt" "alice-password" "new-password" third_lost).0 ≡ ok tt)
    × ((change_password plain 2 "salt" "alice-password" "new-password" third_lost).1.db
        ≡ update_user 2 (set_password "new-password") third_lost.db)
    × ((change_password plain 2 "salt" "alice-password" "new-password" third_lost).1.db.sessions
        ≡ third_lost.db.sessions)
unfolding validate_password_for_role rune_count has_digit has_symbol
change_password_keeps_sessions_example =
    change_password_keeps_sessions plain 2 "salt" "alice-password" "new-password" third_lost alice
      alice "new-password" refl refl refl refl refl refl refl refl

issued :
    (issue_full_tokens plain alice client first calm).0 ≡ ok (full_result plain "signed" "t1" alice)
unfolding issue_full_tokens open_session sign_access_token insert_session touch_login execute
    attempt statement
issued = refl

abbrev next_day : World
next_day = record (issue_full_tokens plain alice client first calm).1 { now = 86400 * second }

issued_token_renews_example :
    (refresh_token plain others_pause "t1" client next next_day).0
    ≡ ok (full_result plain "signed" "t2" (record alice { last_login_at = some 1000 }))
unfolding issue_full_tokens open_session sign_access_token insert_session touch_login execute
    attempt statement
issued_token_renews_example =
    issued_token_renews plain client client first next others_pause alice
      (record alice { last_login_at = some 1000 }) calm next_day
      (full_result plain "signed" "t1" alice) "signed" "t2" issued (record { at_call = λ n. refl })
      refl (omega arith) refl refl
      (record { drawn_token = refl; signed = refl; known = refl; inet = refl; fresh = refl })
