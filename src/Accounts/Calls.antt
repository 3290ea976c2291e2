-- ===== src/Accounts/Calls.antt =====
-- The operations of accounts as calls, in any order, by anybody, at any time and with any failures.
use talepanel.Base.{ℕ, String, Bool, Option, List, [], ◌∷◌}
use talepanel.Store.Tables.{Uuid, Time}
use talepanel.Store.Exec.{World}
use talepanel.Accounts.Outside.{Outside, Draws, Client}
use talepanel.Accounts.Login.{login, verify_totp, logout}
use talepanel.Accounts.Refresh.{Waits, refresh_token}
use talepanel.Accounts.Totp.{setup_totp, confirm_totp, disable_totp}
use talepanel.Accounts.Admin.{
  update_user_role, set_user_active, delete_user, change_password, revoke_session,
}
use talepanel.Accounts.Register.{NewUser, register, create_user_by_admin}
use talepanel.Accounts.Setup.{complete_setup}
use talepanel.Accounts.Stable.{FreshDraws}

-- A call of a method of AuthService. While a refresh waits, only time passes, as `at_wait` says.
pub data Call : Type 0 where
  sign_up : NewUser → String → String → String → Call
  sign_in : String → String → Client → Draws → Call
  enter_code : String → String → Client → Draws → Call
  refresh : (ℕ → Time) → (ℕ → Bool) → String → Client → Draws → Call
  sign_out : String → String → Time → Call
  begin_totp : Uuid → Option String → String → Call
  activate_totp : Uuid → String → Call
  stop_totp : Uuid → String → Call
  new_password : Uuid → String → String → String → Call
  change_role : String → Uuid → String → Call
  change_active : String → Uuid → Bool → Call
  remove : String → Uuid → Call
  create : NewUser → String → String → String → String → Call
  close_session : Uuid → Uuid → Call
  setup : String → NewUser → Uuid → String → String → String → String → Client → Draws → Call
  -- the clocks go on, and other statements fail
  pass : Time → Time → (ℕ → Bool) → Call

abbrev pub passing : (ℕ → Time) → (ℕ → Bool) → Waits
passing at_wait cancelled = record {
  elapse = λ n w. record w { now = at_wait n };
  cancelled = cancelled;
}

-- What has to be known of the refresh tokens that a call may draw.
abbrev pub DrawsOf : (String → Type 0) → Call → Type 0
DrawsOf Fresh (sign_in email password client draws) = FreshDraws Fresh draws
DrawsOf Fresh (enter_code partial_token code client draws) = FreshDraws Fresh draws
DrawsOf Fresh (refresh at_wait cancelled token client draws) = FreshDraws Fresh draws
DrawsOf Fresh (setup code_hash fresh log_id code email username password client draws) =
    FreshDraws Fresh draws
DrawsOf Fresh other = Unit

module _ (lib : Outside) where
  -- The tables and the rest of the world behind a call.
  unfoldable pub run_call : Call → World → World
  run_call (sign_up fresh email username password) w =
      (register lib fresh email username password w).1
  run_call (sign_in email password client draws) w = (login lib email password client draws w).1
  run_call (enter_code partial_token code client draws) w =
      (verify_totp lib partial_token code client draws w).1
  run_call (refresh at_wait cancelled token client draws) w =
      (refresh_token lib (passing at_wait cancelled) token client draws w).1
  run_call (sign_out jti token ttl) w = (logout lib jti token ttl w).1
  run_call (begin_totp id key nonce) w = (setup_totp lib id key nonce w).1
  run_call (activate_totp id code) w = (confirm_totp lib id code w).1
  run_call (stop_totp id password) w = (disable_totp lib id password w).1
  run_call (new_password id salt old_password password) w =
      (change_password lib id salt old_password password w).1
  run_call (change_role caller_role id role) w = (update_user_role caller_role id role w).1
  run_call (change_active caller_role id active) w = (set_user_active caller_role id active w).1
  run_call (remove caller_role id) w = (delete_user caller_role id w).1
  run_call (create fresh email username password role) w =
      (create_user_by_admin lib fresh email username password role w).1
  run_call (close_session user_id session_id) w = (revoke_session user_id session_id w).1
  run_call (setup code_hash fresh log_id code email username password client draws) w =
      (complete_setup lib code_hash fresh log_id code email username password client draws w).1
  run_call (pass now db_now faults) w = record w { now = now; db_now = db_now; faults = faults }

  unfoldable pub run_calls : List Call → World → World
  run_calls [] w = w
  run_calls (call ∷ calls) w = run_calls calls (run_call call w)
