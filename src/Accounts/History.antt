-- ===== src/Accounts/History.antt =====
-- What any list of calls on the accounts keeps.
use talepanel.Base.{String, Bool, false, ◌≡◌, refl, ◌∙◌, List, [], ◌∷◌, All, any, arith}
use talepanel.Store.Tables.{Uuid, User, Tables}
use talepanel.Store.Exec.{World}
use talepanel.Store.Preserve.{Preserves}
use talepanel.Accounts.Outside.{Outside}
use talepanel.Accounts.Tokens.{has_user_id}
use talepanel.Accounts.Admin.{update_user_role, set_user_active, delete_user}
use talepanel.Accounts.Register.{clashes}
use talepanel.Accounts.Owners.{
  IsOwned, unique_ids-update, unique_ids-append, owner-update, owner-append,
}
use talepanel.Accounts.OwnedTargets.{
  Preserves-update_user_role, Preserves-set_user_active, Preserves-delete_user,
}
use talepanel.Accounts.Stable.{Stable, Preserves-refresh_token}
use talepanel.Accounts.StableCalls.{
  Preserves-login, Preserves-verify_totp, Preserves-logout, Preserves-setup_totp,
  Preserves-confirm_totp, Preserves-disable_totp, Preserves-change_password,
  Preserves-revoke_session,
}
use talepanel.Accounts.StableUsers.{
  Preserves-register, Preserves-create_user_by_admin, Preserves-complete_setup,
}
use talepanel.Accounts.Calls.{
  Call, sign_up, sign_in, enter_code, refresh, sign_out, begin_totp, activate_totp, stop_totp,
  new_password, change_role, change_active, remove, create, close_session, setup, pass, passing,
  run_call, run_calls, DrawsOf,
}

module _ (lib : Outside) {Fresh : String → Type 0} {P : Tables → Type 0}
    (stable : Stable lib Fresh P)
    (roles : (caller_role : String) (id : Uuid) (role : String)
      → Preserves P (update_user_role caller_role id role))
    (states : (caller_role : String) (id : Uuid) (active : Bool)
      → Preserves P (set_user_active caller_role id active))
    (removals : (caller_role : String) (id : Uuid) → Preserves P (delete_user caller_role id)) where
  run_call-keeps :
      (call : Call) (w : World) → DrawsOf Fresh call → P w.db → P (run_call lib call w).db
  unfolding run_call
  run_call-keeps (sign_up fresh email username password) w new h =
      (Preserves-register lib stable fresh email username password).at w h
  run_call-keeps (sign_in email password client draws) w new h =
      (Preserves-login lib stable client draws new email password).at w h
  run_call-keeps (enter_code partial_token code client draws) w new h =
      (Preserves-verify_totp lib stable client draws new partial_token code).at w h
  run_call-keeps (refresh at_wait cancelled token client draws) w new h =
      (Preserves-refresh_token lib stable (passing at_wait cancelled) (λ n v k. k) token client
          draws new).at
        w h
  run_call-keeps (sign_out jti token ttl) w new h =
      (Preserves-logout lib stable jti token ttl).at w h
  run_call-keeps (begin_totp id key nonce) w new h =
      (Preserves-setup_totp lib stable id key nonce).at w h
  run_call-keeps (activate_totp id code) w new h =
      (Preserves-confirm_totp lib stable id code).at w h
  run_call-keeps (stop_totp id password) w new h =
      (Preserves-disable_totp lib stable id password).at w h
  run_call-keeps (new_password id salt old_password password) w new h =
      (Preserves-change_password lib stable id salt old_password password).at w h
  run_call-keeps (change_role caller_role id role) w new h = (roles caller_role id role).at w h
  run_call-keeps (change_active caller_role id active) w new h =
      (states caller_role id active).at w h
  run_call-keeps (remove caller_role id) w new h = (removals caller_role id).at w h
  run_call-keeps (create fresh email username password role) w new h =
      (Preserves-create_user_by_admin lib stable fresh email username password role).at w h
  run_call-keeps (close_session user_id session_id) w new h =
      (Preserves-revoke_session lib stable user_id session_id).at w h
  run_call-keeps (setup code_hash fresh log_id code email username password client draws) w new h =
      (Preserves-complete_setup lib stable code_hash fresh log_id code email username password
          client draws new).at
        w h
  run_call-keeps (pass now db_now faults) w new h = h

  pub run_calls-keeps :
      (calls : List Call) (w : World)
      → All (DrawsOf Fresh) calls
      → P w.db
      → P (run_calls lib calls w).db
  unfolding run_calls
  run_calls-keeps [] w new h = h
  run_calls-keeps (call ∷ calls) w (now, later) h =
      run_calls-keeps calls (run_call lib call w) later (run_call-keeps call w now h)

-- Any token will do.
abbrev pub AnyToken : String → Type 0
AnyToken token = Unit

unclashing :
    (lib : Outside) (user : User) (us : List User)
    → any (clashes lib user) us ≡ false
    → any (has_user_id user.id) us ≡ false
unclashing lib user [] h = refl
unclashing lib user (u ∷ us) h = ground (arith, unclashing lib user us)

pub IsOwned-stable : (lib : Outside) → Stable lib AnyToken IsOwned
IsOwned-stable lib = record {
  change_user = λ id f db harmless owned. record {
    unique = unique_ids-update id f db.users harmless.id owned.unique;
    owner =
        owner-update id f db.users (λ u. ground (arith, harmless.role u, harmless.is_active u))
        ∙ owned.owner;
  };
  revoke = λ chosen db owned. record { unique = owned.unique; owner = owned.owner };
  add = λ row token db same fresh owned. record { unique = owned.unique; owner = owned.owner };
  insert = λ user db valid owned. record {
    unique =
        unique_ids-append db.users user owned.unique
          (unclashing lib user db.users (ground (arith, valid)));
    owner = owner-append db.users user owned.owner;
  };
  log = λ entry db owned. record { unique = owned.unique; owner = owned.owner };
}

any_draws : (calls : List Call) → All (DrawsOf AnyToken) calls
any_draws [] = tt
any_draws (call ∷ calls) = (any_draw call, any_draws calls)
  where
    any_draw : (call : Call) → DrawsOf AnyToken call
    any_draw (sign_in email password client draws) = λ token e. tt
    any_draw (enter_code partial_token code client draws) = λ token e. tt
    any_draw (refresh at_wait cancelled token client draws) = λ token e. tt
    any_draw (setup code_hash fresh log_id code email username password client draws) =
        λ token e. tt
    any_draw other = tt

-- An installation with an active owner keeps one, whatever is called, by whomever, and whatever
-- statements fail.
pub active_owner_kept :
    (lib : Outside) (calls : List Call) (w : World)
    → IsOwned w.db
    → IsOwned (run_calls lib calls w).db
active_owner_kept lib calls w owned =
    run_calls-keeps lib (IsOwned-stable lib) Preserves-update_user_role Preserves-set_user_active
      Preserves-delete_user calls w (any_draws calls) owned
