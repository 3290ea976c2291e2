-- ===== src/Accounts/FirstOwner.antt =====
-- The first setup: when it makes an owner, and what it makes. The password policy.
use talepanel.Base.{
  ◌+◌, ◌≤◌, String, true, false, not, ◌==◌, List, [], ◌∷◌, ◌++◌, length, str_eq, ◌≡◌, ◌≢◌, ◌↔◌,
  refl, ap, ◌∙◌, arith, Bool-cases, inl, inr,
}
use talepanel.Store.Tables.{Uuid, User, ActivityLog, LoginResult, Tables}
use talepanel.Store.Exec.{World, Err, ok, err, database, statement, query, setup_completed}
use talepanel.Store.Laws.{bind-inv}
use talepanel.Roles.Weight.{role_owner}
use talepanel.Accounts.Outside.{Outside, Draws, Client}
use talepanel.Accounts.Password.{
  validate_password_for_role, is_privileged, min_length, rune_count, has_digit, has_symbol,
}
use talepanel.Accounts.Admin.{is_active_owner}
use talepanel.Accounts.Register.{NewUser, add_user, add_if_accepted, insert_user, new_user}
use talepanel.Accounts.Setup.{
  has_users, unless_users, insert_log, setup_log, create_owner, complete_setup,
}

-- The password policy: eight characters, or for owners and administrators twelve with a digit and a
-- character that is neither a digit nor an ASCII letter.
pub validate_password_iff :
    (role password : String)
    → (validate_password_for_role role password ≡ ok tt) ↔ (
        (min_length role ≤ rune_count password)
        × (is_privileged role ≡ true → (has_digit password ≡ true) × (has_symbol password ≡ true)))
unfolding validate_password_for_role
validate_password_iff role password = elim (Bool-cases (is_privileged role)) [
  | inl high ↦ (
    λ h. (ground (arith, high), λ p. (ground (arith, high), ground (arith, high))),
    λ (long, rest). ground (arith, high, rest high),
  )
  | inr low ↦ (
    λ h. (ground (arith, low), λ p. absurd (ground (arith, low))),
    λ (long, rest). ground (arith, low),
  )
]

no_users-empty : (us : List User) → not (length us == 0) ≡ false → us ≡ []
no_users-empty [] h = refl
no_users-empty (u ∷ us) h = absurd (ground arith)

pub unless_users-inv :
    (w : World) → (unless_users w).0 ≡ ok tt → (w.db.users ≡ []) × ((unless_users w).1.db ≡ w.db)
unfolding unless_users query statement
unless_users-inv w h = (no_users-empty w.db.users (ground arith), ground arith)

unless_users-refused :
    (w : World)
    → has_users w.db ≡ true
    → (e : Err) × (v : World) × (v.db ≡ w.db) × (unless_users w ≡ (err e, v))
unfolding unless_users query statement
unless_users-refused w exist = elim (Bool-cases (w.faults w.calls)) [
  | inl lost ↦ (database, record w { calls = w.calls + 1 }, refl, ground (arith, lost))
  | inr sent ↦
      (setup_completed, record w { calls = w.calls + 1 }, refl, ground (arith, sent, exist))
]

-- An owner who can sign in is the only user.
pub record IsFirst (email username : String) (users : List User) : Type 0 where
  pub owner : User
  pub only : users ≡ owner ∷ []
  pub active : is_active_owner owner ≡ true
  pub email_is : owner.email ≡ email
  pub username_is : owner.username ≡ username

module _ (lib : Outside) where
  insert_user-inv :
      (fresh : NewUser) (email username hash role : String) (w : World) (user : User)
      → (insert_user lib fresh email username hash role w).0 ≡ ok user
      → (user ≡ new_user lib fresh email username hash role w.db_now)
        × ((insert_user lib fresh email username hash role w).1.db
            ≡ add_user (new_user lib fresh email username hash role w.db_now) w.db)
  unfolding insert_user add_if_accepted statement
  insert_user-inv fresh email username hash role w user h = (ground arith, ground arith)

  insert_log-users :
      (log : ActivityLog) (w : World) → (insert_log lib log w).1.db.users ≡ w.db.users
  unfolding insert_log statement
  insert_log-users log w = ground arith

  pub create_owner-IsFirst :
      (fresh : NewUser) (log_id : Uuid) (email username hash : String) (client : Client) (w : World)
      (user : User)
      → (create_owner lib fresh log_id email username hash client w).0 ≡ ok user
      → (w.db.users ≡ [])
        × IsFirst email username
            (create_owner lib fresh log_id email username hash client w).1.db.users
  unfolding create_owner statement
  create_owner-IsFirst fresh log_id email username hash client w user h =
      let u = record w { calls = w.calls + 1 } in
      let (_, locked, h0, s0) = bind-inv statement _ w h in
      let (_, none_before, h1, s1) = bind-inv unless_users _ u h0 in
      let (empty, read) = unless_users-inv u none_before in
      let v = (unless_users u).1 in
      let (made, added, h2, s2) =
        bind-inv (insert_user lib fresh email username hash role_owner) _ v h1 in
      let (_, effect) = insert_user-inv fresh email username hash role_owner v made added in
      let x = (insert_user lib fresh email username hash role_owner v).1 in
      let log = setup_log log_id made.id client x.db_now in
      let (_, logged, h3, s3) = bind-inv (insert_log lib log) _ x h2 in
      (
        empty,
        record {
          owner = new_user lib fresh email username hash role_owner v.db_now;
          only =
              ap (λ (y : World). y.db.users) (s0 ∙ s1 ∙ s2 ∙ s3)
              ∙ insert_log-users log x
              ∙ ap (λ (db : Tables). db.users) effect
              ∙ ap (λ us. us ++ new_user lib fresh email username hash role_owner v.db_now ∷ [])
                  (ap (λ (db : Tables). db.users) read ∙ empty);
          active = refl;
          email_is = refl;
          username_is = refl;
        },
      )

  -- With users in the tables, a setup is refused and changes no table.
  pub setup_refused :
      (code_hash : String) (fresh : NewUser) (log_id : Uuid) (code email username password : String)
      (client : Client) (draws : Draws) (w : World) (r : LoginResult)
      → has_users w.db ≡ true
      → ((complete_setup lib code_hash fresh log_id code email username password client draws w).0
          ≢ ok r)
        × ((complete_setup lib code_hash fresh log_id code email username password client draws
              w).1.db
            ≡ w.db)
  unfolding complete_setup
  setup_refused code_hash fresh log_id code email username password client draws w r exist =
      let (e, v, same, refused) = unless_users-refused w exist in
      elim (Bool-cases (str_eq code_hash "")) [
        | inl off ↦ (λ h. ground (arith, off), ground (arith, off))
        | inr on ↦ (λ h. ground (arith, on, refused), ground (arith, on, refused, same))
      ]
