-- ===== src/Accounts/StableUsers.antt =====
-- The operations that make an account keep what the changes of the tables keep.
use talepanel.Base.{
  ℕ, String, not, ◌||◌, str_eq, ltb, if◌then◌else◌, trim_space, Bool-cases, inl, inr, ap, sym,
  subst,
}
use talepanel.Store.Tables.{Uuid, User, LoginResult, Tables}
use talepanel.Store.Exec.{
  Err, Result, ok, err, database, email_taken, username_taken, hashing_failed, setup_disabled,
  setup_completed, setup_code_invalid, setup_login_failed, raise, pure, write, ◌>>◌,
}
use talepanel.Store.Preserve.{
  Preserves, Preserves-pure, Preserves-raise, Preserves-lift, Preserves-gets, Preserves-statement,
  Preserves-found_or, Preserves-write, Preserves-if, Preserves-bind, Preserves-query,
  Preserves-attempt, Preserves-transaction,
}
use talepanel.Roles.Weight.{role_user, role_owner}
use talepanel.Accounts.Outside.{Outside, Draws, Client, normal_email}
use talepanel.Accounts.Password.{validate_password_for_role}
use talepanel.Accounts.Register.{
  NewUser, accepts_user, add_user, add_if_accepted, new_user, insert_user, check_formats,
  check_unique, check_unique_if_counted, unless_taken, known_role, or_zero, email_count,
  username_count, register_user, register, create_user, create_user_by_admin,
}
use talepanel.Accounts.Setup.{
  add_log, setup_log, has_users, unless_users, insert_log, create_owner, setup_owner,
  login_or_failed, check_setup_code, complete_setup,
}
use talepanel.Accounts.Stable.{Stable, FreshDraws, Preserves-issue_full_tokens}

module _ (lib : Outside) {Fresh : String → Type 0} {P : Tables → Type 0}
    (stable : Stable lib Fresh P) where
  Preserves-add_if_accepted : (user : User) → Preserves P (add_if_accepted lib user)
  unfolding add_if_accepted
  Preserves-add_if_accepted user = record {
    at = λ w h. elim (Bool-cases (accepts_user lib user w.db)) [
      | inl valid ↦
          subst P
            (ap
              (λ b.
                ((if b then (do write (add_user user); pure user) else raise {A = User} database)
                  w).1.db)
              (sym valid))
            (stable.insert user w.db valid h)
      | inr invalid ↦
          subst P
            (ap
              (λ b.
                ((if b then (do write (add_user user); pure user) else raise {A = User} database)
                  w).1.db)
              (sym invalid))
            h
    ];
  }

  Preserves-insert_user :
      (fresh : NewUser) (email username hash role : String)
      → Preserves P (insert_user lib fresh email username hash role)
  unfolding insert_user
  Preserves-insert_user fresh email username hash role = Preserves-bind Preserves-statement λ _.
      Preserves-bind (Preserves-gets (λ w. w.db_now))
        λ db_now. Preserves-add_if_accepted (new_user lib fresh email username hash role db_now)

  Preserves-unless_taken : (n : ℕ) (e : Err) → Preserves P (unless_taken lib n e)
  Preserves-unless_taken n e = Preserves-if (ltb 0 n) (Preserves-raise e) (Preserves-pure tt)

  pub Preserves-register :
      (fresh : NewUser) (email username password : String)
      → Preserves P (register lib fresh email username password)
  unfolding register register_user check_unique
  Preserves-register fresh email username password =
      let e = normal_email lib email in
      let u = trim_space username in
      Preserves-bind (Preserves-lift (check_formats e u)) λ _.
        Preserves-bind (Preserves-lift (validate_password_for_role role_user password)) λ _.
          Preserves-bind
            (Preserves-bind (Preserves-query (email_count lib e)) λ emails.
              Preserves-bind (Preserves-unless_taken emails email_taken) λ _.
                Preserves-bind (Preserves-query (username_count lib u))
                  λ usernames. Preserves-unless_taken usernames username_taken)
            λ _.
              Preserves-bind
                (Preserves-found_or hashing_failed (lib.hash_password fresh.salt password))
                λ hash. Preserves-insert_user fresh e u hash role_user

  pub Preserves-create_user_by_admin :
      (fresh : NewUser) (email username password role : String)
      → Preserves P (create_user_by_admin lib fresh email username password role)
  unfolding create_user_by_admin create_user check_unique_if_counted
  Preserves-create_user_by_admin fresh email username password role =
      let e = normal_email lib email in
      let u = trim_space username in
      Preserves-bind (Preserves-lift (check_formats e u)) λ _.
        Preserves-bind (Preserves-lift (known_role lib role)) λ _.
          Preserves-bind (Preserves-lift (validate_password_for_role role password)) λ _.
            Preserves-bind
              (Preserves-bind (Preserves-attempt (Preserves-query (email_count lib e))) λ emails.
                Preserves-bind (Preserves-unless_taken (or_zero emails) email_taken) λ _.
                  Preserves-bind (Preserves-attempt (Preserves-query (username_count lib u)))
                    λ usernames. Preserves-unless_taken (or_zero usernames) username_taken)
              λ _.
                Preserves-bind
                  (Preserves-found_or hashing_failed (lib.hash_password fresh.salt password))
                  λ hash. Preserves-insert_user fresh e u hash role

  Preserves-unless_users : Preserves P unless_users
  unfolding unless_users
  Preserves-unless_users =
      Preserves-bind (Preserves-query has_users)
        λ exists. Preserves-if exists (Preserves-raise setup_completed) (Preserves-pure tt)

  Preserves-create_owner :
      (fresh : NewUser) (log_id : Uuid) (email username hash : String) (client : Client)
      → Preserves P (create_owner lib fresh log_id email username hash client)
  unfolding create_owner insert_log
  Preserves-create_owner fresh log_id email username hash client =
      Preserves-bind Preserves-statement λ _. Preserves-bind Preserves-unless_users λ _.
        Preserves-bind (Preserves-insert_user fresh email username hash role_owner) λ user.
          Preserves-bind (Preserves-gets (λ w. w.db_now)) λ db_now.
            Preserves-bind
              (Preserves-bind Preserves-statement λ _.
                Preserves-if (str_eq client.ip "" || lib.is_inet client.ip)
                  (Preserves-write (add_log (setup_log log_id user.id client db_now))
                    (stable.log (setup_log log_id user.id client db_now)))
                  (Preserves-raise database))
              λ _. Preserves-pure user

  pub Preserves-login_or_failed : (r : Result LoginResult) → Preserves P (login_or_failed r)
  Preserves-login_or_failed (ok result) = Preserves-pure result
  Preserves-login_or_failed (err e) = Preserves-raise setup_login_failed

  pub Preserves-complete_setup :
      (code_hash : String) (fresh : NewUser) (log_id : Uuid) (code email username password : String)
      (client : Client) (draws : Draws)
      → FreshDraws Fresh draws
      → Preserves P
          (complete_setup lib code_hash fresh log_id code email username password client draws)
  unfolding complete_setup setup_owner
  Preserves-complete_setup code_hash fresh log_id code email username password client draws new =
      let e = normal_email lib email in
      let u = trim_space username in
      Preserves-if (str_eq code_hash "") (Preserves-raise setup_disabled) (
        Preserves-bind Preserves-unless_users λ _.
          Preserves-bind
            (Preserves-if (not (check_setup_code lib code_hash code))
              (Preserves-raise setup_code_invalid) (Preserves-pure tt))
            λ _. Preserves-bind (Preserves-lift (check_formats e u)) λ _.
              Preserves-bind (Preserves-lift (validate_password_for_role role_owner password)) λ _.
                Preserves-bind
                  (Preserves-found_or hashing_failed (lib.hash_password fresh.salt password))
                  λ hash.
                    Preserves-bind
                      (Preserves-transaction (Preserves-create_owner fresh log_id e u hash client))
                      λ user.
                        Preserves-bind
                          (Preserves-attempt
                            (Preserves-issue_full_tokens lib stable user client draws new))
                          λ result. Preserves-login_or_failed result)
