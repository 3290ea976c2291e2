-- ===== src/Accounts/Register.antt =====
-- Register and CreateUserByAdmin of services/auth_service.go. The new identifier and the salt are
-- arguments.
use talepanel.Base.{
  ℕ, String, Bool, true, false, not, ◌&&◌, ◌||◌, ◌==◌, none, [], ◌∷◌, ◌++◌, str_eq, ltb, leb, any,
  all, length, codes, count_where, if◌then◌else◌, trim_space, is_digit, is_letter,
}
use talepanel.Store.Tables.{Uuid, Time, User, Tables}
use talepanel.Store.Exec.{
  Err, Result, ok, err, database, email_taken, username_taken, invalid_email, invalid_username,
  invalid_role, hashing_failed, Exec, pure, raise, lift, ◌>>=◌, ◌>>◌, gets, statement, query, write,
  attempt, found_or,
}
use talepanel.Roles.Weight.{role_user, role_weight}
use talepanel.Accounts.Outside.{Outside, normal_email, citext_eq}
use talepanel.Accounts.Password.{validate_password_for_role, email_matches, username_matches}

-- The salt of bcrypt and the identifier of a new user.
pub record NewUser : Type 0 where
  pub id : Uuid
  pub salt : String

-- The constraints on a user name in users.
abbrev pub username_ok : String → Bool
username_ok username =
    leb 3 (length (codes username))
    && leb (length (codes username)) 30
    && all (λ c. is_letter c || is_digit c || c == b'_' || c == b'-') (codes username)

abbrev pub add_user : User → Tables → Tables
add_user user db = record db { users = db.users ++ user ∷ [] }

-- The formats, then the password policy of the role.
abbrev pub check_formats : String → String → Result (Unit {0})
check_formats email username =
    if not (email_matches email)
    then err invalid_email
    else (if not (username_matches username) then err invalid_username else ok tt)

abbrev pub or_zero : Result ℕ → ℕ
or_zero (ok n) = n
or_zero (err e) = 0

module _ (lib : Outside) where
  abbrev pub new_user : NewUser → String → String → String → String → Time → User
  new_user fresh email username hash role db_now = record {
    id = fresh.id;
    email = email;
    username = username;
    password_hash = hash;
    role = role;
    totp_secret = "";
    totp_enabled = false;
    created_at = db_now;
    last_login_at = none;
    is_active = true;
  }

  abbrev pub clashes : User → User → Bool
  clashes user other =
      other.id == user.id
      || citext_eq lib other.email user.email
      || str_eq other.username user.username

  abbrev pub accepts_user : User → Tables → Bool
  accepts_user user db =
      not (role_weight user.role == 0)
      && username_ok user.username
      && not (any (clashes user) db.users)

  unfoldable pub add_if_accepted : User → Exec User
  add_if_accepted user = do
    valid ← gets (λ w. accepts_user user w.db)
    if valid then (do write (add_user user); pure user) else raise database

  -- INSERT INTO users ... RETURNING
  unfoldable pub insert_user : NewUser → String → String → String → String → Exec User
  unfolding statement add_if_accepted
  insert_user fresh email username hash role = do
    statement
    db_now ← gets (λ w. w.db_now)
    add_if_accepted (new_user fresh email username hash role db_now)

  -- SELECT COUNT(*) FROM users WHERE email = $1, and WHERE lower(username) = lower($1)
  abbrev pub email_count : String → Tables → ℕ
  email_count email db = count_where (λ (u : User). citext_eq lib u.email email) db.users

  abbrev pub username_count : String → Tables → ℕ
  username_count username db =
      count_where (λ (u : User). citext_eq lib u.username username) db.users

  abbrev pub unless_taken : ℕ → Err → Exec Unit
  unless_taken n e = if ltb 0 n then raise e else pure tt

  unfoldable pub check_unique : String → String → Exec Unit
  unfolding query
  check_unique email username = do
    emails ← query (email_count email)
    unless_taken emails email_taken
    usernames ← query (username_count username)
    unless_taken usernames username_taken

  -- A count that fails is left at 0.
  unfoldable pub check_unique_if_counted : String → String → Exec Unit
  unfolding query attempt
  check_unique_if_counted email username = do
    emails ← attempt (query (email_count email))
    unless_taken (or_zero emails) email_taken
    usernames ← attempt (query (username_count username))
    unless_taken (or_zero usernames) username_taken

  unfoldable pub register_user : NewUser → String → String → String → Exec User
  unfolding check_unique insert_user
  register_user fresh email username password = do
    lift (check_formats email username)
    lift (validate_password_for_role role_user password)
    check_unique email username
    hash ← found_or hashing_failed (lib.hash_password fresh.salt password)
    insert_user fresh email username hash role_user

  unfoldable pub register : NewUser → String → String → String → Exec User
  register fresh email username password =
      register_user fresh (normal_email lib email) (trim_space username) password

  abbrev pub known_role : String → Result (Unit {0})
  known_role role = if role_weight role == 0 then err invalid_role else ok tt

  unfoldable pub create_user : NewUser → String → String → String → String → Exec User
  unfolding check_unique_if_counted insert_user
  create_user fresh email username password role = do
    lift (check_formats email username)
    lift (known_role role)
    lift (validate_password_for_role role password)
    check_unique_if_counted email username
    hash ← found_or hashing_failed (lib.hash_password fresh.salt password)
    insert_user fresh email username hash role

  unfoldable pub create_user_by_admin : NewUser → String → String → String → String → Exec User
  create_user_by_admin fresh email username password role =
      create_user fresh (normal_email lib email) (trim_space username) password role
