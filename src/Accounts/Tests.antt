-- ===== src/Accounts/Tests.antt =====
-- Accounts on a small database.
use talepanel.Base.{
  ℕ, true, false, ◌≡◌, refl, some, none, List, [], ◌∷◌, select, str_eq, plain_unicode, sym, ap,
  some_inj, trim_space, to_lower_string,
}
use talepanel.Store.Tables.{User}
use talepanel.Store.Exec.{World, ok, err, invalid_creds, statement, query, execute, attempt}
use talepanel.Store.Sample.{calm, sample, alice}
use talepanel.Accounts.Outside.{Outside, normal_email, JwtClaims, Draws, Client, refresh_key}
use talepanel.Accounts.Found.{user_with_email}
use talepanel.Accounts.Tokens.{
  find_user_by_email, find_user_by_id, full_result, sign_access_token, insert_session, touch_login,
  open_session, issue_full_tokens,
}
use talepanel.Accounts.Login.{check_user, login, check_code, verify_totp, partial_user}
use talepanel.Accounts.Admin.{is_owner}
use talepanel.Accounts.Owners.{IsOwned}
use talepanel.Accounts.Protected.{change_account, to_role, owners_protected}
use talepanel.Accounts.Calls.{Call, change_role, remove, run_calls}
use talepanel.Accounts.History.{active_owner_kept}
use talepanel.Accounts.SignIn.{IsLogin, login-IsLogin, login_tells_nothing}
use talepanel.Accounts.SecondFactor.{IsCoded, verify_totp-IsCoded}

abbrev partial_of_alice : JwtClaims
partial_of_alice = record {
  sub = some "2";
  role = none;
  jti = none;
  kind = some "totp_partial";
  iat = none;
  exp = none;
}

-- Nothing is hashed or encrypted; every token is signed, and parsed as a partial token of Alice.
abbrev pub plain : Outside
plain = record {
  unicode = plain_unicode;
  digest = λ s. s;
  compare_password = λ hash password. str_eq hash password;
  hash_password = λ salt password. some password;
  sign = λ key claims. some "signed";
  parse_token = λ key now token. some partial_of_alice;
  uuid_text = λ id. "2";
  parse_uuid = λ s. some 2;
  validate_totp = λ code secret now. str_eq code secret;
  encrypt = λ nonce s. some s;
  decrypt = λ s. some s;
  is_inet = λ s. true;
}

abbrev pub client : Client
client = record { ip = "10.0.0.1"; user_agent = "browser" }

abbrev pub first : Draws
first = record { jti = "j1"; session_id = 100; refresh_token = some "t1" }

abbrev pub next : Draws
next = record { jti = "j2"; session_id = 101; refresh_token = some "t2" }

sample-IsOwned : IsOwned sample
sample-IsOwned = record { unique = refl; owner = refl }

-- The only owner is demoted and deleted, in vain.
abbrev pub attacks : List Call
attacks = change_role "owner" 1 "user" ∷ remove "owner" 1 ∷ change_role "admin" 2 "owner" ∷ []

active_owner_kept_example : IsOwned (run_calls plain attacks calm).db
active_owner_kept_example = active_owner_kept plain attacks calm sample-IsOwned

owners_protected_example :
    select is_owner (change_account "admin" 1 (to_role "user") calm).1.db.users
    ≡ select is_owner calm.db.users
owners_protected_example = owners_protected "admin" 1 (to_role "user") calm refl refl

signed_in :
    (login plain "alice@x" "alice-password" client first calm).0
    ≡ ok (full_result plain "signed" "t1" alice)
unfolding login find_user_by_email check_user issue_full_tokens open_session sign_access_token
    insert_session touch_login query execute attempt statement trim_space to_lower_string
signed_in = refl

login-IsLogin_example :
    IsLogin plain client first "alice@x" "alice-password" calm
      (full_result plain "signed" "t1" alice)
      (login plain "alice@x" "alice-password" client first calm).1.db
login-IsLogin_example =
    login-IsLogin plain client first "alice@x" "alice-password" calm
      (full_result plain "signed" "t1" alice) signed_in

only_alice :
    (user : User)
    → user_with_email plain (normal_email plain "alice@x") calm.db ≡ some user
    → plain.compare_password user.password_hash "guess" ≡ false
unfolding trim_space to_lower_string
only_alice user found =
    let same : some alice ≡ some user = found in
    ap (λ (u : User). str_eq u.password_hash "guess") (sym (some_inj same))

login_tells_nothing_example :
    ((login plain "alice@x" "guess" client first calm).0 ≡ err invalid_creds)
    × ((login plain "alice@x" "guess" client first calm).1.db ≡ calm.db)
login_tells_nothing_example =
    login_tells_nothing plain client first "alice@x" "guess" calm only_alice

-- Alice has a second factor, and a pending partial token.
abbrev guarded : World
guarded = record calm {
  db = record sample { users = record alice { totp_secret = "123456"; totp_enabled = true } ∷ [] };
}

abbrev guarded_alice : User
guarded_alice = record alice { totp_secret = "123456"; totp_enabled = true }

code_taken :
    (verify_totp plain "partial" "123456" client first guarded).0
    ≡ ok (full_result plain "signed" "t1" guarded_alice)
unfolding verify_totp find_user_by_id check_code issue_full_tokens open_session sign_access_token
    insert_session touch_login query execute attempt statement
code_taken = refl

verify_totp-IsCoded_example :
    (id : ℕ) × (partial_user plain (plain.parse_token refresh_key guarded.now "partial") ≡ some id)
    × IsCoded plain client first id "123456" guarded
        (full_result plain "signed" "t1" guarded_alice)
        (verify_totp plain "partial" "123456" client first guarded).1.db
verify_totp-IsCoded_example =
    verify_totp-IsCoded plain client first "partial" "123456" guarded
      (full_result plain "signed" "t1" guarded_alice) code_taken
