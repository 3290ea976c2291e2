-- ===== src/Accounts/Setup.antt =====
-- services/setup_service.go: the first owner. `code_hash` is config.SetupCodeHash.
use Prim.Native.Char.{code}
use Prim.Native.String.{String}
use talepanel.Base.{
  ℕ, ◌+◌, ◌-◌, ◌*◌, Bool, false, not, ◌&&◌, ◌||◌, ◌==◌, Option, none, some, List, [], ◌∷◌, ◌++◌,
  str_eq, leb, length, codes, text_eq, Text, trim_space, is_space, if◌then◌else◌, matches, once,
  exactly,
}
use talepanel.Store.Tables.{Uuid, Time, User, ActivityLog, LoginResult, Tables}
use talepanel.Store.Exec.{
  Result, ok, err, database, hashing_failed, setup_disabled, setup_completed, setup_code_invalid,
  setup_login_failed, Exec, pure, raise, lift, ◌>>=◌, ◌>>◌, gets, statement, query, write, attempt,
  transaction, found_or,
}
use talepanel.Roles.Weight.{role_owner}
use talepanel.Accounts.Outside.{Outside, Draws, Client, normal_email}
use talepanel.Accounts.Password.{validate_password_for_role}
use talepanel.Accounts.Tokens.{issue_full_tokens}
use talepanel.Accounts.Register.{NewUser, check_formats, insert_user}

-- [A-HJ-NP-Z2-9]
abbrev pub is_code_char : ℕ → Bool
is_code_char c =
    leb b'A' c && leb c b'H'
    || leb b'J' c && leb c b'N'
    || leb b'P' c && leb c b'Z'
    || leb b'2' c && leb c b'9'

-- XXXX-XXXX-XXXX
unfoldable pub setup_code_matches : Text → Bool
unfolding matches
setup_code_matches s =
    matches
      (exactly 4 is_code_char
        ∷ once b'-'
        ∷ exactly 4 is_code_char
        ∷ once b'-'
        ∷ exactly 4 is_code_char
        ∷ [])
      s

-- The value of a hexadecimal digit.
abbrev pub hex_digit : ℕ → Option ℕ
hex_digit c =
    if leb b'0' c && leb c b'9'
    then some (c - b'0')
    else (if leb b'a' c && leb c b'f'
        then some (c - b'a' + 10)
        else (if leb b'A' c && leb c b'F' then some (c - b'A' + 10) else none))

abbrev hex_byte : Option ℕ → Option ℕ → Option (List ℕ) → Option (List ℕ)
hex_byte (some h) (some l) (some bytes) = some ((16 * h + l) ∷ bytes)
hex_byte (some h) (some l) none = none
hex_byte (some h) none rest = none
hex_byte none low rest = none

-- hex.DecodeString
unfoldable pub hex_decode : Text → Option (List ℕ)
hex_decode [] = some []
hex_decode (c ∷ []) = none
hex_decode (c ∷ d ∷ s) = hex_byte (hex_digit c) (hex_digit d) (hex_decode s)

-- subtle.ConstantTimeCompare
abbrev same_bytes : Option (List ℕ) → List ℕ → Bool
same_bytes none want = false
same_bytes (some sum) want = text_eq sum want

-- The audit entry of the setup, without its payload.
abbrev pub setup_log : Uuid → Uuid → Client → Time → ActivityLog
setup_log id user_id client db_now = record {
  id = id;
  user_id = some user_id;
  action = "setup.complete";
  target_type = "users";
  target_id = some user_id;
  ip_address = client.ip;
  created_at = db_now;
}

abbrev pub add_log : ActivityLog → Tables → Tables
add_log log db = record db { activity_logs = db.activity_logs ++ log ∷ [] }

-- SELECT EXISTS (SELECT 1 FROM users)
abbrev pub has_users : Tables → Bool
has_users db = not (length db.users == 0)

unfoldable pub unless_users : Exec Unit
unfolding query
unless_users = do exists ← query has_users; if exists then raise setup_completed else pure tt

abbrev pub login_or_failed : Result LoginResult → Exec LoginResult
login_or_failed (ok result) = pure result
login_or_failed (err e) = raise setup_login_failed

module _ (lib : Outside) where
  -- Upper case, without white space.
  unfoldable pub normalize_setup_code : String → String
  normalize_setup_code String.[] = String.[]
  normalize_setup_code (String.◌∷◌ c s) =
      if is_space (code c)
      then normalize_setup_code s
      else String.◌∷◌ (lib.unicode.upper c) (normalize_setup_code s)

  abbrev hash_fits : String → Option (List ℕ) → Bool
  hash_fits norm none = false
  hash_fits norm (some want) =
      length want == 32
      && same_bytes (hex_decode (codes (lib.digest norm))) want
      && setup_code_matches (codes norm)

  unfoldable pub check_setup_code : String → String → Bool
  unfolding normalize_setup_code hex_decode setup_code_matches
  check_setup_code code_hash code =
      hash_fits (normalize_setup_code code) (hex_decode (codes code_hash))

  -- NULLIF($3, '')::inet
  unfoldable pub insert_log : ActivityLog → Exec Unit
  unfolding statement
  insert_log log = do
    statement
    if str_eq log.ip_address "" || lib.is_inet log.ip_address
        then write (add_log log)
        else raise database

  -- Between Begin and Commit. Locking the table is a statement that changes nothing.
  unfoldable pub create_owner : NewUser → Uuid → String → String → String → Client → Exec User
  unfolding statement unless_users insert_user insert_log
  create_owner fresh log_id email username hash client = do
    statement
    unless_users
    user ← insert_user lib fresh email username hash role_owner
    db_now ← gets (λ w. w.db_now)
    insert_log (setup_log log_id user.id client db_now)
    pure user

  unfoldable pub setup_owner :
      NewUser → Uuid → String → String → String → Client → Draws → Exec LoginResult
  unfolding transaction create_owner attempt issue_full_tokens
  setup_owner fresh log_id email username password client draws = do
    lift (check_formats email username)
    lift (validate_password_for_role role_owner password)
    hash ← found_or hashing_failed (lib.hash_password fresh.salt password)
    user ← transaction (create_owner fresh log_id email username hash client)
    result ← attempt (issue_full_tokens lib user client draws)
    login_or_failed result

  abbrev pub code_checked : String → String → Exec Unit
  code_checked code_hash code =
      if not (check_setup_code code_hash code) then raise setup_code_invalid else pure tt

  unfoldable pub complete_setup :
      String
      → NewUser
      → Uuid
      → String
      → String
      → String
      → String
      → Client
      → Draws
      → Exec LoginResult
  unfolding unless_users setup_owner
  complete_setup code_hash fresh log_id code email username password client draws =
      if str_eq code_hash "" then raise setup_disabled else (do
        unless_users
        code_checked code_hash code
        setup_owner fresh log_id (normal_email lib email) (trim_space username) password client
            draws)
