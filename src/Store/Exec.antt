-- ===== src/Store/Exec.antt =====
-- Programs over the database. A service method is a function from the world to a result and the
-- next world. Every statement may fail, at the choice of `faults`: a lost connection, a timeout or a
-- cancelled context. A statement that fails changes nothing.
use talepanel.Base.{
  ℕ, String, List, ◌+◌, Option, none, some, Bool, false, if◌then◌else◌, ◌≡◌, ◌∙◌, ap,
}
use talepanel.Store.Tables.{Tables, Time, LoginResult}

pub data Err : Type 0 where
  -- an error of the driver, wrapped or not
  database : Err
  -- crypto/rand gave no bytes
  random_failed : Err
  invalid_member_role member_not_found : Err
  invitation_not_found invitation_expired invitation_used invitation_forbidden : Err
  invitation_exceeds_inviter : Err
  invalid_webhook_url dial_refused : Err
  alert_rule_not_found alert_event_not_found alert_rule_invalid alert_rule_forbidden : Err
  email_taken username_taken invalid_email invalid_username invalid_role : Err
  password_too_short : ℕ → Err
  weak_password_for_role hashing_failed signing_failed encryption_failed : Err
  invalid_creds user_inactive session_expired user_absent wrong_current_password : Err
  totp_invalid totp_already_enabled totp_not_pending invalid_partial_token : Err
  user_not_found owner_protected last_owner session_not_found : Err
  setup_disabled setup_completed setup_code_invalid setup_login_failed : Err
  node_not_found node_has_servers command_not_found : Err
  node_name_required invalid_node_address enrollment_not_found enrollment_expired : Err

pub data Result {ℓ} (A : Type ℓ) : Type ℓ where
  ok : A → Result A
  err : Err → Result A

-- What the services keep in Redis: a flag, or the tokens that a refresh token was rotated into.
pub data RedisValue : Type 0 where
  flag : RedisValue
  login_body : LoginResult → RedisValue

pub record RedisEntry : Type 0 where
  pub key : String
  pub value : RedisValue
  -- none where the entry stays
  pub expires_at : Option Time

pub record World : Type 0 where
  pub db : Tables
  pub redis : List RedisEntry
  -- `NOW()` in the database, and `time.Now()` in the API process
  pub db_now : Time
  pub now : Time
  -- which statements fail, by their number, and the number of the next one
  pub faults : ℕ → Bool
  pub calls : ℕ

abbrev pub Exec : Type 0 → Type 0
Exec A = World → Result A × World

abbrev pub pure : {A : Type 0} → A → Exec A
pure a w = (ok a, w)

abbrev pub raise : {A : Type 0} → Err → Exec A
raise e w = (err e, w)

infixl 5 ◌>>=◌ ◌>>◌
abbrev pub after : {A B : Type 0} → Result A × World → (A → Exec B) → Result B × World
after (ok a, w) f = f a w
after (err e, w) f = (err e, w)

abbrev pub ◌>>=◌ : {A B : Type 0} → Exec A → (A → Exec B) → Exec B
◌>>=◌ m f w = after (m w) f

abbrev pub ◌>>◌ : {B : Type 0} → Exec Unit → Exec B → Exec B
◌>>◌ m k w = after (m w) (λ _. k)

abbrev pub gets : {A : Type 0} → (World → A) → Exec A
gets f w = (ok (f w), w)

abbrev pub lift : {A : Type 0} → Result A → Exec A
lift r w = (r, w)

abbrev pub write : (Tables → Tables) → Exec Unit
write f w = (ok tt, record w { db = f w.db })

-- `err` is looked at, and the method goes on.
unfoldable pub attempt : {A : Type 0} → Exec A → Exec (Result A)
attempt m w = let (r, w') = m w in (ok r, w')

-- An error for what is absent.
abbrev pub found_or : {A : Type 0} → Err → Option A → Exec A
found_or e none = raise e
found_or e (some a) = pure a

-- A value that crypto/rand may fail to give.
abbrev pub drawn : {A : Type 0} → Option A → Exec A
drawn none = raise random_failed
drawn (some a) = pure a

-- One round trip to the database.
unfoldable pub statement : Exec Unit
statement w = (if w.faults w.calls then err database else ok tt, record w { calls = w.calls + 1 })

-- A query: what it reads of the tables.
unfoldable pub query : {A : Type 0} → (Tables → A) → Exec A
unfolding statement
query f = do statement; gets (λ w. f w.db)

-- A statement that changes the tables.
unfoldable pub execute : (Tables → Tables) → Exec Unit
unfolding statement
execute f = do statement; write f

abbrev pub restored : {A : Type 0} → Tables → Result A × World → Result A × World
restored before (ok a, w) = (ok a, w)
restored before (err e, w) = (err e, record w { db = before })

-- Begin, the body, Commit; on an error the deferred Rollback restores the tables.
unfoldable pub transaction : {A : Type 0} → Exec A → Exec A
unfolding statement
transaction body w = restored w.db ((do statement; r ← body; statement; pure r) w)

-- No statement fails.
pub record IsSteady (w : World) : Type 0 where
  pub at_call : (n : ℕ) → w.faults n ≡ false

-- `w'` follows `w` by queries alone: tables, clocks and faults are the same.
pub record Reads (w w' : World) : Type 0 where
  pub db : w'.db ≡ w.db
  pub faults : w'.faults ≡ w.faults
  pub now : w'.now ≡ w.now
  pub db_now : w'.db_now ≡ w.db_now

pub Reads-trans : {u v w : World} → Reads u v → Reads v w → Reads u w
Reads-trans r s = record {
  db = s.db ∙ r.db;
  faults = s.faults ∙ r.faults;
  now = s.now ∙ r.now;
  db_now = s.db_now ∙ r.db_now;
}

pub Reads-IsSteady : {w w' : World} → Reads w w' → IsSteady w → IsSteady w'
Reads-IsSteady r s = record { at_call = λ n. ap (λ (f : ℕ → Bool). f n) r.faults ∙ s.at_call n }
