-- ===== src/Accounts/Outside.antt =====
-- What services/auth_service.go calls outside the repository, and the claims of its tokens.
use talepanel.Base.{ℕ, String, Bool, Option, Unicode, trim_space, to_lower_string, str_eq}
use talepanel.Store.Tables.{Uuid, Time}

-- The keys of config.Config: JWTSecret and JWTRefreshSecret.
pub data SigningKey : Type 0 where
  access_key refresh_key : SigningKey

-- jwt.MapClaims, none for a claim that is absent.
pub record JwtClaims : Type 0 where
  pub sub : Option String
  pub role : Option String
  pub jti : Option String
  pub kind : Option String
  pub iat : Option ℕ
  pub exp : Option ℕ

pub record Outside : Type 0 where
  pub unicode : Unicode
  -- SHA-256 in hex
  pub digest : String → String
  -- bcrypt: of a hash and a password, and of a salt and a password, which fails for a long one
  pub compare_password : String → String → Bool
  pub hash_password : String → String → Option String
  -- golang-jwt with HS256; a token is parsed at a time
  pub sign : SigningKey → JwtClaims → Option String
  pub parse_token : SigningKey → Time → String → Option JwtClaims
  -- the textual form of a UUID
  pub uuid_text : Uuid → String
  pub parse_uuid : String → Option Uuid
  -- totp.Validate of a code and a secret at a time
  pub validate_totp : String → String → Time → Bool
  -- AES-GCM under TOTPEncKey: of a nonce and a text, and back
  pub encrypt : String → String → Option String
  pub decrypt : String → Option String
  -- what PostgreSQL takes for an `inet`
  pub is_inet : String → Bool

-- The random values of one call: the identifier of the access token, that of the new session, and
-- the refresh token, none where crypto/rand fails.
pub record Draws : Type 0 where
  pub jti : String
  pub session_id : Uuid
  pub refresh_token : Option String

-- The caller's address and its User-Agent.
pub record Client : Type 0 where
  pub ip : String
  pub user_agent : String

module _ (lib : Outside) where
  -- strings.ToLower(strings.TrimSpace(email))
  abbrev pub normal_email : String → String
  normal_email email = to_lower_string lib.unicode (trim_space email)

  -- Equality of CITEXT values, and of lower(a) and lower(b).
  abbrev pub citext_eq : String → String → Bool
  citext_eq a b = str_eq (to_lower_string lib.unicode a) (to_lower_string lib.unicode b)
