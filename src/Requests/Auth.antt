-- ===== src/Requests/Auth.antt =====
-- AuthRequired of middleware/auth.go. `parse_token` is
-- jwt.Parse with the HS256 key: the claims of a token that verifies.
use Prim.Native.Char.{Char, code}
use Prim.Native.String.{String}
use mathlib.Core.Option
use talepanel.Base.{
  ℕ, Bool, true, false, is_some, Option, none, some, str_eq, ◌==◌, find, Unicode, equal_fold,
  if◌then◌else◌, ◌≡◌, refl, sym, ap, ◌∙◌, arith, Bool-cases, inl, inr,
}
use talepanel.Store.Tables.{Uuid, User, Tables, without_secret}
use talepanel.Store.Exec.{Result, ok, err, World, query, statement}
use talepanel.Store.Laws.{query-inv}
use talepanel.Store.Redis.{redis_exists, is_live}
use talepanel.Accounts.Login.{blacklist_key}

-- The claims `jti` and `sub`, none where they are absent or no text.
pub record Claims : Type 0 where
  pub jti : Option String
  pub sub : Option String

-- The request goes on with a user or a node in its context, or it is answered.
pub data Access (A : Type 0) : Type 0 where
  granted : A → Access A
  refused : ℕ → Access A

abbrev before : Char → Option (String × String) → Option (String × String)
before c none = none
before c (some (scheme, token)) = some (String.◌∷◌ c scheme, token)

-- `strings.SplitN(header, " ", 2)`: what stands before and behind the first space.
unfoldable pub split_header : String → Option (String × String)
split_header String.[] = none
split_header (String.◌∷◌ c s) = elim (code c == 32) [
  | true ↦ some (String.[], s)
  | false ↦ before c (split_header s)
]

abbrev pub loaded : Result (Option User) → Access User
loaded (err e) = refused 500
loaded (ok none) = refused 401
loaded (ok (some user)) = if user.is_active then granted user else refused 403

abbrev pub user_by_id : Uuid → Tables → Option User
user_by_id user_id db = Option.map without_secret (find (λ (u : User). u.id == user_id) db.users)

abbrev pub not_empty : Option String → Option String
not_empty none = none
not_empty (some s) = if str_eq s "" then none else some s

module _ (unicode : Unicode) (parse_token : String → Option Claims)
    (parse : String → Option Uuid) where
  abbrev pub load_user : Option Uuid → World → Access User × World
  load_user none w = (refused 401, w)
  load_user (some user_id) w = let (r, w') = query (user_by_id user_id) w in (loaded r, w')

  abbrev pub parsed_sub : Option String → Option Uuid
  parsed_sub none = none
  parsed_sub (some sub) = parse sub

  -- Behind the EXISTS of the blacklist.
  abbrev pub unlisted : Option String → Result Bool × World → Access User × World
  unlisted sub (err e, w) = (refused 500, w)
  unlisted sub (ok listed, w) =
      if listed then (refused 401, w) else load_user (parsed_sub (not_empty sub)) w

  abbrev pub identified : Option String → Option String → World → Access User × World
  identified none sub w = (refused 401, w)
  identified (some jti) sub w = unlisted sub (redis_exists (blacklist_key jti) w)

  abbrev pub claimed : Option Claims → World → Access User × World
  claimed none w = (refused 401, w)
  claimed (some claims) w = identified (not_empty claims.jti) claims.sub w

  abbrev pub bearer : Option (String × String) → World → Access User × World
  bearer none w = (refused 401, w)
  bearer (some (scheme, token)) w =
      if equal_fold unicode scheme "Bearer" then claimed (parse_token token) w else (refused 401, w)

  unfoldable pub auth_required : String → World → Access User × World
  auth_required header w =
      if str_eq header "" then (refused 401, w) else bearer (split_header header) w

  loaded-inv :
      (r : Result (Option User)) (user : User)
      → loaded r ≡ granted user
      → (r ≡ ok (some user)) × (user.is_active ≡ true)
  loaded-inv (err e) user h = ground arith
  loaded-inv (ok none) user h = ground arith
  loaded-inv (ok (some found)) user h = elim (Bool-cases found.is_active) [
    | inl active ↦ (ground (arith, active), ground (arith, active))
    | inr idle ↦ ground (arith, idle)
  ]

  load_user-inv :
      (o : Option Uuid) (w : World) (user : User)
      → (load_user o w).0 ≡ granted user
      → (id : Uuid) × (o ≡ some id) × (user_by_id id w.db ≡ some user) × (user.is_active ≡ true)
  load_user-inv none w user h = ground arith
  load_user-inv (some id) w user h =
      let (found, active) = loaded-inv (query (user_by_id id) w).0 user h in
      (id, refl, query-inv (user_by_id id) w found, active)

  unlisted-inv :
      (sub : Option String) (r : Result Bool) (w : World) (user : User)
      → (unlisted sub (r, w)).0 ≡ granted user
      → (r ≡ ok false) × ((load_user (parsed_sub (not_empty sub)) w).0 ≡ granted user)
  unlisted-inv sub (err e) w user h = ground arith
  unlisted-inv sub (ok true) w user h = ground arith
  unlisted-inv sub (ok false) w user h = (refl, h)

  redis_exists-inv :
      (key : String) (w : World)
      → (redis_exists key w).0 ≡ ok false
      → is_some (find (is_live key w.now) w.redis) ≡ false
  unfolding redis_exists statement
  redis_exists-inv key w h = ground arith

  redis_exists-db : (key : String) (w : World) → (redis_exists key w).1.db ≡ w.db
  unfolding redis_exists statement
  redis_exists-db key w = ground arith

  -- What a request that passes has shown.
  pub record IsSignedIn (token : String) (user : User) (w : World) : Type 0 where
    pub claims : Claims
    pub verified : parse_token token ≡ some claims
    pub jti : String
    pub has_jti : not_empty claims.jti ≡ some jti
    pub not_revoked : is_some (find (is_live (blacklist_key jti) w.now) w.redis) ≡ false
    pub id : Uuid
    pub subject : parsed_sub (not_empty claims.sub) ≡ some id
    pub stored : user_by_id id w.db ≡ some user
    pub active : user.is_active ≡ true

  identified-inv :
      (o sub : Option String) (w : World) (user : User)
      → (identified o sub w).0 ≡ granted user
      → (jti : String) × (o ≡ some jti)
        × ((unlisted sub (redis_exists (blacklist_key jti) w)).0 ≡ granted user)
  identified-inv none sub w user h = ground arith
  identified-inv (some jti) sub w user h = (jti, refl, h)

  claimed-inv :
      (o : Option Claims) (token : String) (w : World) (user : User)
      → parse_token token ≡ o
      → (claimed o w).0 ≡ granted user
      → IsSignedIn token user w
  claimed-inv none token w user parsed h = ground arith
  claimed-inv (some claims) token w user parsed h =
      let (jti, has_jti, h1) = identified-inv (not_empty claims.jti) claims.sub w user h in
      let (answer, v) = redis_exists (blacklist_key jti) w in
      let (unlisted_, h2) = unlisted-inv claims.sub answer v user h1 in
      let (id, subject, stored, active) =
        load_user-inv (parsed_sub (not_empty claims.sub)) v user h2 in
      record {
        claims = claims;
        verified = parsed;
        jti = jti;
        has_jti = has_jti;
        not_revoked = redis_exists-inv (blacklist_key jti) w unlisted_;
        id = id;
        subject = subject;
        stored = ap (user_by_id id) (sym (redis_exists-db (blacklist_key jti) w)) ∙ stored;
        active = active;
      }

  bearer-inv :
      (o : Option (String × String)) (w : World) (user : User)
      → (bearer o w).0 ≡ granted user
      → (scheme : String) × (token : String) × (o ≡ some (scheme, token))
        × (equal_fold unicode scheme "Bearer" ≡ true)
        × IsSignedIn token user w
  bearer-inv none w user h = absurd (ground arith)
  bearer-inv (some (scheme, token)) w user h =
      elim (Bool-cases (equal_fold unicode scheme "Bearer")) [
        | inl named ↦ (
          scheme,
          token,
          refl,
          named,
          claimed-inv (parse_token token) token w user refl (
              ap (λ b. (if b then claimed (parse_token token) w else (refused 401, w)).0)
                (sym named)
              ∙ h),
        )
        | inr other ↦ absurd cc
      ]

  -- A request that AuthRequired lets through carries a bearer token that verifies, whose identifier is
  -- given and not on the blacklist in Redis, and whose subject is a stored user; that user is active, and is
  -- the one that the handlers see.
  pub auth_required-IsSignedIn :
      (header : String) (w : World) (user : User)
      → (auth_required header w).0 ≡ granted user
      → (scheme : String) × (token : String) × (split_header header ≡ some (scheme, token))
        × (equal_fold unicode scheme "Bearer" ≡ true)
        × IsSignedIn token user w
  unfolding auth_required
  auth_required-IsSignedIn header w user h = elim (Bool-cases (str_eq header "")) [
    | inl missing ↦ absurd cc
    | inr given ↦ bearer-inv (split_header header) w user (
        ap (λ b. (if b then (refused 401, w) else bearer (split_header header) w).0) (sym given)
        ∙ h)
  ]
