-- ===== src/Store/Redis.antt =====
-- The commands of Redis that the services send. An entry lives until it expires; a command fails
-- as a statement does.
use talepanel.Base.{
  ◌+◌, String, Bool, true, not, ◌&&◌, ◌==◌, Option, none, some, List, ◌∷◌, str_eq, ltb, find,
  select, is_some, if◌then◌else◌,
}
use talepanel.Store.Tables.{Time}
use talepanel.Store.Exec.{RedisValue, RedisEntry, Exec, ◌>>◌, statement, gets, ok}

abbrev pub unexpired : Option Time → Time → Bool
unexpired none now = true
unexpired (some expires_at) now = ltb now expires_at

abbrev pub is_live : String → Time → RedisEntry → Bool
is_live key now entry = str_eq entry.key key && unexpired entry.expires_at now

abbrev value_of : Option RedisEntry → Option RedisValue
value_of none = none
value_of (some entry) = some entry.value

-- Go-redis sends no expiry for a duration of 0.
abbrev pub expiry : Time → Time → Option Time
expiry now ttl = if ttl == 0 then none else some (now + ttl)

abbrev pub put : RedisEntry → List RedisEntry → List RedisEntry
put entry entries = entry ∷ select (λ (e : RedisEntry). not (str_eq e.key entry.key)) entries

-- GET: none where `redis.Nil` is the answer.
unfoldable pub redis_get : String → Exec (Option RedisValue)
unfolding statement
redis_get key = do statement; gets (λ w. value_of (find (is_live key w.now) w.redis))

-- EXISTS
unfoldable pub redis_exists : String → Exec Bool
unfolding statement
redis_exists key = do statement; gets (λ w. is_some (find (is_live key w.now) w.redis))

abbrev redis_write : String → RedisValue → Time → Exec Unit
redis_write key value ttl w = (
  ok tt,
  record w {
    redis = put (record { key = key; value = value; expires_at = expiry w.now ttl }) w.redis;
  },
)

-- SET with an expiry
unfoldable pub redis_set : String → RedisValue → Time → Exec Unit
unfolding statement
redis_set key value ttl = do statement; redis_write key value ttl
