-- ===== src/Requests/Tests.antt =====
-- The middleware on concrete requests.
use Prim.Native.String.{String}
use talepanel.Base.{
  pos, ℕ, zero, suc, ap, arith, ◌⊎◌, inl, inr, ◌↔◌, negsuc, ◌≤◌, ◌-◌, ◌*◌, true, false, Option,
  none, some, List, [], ◌∷◌, length, str_eq, if◌then◌else◌, plain_unicode, equal_fold,
  to_lower_string, ◌≡◌, refl,
}
use talepanel.Store.Tables.{Node, Uuid, second}
use talepanel.Store.Exec.{World, query, statement}
use talepanel.Requests.Daemon.{
  daemon_node_auth, cut_prefix, node_by_hash, daemon_node_auth_identified,
}
use talepanel.Store.Sample.{bob, calm}
use talepanel.Requests.RateLimit.{Request, passed, passed_bound, hits_of, rate_limit, increment}
use talepanel.Requests.BodyLimit.{body, body_limit, body_limit_for, default_body_limit}
use talepanel.Requests.Audit.{audited, IsUncut, audited_body_cut}
use talepanel.Requests.Redaction.{
  Json, text, object, entry, end_of_entries, clean_payload_value, clean_payload_value_storable,
  is_storable, is_sensitive, clean_payload_string, put,
}
use talepanel.Store.Redis.{redis_exists}
use talepanel.Requests.Auth.{
  Claims, granted, auth_required, auth_required-IsSignedIn, split_header, IsSignedIn,
}
use talepanel.Base.{codes, split, split_from}
use talepanel.Address.Filename.{strip_slashes}
use talepanel.Requests.Action.{
  Segments, build_action_name, extract_target_type, one_slash, drop_slashes, to_snake, snake,
}

-- Three requests of one client and one of another, with two allowed a minute.
abbrev burst : List Request
burst =
    record { ip = "1.2.3.4"; at = 5 * second; lost = false }
    ∷ record { ip = "1.2.3.4"; at = 6 * second; lost = false }
    ∷ record { ip = "5.6.7.8"; at = 7 * second; lost = false }
    ∷ record { ip = "1.2.3.4"; at = 8 * second; lost = false }
    ∷ []

two_pass : passed 2 "1.2.3.4" 0 burst [] ≡ 2
unfolding rate_limit hits_of increment
two_pass = refl

passed_bound_example : passed 2 "1.2.3.4" 0 burst [] ≤ 2 - hits_of "1.2.3.4" 0 []
passed_bound_example = passed_bound 2 "1.2.3.4" 0 burst []

abbrev braces : List ℕ
braces = 123 ∷ 125 ∷ []

default_limit : body_limit_for "/api/v1/auth/login" ≡ some default_body_limit
unfolding body_limit_for
default_limit = refl

small_body : body_limit "/api/v1/auth/login" (negsuc 0) (some braces) ≡ body braces
unfolding body_limit body_limit_for
small_body = refl

-- A body of 64 KB and one byte.
unfoldable repeated : ℕ → List ℕ
repeated zero = []
repeated (suc n) = 120 ∷ repeated n

length-repeated : (n : ℕ) → length (repeated n) ≡ n
unfolding repeated
length-repeated zero = refl
length-repeated (suc n) = ap suc (length-repeated n)

audited_body_cut_example :
    (got : List ℕ) × (audited "PUT" "application/json" (body (repeated 65537)) ≡ body got)
    × ((length got ≤ 65536) ⊎ (got ≡ repeated 65537))
    × ((got ≡ repeated 65537) ↔ IsUncut "PUT" "application/json" (repeated 65537))
audited_body_cut_example = audited_body_cut "PUT" "application/json" (repeated 65537)

too_long : ¬ IsUncut "PUT" "application/json" (repeated 65537)
too_long (inl reads) = absurd (ground (arith, reads))
too_long (inr (inl parts)) = absurd (ground (arith, parts))
too_long (inr (inr short)) = absurd (ground (arith, length-repeated 65537, short))

abbrev login : Json
login = object (entry "user" (text "bob") (entry "password" (text "hunter2") end_of_entries))

login_redacted :
    clean_payload_value plain_unicode login
    ≡ object (entry "user" (text "bob") (entry "password" (text "[REDACTED]") end_of_entries))
unfolding clean_payload_value is_sensitive clean_payload_string put to_lower_string
login_redacted = refl

clean_payload_value_storable_example :
    is_storable plain_unicode (clean_payload_value plain_unicode login) ≡ true
clean_payload_value_storable_example = clean_payload_value_storable plain_unicode login

abbrev claims : Claims
claims = record { jti = some "j1"; sub = some "three" }

abbrev parse_token : String → Option Claims
parse_token token = if str_eq token "good" then some claims else none

abbrev parse : String → Option Uuid
parse sub = if str_eq sub "three" then some 3 else none

signed_in : (auth_required plain_unicode parse_token parse "Bearer good" calm).0 ≡ granted bob
unfolding auth_required split_header equal_fold query redis_exists statement
signed_in = refl

auth_required-IsSignedIn_example :
    (scheme : String) × (token : String) × (split_header "Bearer good" ≡ some (scheme, token))
    × (equal_fold plain_unicode scheme "Bearer" ≡ true)
    × IsSignedIn plain_unicode parse_token parse token bob calm
auth_required-IsSignedIn_example =
    auth_required-IsSignedIn plain_unicode parse_token parse "Bearer good" calm bob signed_in

abbrev daemon : Node
daemon = record {
  id = 60;
  name = "node-1";
  fqdn = "node-1.example";
  public_address = none;
  port = pos 8444;
  total_cpu = pos 8;
  total_ram_mb = pos 0;
  total_disk_mb = pos 0;
  max_servers = pos 10;
  token_hash = "node-token";
  status = "online";
  last_heartbeat = none;
  location = "";
  mtls_enabled = false;
  cert_serial = none;
  cert_not_after = none;
}

abbrev with_node : World
with_node = record calm { db = record calm.db { nodes = daemon ∷ [] } }

abbrev digest : String → String
digest token = token

daemon_granted : (daemon_node_auth digest "Bearer node-token" with_node).0 ≡ granted 60
unfolding daemon_node_auth cut_prefix query statement
daemon_granted = refl

daemon_node_auth_identified_example :
    (token : String) × (node : Node) × (cut_prefix "Bearer node-token" "Bearer " ≡ some token)
    × (str_eq token "" ≡ false)
    × (node_by_hash (digest token) with_node.db ≡ some node)
    × (node.id ≡ 60)
daemon_node_auth_identified_example =
    daemon_node_auth_identified digest "Bearer node-token" with_node 60 daemon_granted

-- No segment is a UUID.
abbrev no_uuids : Segments
no_uuids = record { is_uuid = λ part. false; is_word = λ c. false; lower = λ c. c }

number_kept :
    build_action_name no_uuids (codes "POST") (codes "/api/v1/servers/123/start")
    ≡ codes "post_servers_123_start"
unfolding build_action_name split split_from one_slash drop_slashes strip_slashes to_snake snake
number_kept = refl

mod_target : extract_target_type no_uuids (codes "/api/v1//server-mods/") ≡ codes "server-mods"
unfolding extract_target_type split split_from drop_slashes strip_slashes
mod_target = refl
