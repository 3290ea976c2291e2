-- ===== src/Enrollment/Service.antt =====
-- EnrollmentService over the database. `digest` is the hex SHA-256 of a text, `parse_addr` is
-- net/netip's ParseAddr; the tokens of crypto/rand (in hex) and the new identifiers are arguments.
use talepanel.Base.{
  ℤ, pos, ltb_ℤ, eqb_ℤ, String, Bool, true, false, not, ◌&&◌, ◌||◌, ◌+◌, ◌*◌, Option, none, some,
  [], ◌∷◌, ◌++◌, str_eq, ◌==◌, ltb, any, find, is_some, update_where, if◌then◌else◌, Text, negsuc,
  leb, length, codes,
}
use talepanel.Store.Tables.{Uuid, Time, minute, Tables, Enrollment as Row, Node}
use talepanel.Store.Exec.{
  Result, ok, err, database, node_name_required, invalid_node_address, enrollment_not_found,
  enrollment_expired, Exec, pure, raise, lift, ◌>>=◌, ◌>>◌, gets, statement, query, execute, write,
  transaction, found_or, drawn,
}
use talepanel.Permissions.Service.{known_user}
use talepanel.Address.Validate.{validate_node_address}

pub record CreateRequest : Type 0 where
  pub node_name : String
  pub total_cpu : ℤ
  pub total_ram_mb : ℤ
  pub total_disk_mb : ℤ
  pub max_servers : ℤ
  -- none for uuid.Nil
  pub created_by : Option Uuid
  -- a duration; no caller passes a negative one
  pub ttl : Time

pub record RedeemPayload : Type 0 where
  pub fqdn : String
  pub port : ℤ
  pub public_address : String

abbrev pub nullable_int : ℤ → Option ℤ
nullable_int v = if eqb_ℤ v (pos 0) then none else some v

abbrev pub value_or_zero : Option ℤ → ℤ
value_or_zero none = pos 0
value_or_zero (some v) = v

abbrev pub default_max_servers : ℤ → ℤ
default_max_servers n = if ltb_ℤ (pos 0) n then n else pos 10

abbrev pub default_ttl : Time → Time
default_ttl ttl = if ttl == 0 then 15 * minute else ttl

abbrev known_creator : Option Uuid → Tables → Bool
known_creator none db = true
known_creator (some user_id) db = known_user user_id db

abbrev pub has_hash : String → Row → Bool
has_hash hash row = str_eq row.token_hash hash

-- The range of the type INTEGER, and of BIGINT.
abbrev pub is_int4 : ℤ → Bool
is_int4 v = not (ltb_ℤ v (negsuc 2147483647)) && not (ltb_ℤ (pos 2147483647) v)

abbrev pub is_int8 : ℤ → Bool
is_int8 v = not (ltb_ℤ v (negsuc 9223372036854775807)) && not (ltb_ℤ (pos 9223372036854775807) v)

abbrev pub null_or_int4 : Option ℤ → Bool
null_or_int4 none = true
null_or_int4 (some v) = is_int4 v

abbrev pub has_id_or_hash : Uuid → String → Row → Bool
has_id_or_hash id hash row = row.id == id || has_hash hash row

-- The types, the keys and the foreign key of node_enrollments.
unfoldable pub accepts_enrollment : Row → Tables → Bool
accepts_enrollment row db =
    null_or_int4 row.total_cpu
    && null_or_int4 row.total_ram_mb
    && null_or_int4 row.total_disk_mb
    && is_int4 row.max_servers
    && known_creator row.created_by db
    && not (any (has_id_or_hash row.id row.token_hash) db.node_enrollments)

abbrev pub add_enrollment : Row → Tables → Tables
add_enrollment row db = record db { node_enrollments = db.node_enrollments ++ row ∷ [] }

unfoldable pub insert_enrollment : Row → Exec Unit
unfolding statement accepts_enrollment
insert_enrollment row = do
  statement
  valid ← gets (λ w. accepts_enrollment row w.db)
  if valid then write (add_enrollment row) else raise database

abbrev required : String → Exec Unit
required name = if str_eq name "" then raise node_name_required else pure tt

module _ (digest : String → String) where
  abbrev pub new_row : CreateRequest → Uuid → String → Time → Time → Row
  new_row req id plain now db_now = record {
    id = id;
    token_hash = digest plain;
    node_name = req.node_name;
    total_cpu = nullable_int req.total_cpu;
    total_ram_mb = nullable_int req.total_ram_mb;
    total_disk_mb = nullable_int req.total_disk_mb;
    max_servers = default_max_servers req.max_servers;
    created_by = req.created_by;
    created_at = db_now;
    expires_at = now + default_ttl req.ttl;
    used_at = none;
    node_id = none;
  }

  -- What the caller is shown of the row: no capacities, and the API's clock.
  abbrev pub shown_row : CreateRequest → Uuid → String → Time → Time → Row
  shown_row req id plain now db_now = record (new_row req id plain now db_now) {
    total_cpu = none;
    total_ram_mb = none;
    total_disk_mb = none;
    created_at = now;
  }

  -- The enrollment, and the plaintext token.
  unfoldable pub create_enrollment : Option String → Uuid → CreateRequest → Exec (Row × String)
  unfolding insert_enrollment
  create_enrollment random id req = do
    required req.node_name
    plain ← drawn random
    now ← gets (λ w. w.now)
    db_now ← gets (λ w. w.db_now)
    insert_enrollment (new_row req id plain now db_now)
    pure (shown_row req id plain now db_now, plain)

abbrev pub set_used : Uuid → Time → Row → Row
set_used node_id now row = record row { used_at = some now; node_id = some node_id }

-- `enr.UsedAt != nil`, and the expiry.
abbrev pub usable : Time → Row → Result (Unit {0})
usable now row =
    if is_some row.used_at
    then err enrollment_not_found
    else (if ltb row.expires_at now then err enrollment_expired else ok tt)

-- CHECK (char_length(name) BETWEEN 1 AND 100)
abbrev pub name_length : String → Bool
name_length name = leb 1 (length (codes name)) && leb (length (codes name)) 100

-- CHECK (port BETWEEN 1 AND 65535)
abbrev pub port_range : ℤ → Bool
port_range port = not (ltb_ℤ port (pos 1)) && not (ltb_ℤ (pos 65535) port)

-- CHECK (max_servers > 0), in the range of INTEGER
abbrev pub max_servers_positive : ℤ → Bool
max_servers_positive n = ltb_ℤ (pos 0) n && is_int4 n

-- The types and the CHECKs of a row of nodes.
unfoldable pub node_checks : Node → Bool
node_checks node =
    name_length node.name
    && port_range node.port
    && max_servers_positive node.max_servers
    && is_int4 node.total_cpu
    && is_int8 node.total_ram_mb
    && is_int8 node.total_disk_mb

-- Neither the identifier nor the token is in use.
abbrev pub is_new_node : Uuid → String → Tables → Bool
is_new_node id token_hash db =
    not (any (λ (n : Node). n.id == id || str_eq n.token_hash token_hash) db.nodes)

unfoldable pub accepts_node : Node → Tables → Bool
unfolding node_checks
accepts_node node db = node_checks node && is_new_node node.id node.token_hash db

abbrev pub add_node : Node → Tables → Tables
add_node node db = record db { nodes = db.nodes ++ node ∷ [] }

unfoldable pub insert_node : Node → Exec Unit
unfolding statement accepts_node
insert_node node = do
  statement
  valid ← gets (λ w. accepts_node node w.db)
  if valid then write (add_node node) else raise database

abbrev address_or_null : String → Option String
address_or_null address = if str_eq address "" then none else some address

-- UPDATE node_enrollments SET used_at = NOW(), node_id = $1 WHERE id = $2
unfoldable pub mark_used : Uuid → Row → Exec Unit
unfolding execute
mark_used node_id row = do
  now ← gets (λ w. w.db_now)
  execute λ db. record db {
    node_enrollments =
        update_where (λ r. r.id == row.id) (set_used node_id now) db.node_enrollments;
  }

module _ (digest : String → String) (parse_addr : Text → Option Bool) where
  abbrev pub new_node : Row → RedeemPayload → Uuid → String → Node
  new_node row payload id node_token = record {
    id = id;
    name = row.node_name;
    fqdn = payload.fqdn;
    public_address = address_or_null payload.public_address;
    port = payload.port;
    total_cpu = value_or_zero row.total_cpu;
    total_ram_mb = value_or_zero row.total_ram_mb;
    total_disk_mb = value_or_zero row.total_disk_mb;
    max_servers = row.max_servers;
    token_hash = digest node_token;
    status = "offline";
    last_heartbeat = none;
    location = "";
    mtls_enabled = false;
    cert_serial = none;
    cert_not_after = none;
  }

  -- Between Begin and Commit, from the locked row on.
  unfoldable pub redeem_row : RedeemPayload → Option String → Uuid → Row → Exec (Node × String)
  redeem_row payload random node_id row = do
    now ← gets (λ w. w.now)
    lift (usable now row)
    node_token ← drawn random
    insert_node (new_node row payload node_id node_token)
    mark_used node_id row
    pure (new_node row payload node_id node_token, node_token)

  unfoldable pub redeem_locked :
      String → RedeemPayload → Option String → Uuid → Exec (Node × String)
  redeem_locked plain payload random node_id = do
    found ← query (λ db. find (has_hash (digest plain)) db.node_enrollments)
    row ← found_or enrollment_not_found found
    redeem_row payload random node_id row

  -- The checks of the payload come before any statement.
  unfoldable pub check_payload : RedeemPayload → Result (Unit {0})
  check_payload payload =
      if str_eq payload.fqdn "" || eqb_ℤ payload.port (pos 0)
      then err invalid_node_address
      else validate_node_address parse_addr payload.fqdn payload.port payload.public_address

  unfoldable pub redeem : String → RedeemPayload → Option String → Uuid → Exec (Node × String)
  redeem plain payload random node_id = do
    lift (check_payload payload)
    transaction (redeem_locked plain payload random node_id)
