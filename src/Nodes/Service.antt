-- ===== src/Nodes/Service.antt =====
-- NodeService over the database. `digest` is the hex SHA-256 of a text, `parse_addr` is net/netip's
-- ParseAddr; the token of crypto/rand and the new identifier are arguments.
use talepanel.Base.{
  ℕ, ℤ, String, Bool, false, not, ◌&&◌, ◌||◌, ◌==◌, Option, none, some, str_eq, ltb, any, find,
  select, count_where, update_where, if◌then◌else◌, map, Text,
}
use talepanel.Store.Tables.{
  Uuid, Time, ServerRow, Node, NodeCommand, AlertEvent, Enrollment, Tables,
}
use talepanel.Store.Exec.{
  ok, err, database, node_not_found, node_has_servers, Exec, pure, raise, lift, ◌>>=◌, ◌>>◌, gets,
  statement, query, execute, write, found_or, drawn,
}
use talepanel.Address.Validate.{validate_node_address}
use talepanel.Enrollment.Service.{is_int4, insert_node}
use talepanel.Nodes.Players.{close_open_sessions, plays_on}

pub record RegisterNodeRequest : Type 0 where
  pub name : String
  pub fqdn : String
  pub port : ℤ
  pub location : String
  pub total_cpu : ℤ
  pub total_ram_mb : ℤ
  pub total_disk_mb : ℤ
  pub max_servers : ℤ

-- The fields of a heartbeat that the row of the node takes.
pub record Heartbeat : Type 0 where
  pub status : String
  pub mtls_ready : Bool
  pub cert_serial : String
  pub cert_not_after : Option Time

pub record SelfRegister : Type 0 where
  pub cpu_cores : ℤ
  pub total_ram_mb : ℤ
  pub total_disk_mb : ℤ

abbrev pub has_node_id : Uuid → Node → Bool
has_node_id id node = node.id == id

-- UPDATE nodes SET ... WHERE id = $1
abbrev pub update_node_row : Uuid → (Node → Node) → Tables → Tables
update_node_row id change db = record db { nodes = update_where (has_node_id id) change db.nodes }

module _ (digest : String → String) (parse_addr : Text → Option Bool) where
  abbrev pub registered_node : RegisterNodeRequest → Uuid → String → Node
  registered_node req id token = record {
    id = id;
    name = req.name;
    fqdn = req.fqdn;
    public_address = none;
    port = req.port;
    total_cpu = req.total_cpu;
    total_ram_mb = req.total_ram_mb;
    total_disk_mb = req.total_disk_mb;
    max_servers = req.max_servers;
    token_hash = digest token;
    status = "offline";
    last_heartbeat = none;
    location = req.location;
    mtls_enabled = false;
    cert_serial = none;
    cert_not_after = none;
  }

  unfoldable pub register_node : RegisterNodeRequest → Option String → Uuid → Exec (Node × String)
  unfolding insert_node
  register_node req random id = do
    lift (validate_node_address parse_addr req.fqdn req.port "")
    token ← drawn random
    insert_node (registered_node req id token)
    pure (registered_node req id token, token)

abbrev pub report_hardware : SelfRegister → Time → Node → Node
report_hardware req now node = record node {
  total_cpu = req.cpu_cores;
  total_ram_mb = req.total_ram_mb;
  total_disk_mb = req.total_disk_mb;
  status = "online";
  last_heartbeat = some now;
}

abbrev pub is_running_on : Uuid → ServerRow → Bool
is_running_on node_id row = row.node_id == node_id && not (str_eq row.status "stopped")

abbrev pub stop_row : ServerRow → ServerRow
stop_row row = record row { status = "stopped" }

abbrev pub stop_servers : Uuid → Tables → Tables
stop_servers node_id db = record db {
  servers = update_where (is_running_on node_id) stop_row db.servers;
}

unfoldable pub daemon_self_register : Uuid → SelfRegister → Exec Unit
unfolding statement execute
daemon_self_register node_id req = do
  now ← gets (λ w. w.db_now)
  statement
  lift (if is_int4 req.cpu_cores then ok tt else err database)
  write (update_node_row node_id (report_hardware req now))
  execute (stop_servers node_id)
  execute (λ db. close_open_sessions (plays_on node_id db) now db)

abbrev pub default_status : String → String
default_status status = if str_eq status "" then "online" else status

-- The values of the type node_status.
abbrev pub is_node_status : String → Bool
is_node_status status =
    str_eq status "online" || str_eq status "offline" || str_eq status "draining"

abbrev same_serial : Option String → String → Bool
same_serial none serial = false
same_serial (some recorded) serial = str_eq recorded serial && not (str_eq serial "")

-- COALESCE($4 AND cert_serial = NULLIF($5, ''), false)
abbrev pub accepts_cert : Heartbeat → Node → Bool
accepts_cert req node = req.mtls_ready && same_serial node.cert_serial req.cert_serial

abbrev pub beat : Heartbeat → Time → Node → Node
beat req now node = record node {
  status = default_status req.status;
  last_heartbeat = some now;
  mtls_enabled = node.mtls_enabled || accepts_cert req node;
  cert_not_after = if accepts_cert req node then req.cert_not_after else node.cert_not_after;
}

-- The answer says whether the node's certificate was refused.
unfoldable pub update_node_heartbeat : Uuid → Heartbeat → Exec Bool
unfolding statement
update_node_heartbeat node_id req = do
  statement
  now ← gets (λ w. w.now)
  lift (if is_node_status (default_status req.status) then ok tt else err database)
  found ← gets (λ w. find (has_node_id node_id) w.db.nodes)
  node ← found_or node_not_found found
  write (update_node_row node_id (beat req now))
  pure (req.mtls_ready && not (accepts_cert req node))

abbrev pub set_status : String → Node → Node
set_status status node = record node { status = status }

unfoldable pub set_node_status : Uuid → String → Exec Unit
unfolding statement
set_node_status node_id status = do
  statement
  lift (if is_node_status status then ok tt else err database)
  affected ← gets (λ w. count_where (has_node_id node_id) w.db.nodes)
  write (update_node_row node_id (set_status status))
  if affected == 0 then raise node_not_found else pure tt

abbrev pub is_active_on : Uuid → ServerRow → Bool
is_active_on node_id row =
    row.node_id == node_id && not (str_eq row.status "stopped" || str_eq row.status "crashed")

abbrev pub hosted_on : Uuid → ServerRow → Bool
hosted_on node_id row = row.node_id == node_id

abbrev pub unless_node : Uuid → Option Uuid → Option Uuid
unless_node id none = none
unless_node id (some other) = if other == id then none else some other

abbrev pub forget_node : Uuid → AlertEvent → AlertEvent
forget_node id event = record event { node_id = unless_node id event.node_id }

abbrev pub forget_enrolled : Uuid → Enrollment → Enrollment
forget_enrolled id row = record row { node_id = unless_node id row.node_id }

-- What goes with a node, by the foreign keys of the modelled tables.
abbrev pub remove_node : Uuid → Tables → Tables
remove_node id db = record db {
  nodes = select (λ n. not (has_node_id id n)) db.nodes;
  node_commands = select (λ (c : NodeCommand). not (c.node_id == id)) db.node_commands;
  alert_events = map (forget_node id) db.alert_events;
  node_enrollments = map (forget_enrolled id) db.node_enrollments;
}

-- servers.node_id has no ON DELETE action: a node with servers, stopped ones too, is not deleted.
unfoldable pub delete_node_row : Uuid → Exec ℕ
unfolding statement
delete_node_row id = do
  statement
  hosts ← gets (λ w. any (hosted_on id) w.db.servers)
  lift (if hosts then err database else ok tt)
  affected ← gets (λ w. count_where (has_node_id id) w.db.nodes)
  write (remove_node id)
  pure affected

unfoldable pub delete_node : Uuid → Exec Unit
unfolding query delete_node_row
delete_node node_id = do
  active ← query (λ db. count_where (is_active_on node_id) db.servers)
  lift (if ltb 0 active then err node_has_servers else ok tt)
  affected ← delete_node_row node_id
  if affected == 0 then raise node_not_found else pure tt
