-- ===== src/Nodes/Tests.antt =====
-- Two nodes, with a server, a player and a command on the first.
use Prim.Native.String.{String}
use talepanel.Base.{
  ℕ, pos, Bool, true, false, not, ◌≡◌, ◌⊎◌, refl, Option, some, none, List, [], ◌∷◌, all, select,
  find, str_eq, split, Text,
}
use talepanel.Store.Tables.{Node, NodeCommand, no_rows}
use talepanel.Store.Exec.{
  World, IsSteady, ok, err, database, command_not_found, statement, execute, query,
}
use talepanel.Store.Sample.{calm}
use talepanel.Address.Validate.{
  validate_node_address, validate_node_host, validate_node_port, bare_host_ok, strip_brackets,
  is_label,
}
use talepanel.Enrollment.Service.{insert_node}
use talepanel.Requests.Auth.{granted}
use talepanel.Requests.Daemon.{daemon_node_auth, cut_prefix}
use talepanel.Nodes.Players.{is_open, plays_on}
use talepanel.Nodes.Service.{
  RegisterNodeRequest, Heartbeat, SelfRegister, has_node_id, registered_node, register_node,
  daemon_self_register, update_node_heartbeat, hosted_on, delete_node_row, delete_node,
}
use talepanel.Nodes.Commands.{ack_command}
use talepanel.Nodes.Calls.{NodeCall, acknowledge, self_register, run_node_call, run_node_calls}
use talepanel.Nodes.Acks.{acked_once}
use talepanel.Nodes.Heartbeat.{heartbeat_pins_issued}
use talepanel.Nodes.Token.{register_node-daemon_node_auth}
use talepanel.Nodes.Hosting.{self_register_resets, stopped_on}

abbrev no_digest : String → String
no_digest text = text

abbrev no_addr : Text → Option Bool
no_addr text = none

abbrev node_a : Node
node_a = record {
  id = 80;
  name = "a";
  fqdn = "a.example";
  public_address = none;
  port = pos 8444;
  total_cpu = pos 8;
  total_ram_mb = pos 100;
  total_disk_mb = pos 100;
  max_servers = pos 10;
  token_hash = "token-a";
  status = "online";
  last_heartbeat = none;
  location = "";
  mtls_enabled = false;
  cert_serial = some "c0ffee";
  cert_not_after = none;
}

abbrev node_b : Node
node_b = record node_a { id = 81; name = "b"; token_hash = "token-b" }

abbrev command : NodeCommand
command = record {
  id = 90;
  node_id = 80;
  command_type = "server.start";
  status = "pending";
  succeeded = none;
  created_at = 0;
  acked_at = none;
}

abbrev cluster : World
cluster = record calm {
  db = record no_rows {
    nodes = node_a ∷ node_b ∷ [];
    servers = record { id = 10; node_id = 80; owner_id = 2; status = "running" } ∷ [];
    players = record { id = 60; server_id = 10; playtime_s = 5 } ∷ [];
    player_sessions =
        record { player_id = 60; joined_at = 0; left_at = none; duration_s = none } ∷ [];
    node_commands = command ∷ [];
  };
}

acked : (ack_command 80 90 true cluster).0 ≡ ok tt
unfolding ack_command statement
acked = refl

abbrev report : SelfRegister
report = record { cpu_cores = pos 4; total_ram_mb = pos 64; total_disk_mb = pos 500 }

abbrev node_calls : List NodeCall
node_calls = self_register 80 report ∷ acknowledge 80 90 false ∷ []

abbrev later_cluster : World
later_cluster = run_node_calls no_digest no_addr node_calls (ack_command 80 90 true cluster).1

acked_once_example :
    ((ack_command 81 90 false later_cluster).0 ≡ err command_not_found)
    × ((ack_command 81 90 false later_cluster).1.db ≡ later_cluster.db)
unfolding ack_command statement run_node_calls run_node_call daemon_self_register execute
acked_once_example =
    acked_once no_digest no_addr 80 81 90 true false node_calls cluster later_cluster refl acked
      refl

abbrev advert : Heartbeat
advert = record {
  status = "";
  mtls_ready = true;
  cert_serial = "c0ffee";
  cert_not_after = some 5000;
}

abbrev pinned : Node
pinned = record node_a {
  status = "online";
  last_heartbeat = some 1000;
  mtls_enabled = true;
  cert_not_after = some 5000;
}

pinned_found :
    find (has_node_id 80) (update_node_heartbeat 80 advert cluster).1.db.nodes ≡ some pinned
unfolding update_node_heartbeat statement
pinned_found = refl

abbrev first_id : ℕ
first_id = 80

heartbeat_pins_issued_example :
    (pinned.mtls_enabled ≡ node_a.mtls_enabled)
    ⊎ ((first_id ≡ 80)
        × (pinned.mtls_enabled ≡ true)
        × (advert.mtls_ready ≡ true)
        × (node_a.cert_serial ≡ some advert.cert_serial)
        × (str_eq advert.cert_serial "" ≡ false))
heartbeat_pins_issued_example =
    heartbeat_pins_issued 80 80 advert cluster node_a pinned refl pinned_found

abbrev newcomer : RegisterNodeRequest
newcomer = record {
  name = "c";
  fqdn = "c.example";
  port = pos 8444;
  location = "fra";
  total_cpu = pos 2;
  total_ram_mb = pos 10;
  total_disk_mb = pos 10;
  max_servers = pos 1;
}

abbrev node_c : Node
node_c = registered_node no_digest no_addr newcomer 82 "token-c"

registered :
    (register_node no_digest no_addr newcomer (some "token-c") 82 cluster).0
    ≡ ok (node_c, "token-c")
unfolding register_node insert_node statement validate_node_address validate_node_host
    validate_node_port bare_host_ok strip_brackets is_label split
registered = refl

header_cut : cut_prefix "Bearer token-c" "Bearer " ≡ some "token-c"
unfolding cut_prefix
header_cut = refl

abbrev grown : World
grown = (register_node no_digest no_addr newcomer (some "token-c") 82 cluster).1

grown-IsSteady : IsSteady grown
unfolding register_node insert_node statement validate_node_address validate_node_host
    validate_node_port bare_host_ok strip_brackets is_label split
grown-IsSteady = record { at_call = λ n. refl }

register_node-daemon_node_auth_example :
    (daemon_node_auth no_digest "Bearer token-c" grown).0 ≡ granted 82
register_node-daemon_node_auth_example =
    register_node-daemon_node_auth no_digest no_addr newcomer (some "token-c") 82 cluster grown
      node_c "token-c" "Bearer token-c" header_cut refl registered refl grown-IsSteady

started_over : (daemon_self_register 80 report cluster).0 ≡ ok tt
unfolding daemon_self_register execute statement
started_over = refl

self_register_resets_example :
    (all (stopped_on 80) (daemon_self_register 80 report cluster).1.db.servers ≡ true)
    × (select (λ s. not (hosted_on 80 s)) (daemon_self_register 80 report cluster).1.db.servers
        ≡ select (λ s. not (hosted_on 80 s)) cluster.db.servers)
    × (all
          (λ s. not (is_open (plays_on 80 cluster.db) s))
          (daemon_self_register 80 report cluster).1.db.player_sessions
        ≡ true)
self_register_resets_example = self_register_resets 80 report cluster started_over

-- The server on it keeps the first node, stopped or not.
kept_node : (delete_node 80 (daemon_self_register 80 report cluster).1).0 ≡ err database
unfolding delete_node delete_node_row query daemon_self_register execute statement
kept_node = refl
