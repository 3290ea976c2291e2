-- ===== src/Nodes/Commands.antt =====
-- The commands queued for a node: GetPendingCommands and AckCommand of services/node_service.go.
use talepanel.Base.{
  String, Bool, ◌&&◌, ◌==◌, some, List, str_eq, select, count_where, update_where, if◌then◌else◌,
}
use talepanel.Store.Tables.{Uuid, Time, NodeCommand}
use talepanel.Store.Exec.{
  command_not_found, Exec, pure, raise, ◌>>=◌, ◌>>◌, gets, statement, query, write,
}

abbrev pub is_pending : NodeCommand → Bool
is_pending command = str_eq command.status "pending"

-- The ORDER BY of the query is `sorted`.
unfoldable pub get_pending_commands :
    (List NodeCommand → List NodeCommand) → Uuid → Exec (List NodeCommand)
unfolding query
get_pending_commands sorted node_id = query (λ db.
    sorted (select (λ (c : NodeCommand). c.node_id == node_id && is_pending c) db.node_commands))

abbrev pub ack_status : Bool → String
ack_status success = if success then "acked" else "failed"

abbrev pub ack : Bool → Time → NodeCommand → NodeCommand
ack success now command = record command {
  status = ack_status success;
  succeeded = some success;
  acked_at = some now;
}

abbrev pub awaits : Uuid → Uuid → NodeCommand → Bool
awaits node_id command_id command =
    command.id == command_id && command.node_id == node_id && is_pending command

unfoldable pub ack_command : Uuid → Uuid → Bool → Exec Unit
unfolding statement
ack_command node_id command_id success = do
  statement
  now ← gets (λ w. w.db_now)
  affected ← gets (λ w. count_where (awaits node_id command_id) w.db.node_commands)
  write λ db. record db {
    node_commands = update_where (awaits node_id command_id) (ack success now) db.node_commands;
  }
  if affected == 0 then raise command_not_found else pure tt
