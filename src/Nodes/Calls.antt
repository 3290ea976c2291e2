-- ===== src/Nodes/Calls.antt =====
-- The calls on nodes as a list, and what they do to the queued commands.
use talepanel.Base.{
  ℕ, String, Bool, true, not, ◌||◌, ◌==◌, Option, List, [], ◌∷◌, all, any, select, count_where,
  update_where, ltb, if◌then◌else◌, ◌≡◌, refl, ap, ◌∙◌, arith, Text,
}
use talepanel.Store.Tables.{Uuid, Time, NodeCommand, Tables}
use talepanel.Store.Exec.{
  statement, execute, query, World, ok, err, database, node_not_found, node_has_servers,
  command_not_found,
}
use talepanel.Store.Preserve.{
  Preserves, Preserves-pure, Preserves-raise, Preserves-lift, Preserves-gets, Preserves-statement,
  Preserves-write, Preserves-if, Preserves-bind, Preserves-query,
}
use talepanel.Enrollment.Service.{insert_node}
use talepanel.Nodes.Service.{
  RegisterNodeRequest, Heartbeat, SelfRegister, has_node_id, register_node, daemon_self_register,
  update_node_heartbeat, set_node_status, is_active_on, hosted_on, remove_node, delete_node_row,
  delete_node,
}
use talepanel.Nodes.Commands.{is_pending, ack, awaits, ack_command}
use talepanel.Nodes.Update.{UpdateNodeRequest, get_node, update_node}

-- A call of NodeService that changes state.
pub data NodeCall : Type 0 where
  register : RegisterNodeRequest → Option String → Uuid → NodeCall
  self_register : Uuid → SelfRegister → NodeCall
  heartbeat : Uuid → Heartbeat → NodeCall
  change_status : Uuid → String → NodeCall
  remove : Uuid → NodeCall
  acknowledge : Uuid → Uuid → Bool → NodeCall
  update : Uuid → UpdateNodeRequest → NodeCall
  -- the clocks go on, and other statements fail
  pass : Time → Time → (ℕ → Bool) → NodeCall

module _ (digest : String → String) (parse_addr : Text → Option Bool) where
  unfoldable pub run_node_call : NodeCall → World → World
  run_node_call (register req random id) w = (register_node digest parse_addr req random id w).1
  run_node_call (self_register id req) w = (daemon_self_register id req w).1
  run_node_call (heartbeat id req) w = (update_node_heartbeat id req w).1
  run_node_call (change_status id status) w = (set_node_status id status w).1
  run_node_call (remove id) w = (delete_node id w).1
  run_node_call (acknowledge node_id id success) w = (ack_command node_id id success w).1
  run_node_call (update id req) w = (update_node parse_addr id req w).1
  run_node_call (pass now db_now faults) w = record w {
    now = now;
    db_now = db_now;
    faults = faults;
  }

  unfoldable pub run_node_calls : List NodeCall → World → World
  run_node_calls [] w = w
  run_node_calls (call ∷ calls) w = run_node_calls calls (run_node_call call w)

abbrev pub done_row : Uuid → NodeCommand → Bool
done_row id command = not (command.id == id) || not (is_pending command)

-- No row of this command is pending.
pub record IsDone (id : Uuid) (db : Tables) : Type 0 where
  pub rows : all (done_row id) db.node_commands ≡ true

all-done :
    (id node_id other : Uuid) (success : Bool) (now : Time) (cs : List NodeCommand)
    → all (done_row id) cs ≡ true
    → all (done_row id) (update_where (awaits node_id other) (ack success now) cs) ≡ true
all-done id node_id other success now [] h = refl
all-done id node_id other success now (c ∷ cs) h =
    ground (arith, all-done id node_id other success now cs)

all-select :
    (id : Uuid) (chosen : NodeCommand → Bool) (cs : List NodeCommand)
    → all (done_row id) cs ≡ true
    → all (done_row id) (select chosen cs) ≡ true
all-select id chosen [] h = refl
all-select id chosen (c ∷ cs) h = ground (arith, all-select id chosen cs)

module _ (id : Uuid) where
  kept-rows :
      (db db' : Tables) → db'.node_commands ≡ db.node_commands → IsDone id db → IsDone id db'
  kept-rows db db' same done = record { rows = ap (all (done_row id)) same ∙ done.rows }

  Preserves-ack_command :
      (node_id other : Uuid) (success : Bool)
      → Preserves (IsDone id) (ack_command node_id other success)
  unfolding ack_command
  Preserves-ack_command node_id other success = Preserves-bind Preserves-statement λ _.
      Preserves-bind (Preserves-gets (λ w. w.db_now)) λ now.
        Preserves-bind (Preserves-gets (λ w. count_where (awaits node_id other) w.db.node_commands))
          λ affected.
            Preserves-bind
              (Preserves-write
                (λ db. record db {
                  node_commands =
                      update_where (awaits node_id other) (ack success now) db.node_commands;
                })
                λ db done. record {
                  rows = all-done id node_id other success now db.node_commands done.rows;
                })
              λ _.
                Preserves-if (affected == 0) (Preserves-raise command_not_found) (Preserves-pure tt)

  Preserves-delete_node : (node_id : Uuid) → Preserves (IsDone id) (delete_node node_id)
  unfolding delete_node delete_node_row
  Preserves-delete_node node_id =
      Preserves-bind (Preserves-query (λ db. count_where (is_active_on node_id) db.servers))
        λ active.
          Preserves-bind (Preserves-lift (if ltb 0 active then err node_has_servers else ok tt))
            λ _.
              Preserves-bind
                (Preserves-bind Preserves-statement λ _.
                  Preserves-bind (Preserves-gets (λ w. any (hosted_on node_id) w.db.servers))
                    λ hosts.
                      Preserves-bind (Preserves-lift (if hosts then err database else ok tt)) λ _.
                        Preserves-bind
                          (Preserves-gets (λ w. count_where (has_node_id node_id) w.db.nodes))
                          λ affected.
                            Preserves-bind
                              (Preserves-write (remove_node node_id) λ db done. record {
                                rows =
                                    all-select id (λ (c : NodeCommand). not (c.node_id == node_id))
                                      db.node_commands done.rows;
                              })
                              λ _. Preserves-pure affected)
                λ affected.
                  Preserves-if (affected == 0) (Preserves-raise node_not_found) (Preserves-pure tt)

  register_node-commands :
      (digest : String → String) (parse_addr : Text → Option Bool) (req : RegisterNodeRequest)
      (random : Option String) (new : Uuid) (w : World)
      → (register_node digest parse_addr req random new w).1.db.node_commands ≡ w.db.node_commands
  unfolding register_node insert_node statement
  register_node-commands digest parse_addr req random new w = ground arith

  daemon_self_register-commands :
      (node_id : Uuid) (req : SelfRegister) (w : World)
      → (daemon_self_register node_id req w).1.db.node_commands ≡ w.db.node_commands
  unfolding daemon_self_register execute statement
  daemon_self_register-commands node_id req w = ground arith

  update_node_heartbeat-commands :
      (node_id : Uuid) (req : Heartbeat) (w : World)
      → (update_node_heartbeat node_id req w).1.db.node_commands ≡ w.db.node_commands
  unfolding update_node_heartbeat statement
  update_node_heartbeat-commands node_id req w = ground arith

  set_node_status-commands :
      (node_id : Uuid) (status : String) (w : World)
      → (set_node_status node_id status w).1.db.node_commands ≡ w.db.node_commands
  unfolding set_node_status statement
  set_node_status-commands node_id status w = ground arith

  update_node-commands :
      (parse_addr : Text → Option Bool) (node_id : Uuid) (req : UpdateNodeRequest) (w : World)
      → (update_node parse_addr node_id req w).1.db.node_commands ≡ w.db.node_commands
  unfolding update_node get_node query execute statement
  update_node-commands parse_addr node_id req w = ground arith

  module _ (digest : String → String) (parse_addr : Text → Option Bool) where
    run_node_call-keeps :
        (call : NodeCall) (w : World)
        → IsDone id w.db
        → IsDone id (run_node_call digest parse_addr call w).db
    unfolding run_node_call
    run_node_call-keeps (register req random new) w done =
        kept-rows w.db _ (register_node-commands digest parse_addr req random new w) done
    run_node_call-keeps (self_register node_id req) w done =
        kept-rows w.db _ (daemon_self_register-commands node_id req w) done
    run_node_call-keeps (heartbeat node_id req) w done =
        kept-rows w.db _ (update_node_heartbeat-commands node_id req w) done
    run_node_call-keeps (change_status node_id status) w done =
        kept-rows w.db _ (set_node_status-commands node_id status w) done
    run_node_call-keeps (remove node_id) w done = (Preserves-delete_node node_id).at w done
    run_node_call-keeps (acknowledge node_id other success) w done =
        (Preserves-ack_command node_id other success).at w done
    run_node_call-keeps (update node_id req) w done =
        kept-rows w.db _ (update_node-commands parse_addr node_id req w) done
    run_node_call-keeps (pass now db_now faults) w done = record { rows = done.rows }

    pub run_node_calls-keeps :
        (calls : List NodeCall) (w : World)
        → IsDone id w.db
        → IsDone id (run_node_calls digest parse_addr calls w).db
    unfolding run_node_calls
    run_node_calls-keeps [] w done = done
    run_node_calls-keeps (call ∷ calls) w done =
        run_node_calls-keeps calls (run_node_call digest parse_addr call w)
          (run_node_call-keeps call w done)
