-- ===== src/Nodes/Acks.antt =====
-- A command is pending, then acknowledged once and for good.
use talepanel.Base.{
  String, Bool, true, false, not, ◌&&◌, ◌==◌, Option, List, [], ◌∷◌, all, any, count_where,
  update_where, if◌then◌else◌, ◌≡◌, ◌≢◌, refl, sym, ap, subst, ◌∙◌, arith, inl, inr, Bool-cases,
  Text,
}
use talepanel.Store.Tables.{Uuid, Time, NodeCommand}
use talepanel.Store.Exec.{statement, World, ok, err, database, command_not_found}
use talepanel.Nodes.Commands.{ack, awaits, ack_command}
use talepanel.Nodes.Calls.{NodeCall, run_node_calls, run_node_calls-keeps, done_row, IsDone}

-- The identifiers of the commands, the primary key.
abbrev pub unique_commands : List NodeCommand → Bool
unique_commands [] = true
unique_commands (c ∷ cs) = not (any (λ (d : NodeCommand). d.id == c.id) cs) && unique_commands cs

absent-done :
    (id node_id : Uuid) (success : Bool) (now : Time) (cs : List NodeCommand)
    → any (λ (d : NodeCommand). d.id == id) cs ≡ false
    → all (done_row id) (update_where (awaits node_id id) (ack success now) cs) ≡ true
absent-done id node_id success now [] h = refl
absent-done id node_id success now (c ∷ cs) h =
    ground (arith, absent-done id node_id success now cs)

acked-row :
    (id : Uuid) (success : Bool) (now : Time) (c : NodeCommand)
    → done_row id (ack success now c) ≡ true
acked-row id true now c = ground arith
acked-row id false now c = ground arith

absent-count :
    (id node_id : Uuid) (cs : List NodeCommand)
    → any (λ (d : NodeCommand). d.id == id) cs ≡ false
    → count_where (awaits node_id id) cs ≡ 0
absent-count id node_id [] h = refl
absent-count id node_id (c ∷ cs) h = ground (arith, absent-count id node_id cs)

acked-done :
    (id node_id : Uuid) (success : Bool) (now : Time) (cs : List NodeCommand)
    → unique_commands cs ≡ true
    → count_where (awaits node_id id) cs ≢ 0
    → all (done_row id) (update_where (awaits node_id id) (ack success now) cs) ≡ true
acked-done id node_id success now [] unique some_ = refl
acked-done id node_id success now (c ∷ cs) unique some_ = elim (Bool-cases (awaits node_id id c)) [
  | inl mine ↦ ground (
    arith,
    mine,
    acked-row id success now c,
    absent-done id node_id success now cs,
    absent-done c.id node_id success now cs,
  )
  | inr other ↦ ground (
    arith,
    other,
    absent-count id node_id cs,
    absent-count c.id node_id cs,
    acked-done id node_id success now cs,
  )
]

ack_command-IsDone :
    (node_id id : Uuid) (success : Bool) (w : World)
    → unique_commands w.db.node_commands ≡ true
    → (ack_command node_id id success w).0 ≡ ok tt
    → IsDone id (ack_command node_id id success w).1.db
unfolding ack_command statement
ack_command-IsDone node_id id success w unique h =
    let answered : count_where (awaits node_id id) w.db.node_commands ≢ 0 = ground arith in
    let same : (ack_command node_id id success w).1.db.node_commands
        ≡ update_where (awaits node_id id) (ack success w.db_now) w.db.node_commands =
      ground arith in
    record {
      rows =
          ap (all (done_row id)) same
          ∙ acked-done id node_id success w.db_now w.db.node_commands unique answered;
    }

done-none :
    (id node_id : Uuid) (success : Bool) (now : Time) (cs : List NodeCommand)
    → all (done_row id) cs ≡ true
    → (count_where (awaits node_id id) cs ≡ 0)
      × (update_where (awaits node_id id) (ack success now) cs ≡ cs)
done-none id node_id success now [] h = (refl, refl)
done-none id node_id success now (c ∷ cs) h = ground (arith, done-none id node_id success now cs)

-- A command is acknowledged once: after an acknowledgement that is accepted and any calls on the
-- nodes, another one of the same command, by whichever node and with whichever outcome, is refused
-- and changes no table.
pub acked_once :
    (digest : String → String) (parse_addr : Text → Option Bool) (node_id other id : Uuid)
    (success again : Bool) (calls : List NodeCall) (w v : World)
    → unique_commands w.db.node_commands ≡ true
    → (ack_command node_id id success w).0 ≡ ok tt
    → v ≡ run_node_calls digest parse_addr calls (ack_command node_id id success w).1
    → ((ack_command other id again v).0
        ≡ (if v.faults v.calls then err database else err command_not_found))
      × ((ack_command other id again v).1.db ≡ v.db)
unfolding ack_command statement
acked_once digest parse_addr node_id other id success again calls w v unique accepted same =
    let behind = (ack_command node_id id success w).1 in
    let done : IsDone id v.db =
      subst (λ (x : World). IsDone id x.db) (sym same)
        (run_node_calls-keeps id digest parse_addr calls behind
          (ack_command-IsDone node_id id success w unique accepted)) in
    let (counted, kept) = done-none id other again v.db_now v.db.node_commands done.rows in
    (ground (arith, counted), ground (arith, counted, kept))
