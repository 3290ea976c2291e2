-- ===== src/Nodes/Hosting.antt =====
-- Which servers a node hosts when it starts over and when it is deleted.
use talepanel.Base.{
  Bool, true, false, not, ◌&&◌, ◌||◌, ◌==◌, List, [], ◌∷◌, all, any, select, update_where, str_eq,
  eq_refl, if◌then◌else◌, ◌≡◌, refl, ap, ◌∙◌, arith, Bool-cases, inl, inr,
}
use talepanel.Store.Tables.{Uuid, Time, ServerRow, Node, Player, PlayerSession, Tables}
use talepanel.Store.Exec.{World, ok, execute, query, statement}
use talepanel.Nodes.Players.{is_open, close_session, close_open_sessions, plays_on}
use talepanel.Nodes.Service.{
  SelfRegister, has_node_id, is_running_on, stop_row, stop_servers, daemon_self_register,
  update_node_row, report_hardware, hosted_on, delete_node_row, delete_node,
}

abbrev pub stopped_on : Uuid → ServerRow → Bool
stopped_on node_id row = not (hosted_on node_id row) || str_eq row.status "stopped"

stopped-row : (id : Uuid) (s : ServerRow) → stopped_on id (stop_row s) ≡ true
stopped-row id s = ground (arith, eq_refl "stopped")

all-stopped :
    (id : Uuid) (ss : List ServerRow)
    → all (stopped_on id) (update_where (is_running_on id) stop_row ss) ≡ true
all-stopped id [] = refl
all-stopped id (s ∷ ss) = elim (Bool-cases (is_running_on id s)) [
  | inl running ↦
      let head : stopped_on id (if is_running_on id s then stop_row s else s) ≡ true =
        ap (λ b. stopped_on id (if b then stop_row s else s)) running ∙ stopped-row id s in
      ground (arith, head, all-stopped id ss)
  | inr rest ↦ ground (arith, rest, all-stopped id ss)
]

others-stay :
    (id : Uuid) (ss : List ServerRow)
    → select (λ s. not (hosted_on id s)) (update_where (is_running_on id) stop_row ss)
      ≡ select (λ s. not (hosted_on id s)) ss
others-stay id [] = refl
others-stay id (s ∷ ss) = elim (Bool-cases (is_running_on id s)) [
  | inl running ↦ ground (arith, running, others-stay id ss)
  | inr rest ↦ ground (arith, rest, others-stay id ss)
]

all-closed :
    (chosen other : Uuid → Bool) (now : Time) (ss : List PlayerSession)
    → ((x : Uuid) → chosen x ≡ other x)
    → all (λ s. not (is_open other s)) (update_where (is_open chosen) (close_session now) ss) ≡ true
all-closed chosen other now [] same = refl
all-closed chosen other now (s ∷ ss) same = elim (Bool-cases (is_open chosen s)) [
  | inl was ↦ ground (arith, was, all-closed chosen other now ss same)
  | inr not_ ↦ ground (arith, not_, same s.player_id, all-closed chosen other now ss same)
]

on_node-same :
    (id server_id : Uuid) (ss : List ServerRow)
    → any
        (λ (s : ServerRow). s.id == server_id && s.node_id == id)
        (update_where (is_running_on id) stop_row ss)
      ≡ any (λ (s : ServerRow). s.id == server_id && s.node_id == id) ss
on_node-same id server_id [] = refl
on_node-same id server_id (s ∷ ss) = elim (Bool-cases (is_running_on id s)) [
  | inl running ↦ ground (arith, running, on_node-same id server_id ss)
  | inr rest ↦ ground (arith, rest, on_node-same id server_id ss)
]

-- Stopping servers moves no player.
plays_on-same :
    (id player_id : Uuid) (ss : List ServerRow) (ps : List Player)
    → any
        (λ (p : Player).
          p.id == player_id
          && any
              (λ (s : ServerRow). s.id == p.server_id && s.node_id == id)
              (update_where (is_running_on id) stop_row ss))
        ps
      ≡ any
          (λ (p : Player).
            p.id == player_id && any (λ (s : ServerRow). s.id == p.server_id && s.node_id == id) ss)
          ps
plays_on-same id player_id ss [] = refl
plays_on-same id player_id ss (p ∷ ps) =
    ground (arith, on_node-same id p.server_id ss, plays_on-same id player_id ss ps)

daemon_self_register-effect :
    (id : Uuid) (req : SelfRegister) (w : World)
    → (daemon_self_register id req w).0 ≡ ok tt
    → let before = stop_servers id (update_node_row id (report_hardware req w.db_now) w.db) in
      (daemon_self_register id req w).1.db
      ≡ close_open_sessions (plays_on id before) w.db_now before
unfolding daemon_self_register execute statement
daemon_self_register-effect id req w h = ground arith

-- A daemon that starts over leaves no server of its node running in the tables and no session of its
-- players open; the servers of other nodes stay as they were.
pub self_register_resets :
    (id : Uuid) (req : SelfRegister) (w : World)
    → (daemon_self_register id req w).0 ≡ ok tt
    → (all (stopped_on id) (daemon_self_register id req w).1.db.servers ≡ true)
      × (select (λ s. not (hosted_on id s)) (daemon_self_register id req w).1.db.servers
          ≡ select (λ s. not (hosted_on id s)) w.db.servers)
      × (all
            (λ s. not (is_open (plays_on id w.db) s))
            (daemon_self_register id req w).1.db.player_sessions
          ≡ true)
self_register_resets id req w h =
    let effect = daemon_self_register-effect id req w h in
    let before = stop_servers id (update_node_row id (report_hardware req w.db_now) w.db) in
    (
      ap (λ (db : Tables). all (stopped_on id) db.servers) effect ∙ all-stopped id w.db.servers,
      ap (λ (db : Tables). select (λ s. not (hosted_on id s)) db.servers) effect
          ∙ others-stay id w.db.servers,
      ap (λ (db : Tables). all (λ s. not (is_open (plays_on id w.db) s)) db.player_sessions) effect
          ∙ all-closed (plays_on id before) (plays_on id w.db) w.db_now w.db.player_sessions
              (λ x. plays_on-same id x w.db.servers w.db.players),
    )

gone :
    (id : Uuid) (ns : List Node)
    → any (has_node_id id) (select (λ n. not (has_node_id id n)) ns) ≡ false
gone id [] = refl
gone id (n ∷ ns) = ground (arith, gone id ns)

-- A node that is deleted hosted no server, not even a stopped one, and is gone; the servers stay.
pub delete_node_unhosted :
    (id : Uuid) (w : World)
    → (delete_node id w).0 ≡ ok tt
    → (any (hosted_on id) w.db.servers ≡ false)
      × (any (has_node_id id) (delete_node id w).1.db.nodes ≡ false)
      × ((delete_node id w).1.db.servers ≡ w.db.servers)
unfolding delete_node delete_node_row query statement
delete_node_unhosted id w h =
    let hosted : any (hosted_on id) w.db.servers ≡ false = ground arith in
    let nodes : (delete_node id w).1.db.nodes ≡ select (λ n. not (has_node_id id n)) w.db.nodes =
      ground arith in
    (hosted, ap (any (has_node_id id)) nodes ∙ gone id w.db.nodes, ground arith)
