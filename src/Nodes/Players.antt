-- ===== src/Nodes/Players.antt =====
-- closeOpenSessions of services/player_service.go: a session that is open is closed, and its length
-- is credited to its player.
use talepanel.Base.{
  ℕ, ◌+◌, ◌-◌, ◌/◌, Bool, not, ◌&&◌, ◌==◌, Option, none, some, List, any, is_some, find,
  update_where, map,
}
use talepanel.Store.Tables.{Uuid, Time, second, Player, PlayerSession, ServerRow, Tables}

abbrev pub is_open : (Uuid → Bool) → PlayerSession → Bool
is_open chosen session = not (is_some session.left_at) && chosen session.player_id

-- GREATEST(0, EXTRACT(EPOCH FROM (NOW() - joined_at))::INT), rounded to the nearest second
abbrev pub seconds_since : Time → Time → ℕ
seconds_since joined_at now = ((now - joined_at) + 500000000) / second

abbrev pub close_session : Time → PlayerSession → PlayerSession
close_session now session = record session {
  left_at = some now;
  duration_s = some (seconds_since session.joined_at now);
}

abbrev credit_of : Option PlayerSession → Time → ℕ
credit_of none now = 0
credit_of (some session) now = seconds_since session.joined_at now

-- UPDATE players ... FROM closed: one closed session per player
abbrev pub credited : (Uuid → Bool) → Time → List PlayerSession → Player → Player
credited chosen now sessions player = record player {
  playtime_s =
      player.playtime_s
      + credit_of
          (find (λ (s : PlayerSession). is_open chosen s && s.player_id == player.id) sessions) now;
}

abbrev pub close_open_sessions : (Uuid → Bool) → Time → Tables → Tables
close_open_sessions chosen now db = record db {
  players = map (credited chosen now db.player_sessions) db.players;
  player_sessions = update_where (is_open chosen) (close_session now) db.player_sessions;
}

-- The players of the servers of a node.
abbrev pub plays_on : Uuid → Tables → Uuid → Bool
plays_on node_id db player_id =
    any
      (λ (p : Player).
        p.id == player_id
        && any (λ (s : ServerRow). s.id == p.server_id && s.node_id == node_id) db.servers)
      db.players
