-- ===== src/Alerts/Fire.antt =====
-- AlertService.EvaluateAndFire and EvaluateNodeOffline. `new_id` gives the identifier that the
-- database makes for a row, by the number of the statement; what the notifier is handed is returned.
use Prim.Native.String.{◌++◌ as str_append}
use talepanel.Base.{
  ℕ, String, Bool, true, false, not, ◌&&◌, ◌||◌, ◌+◌, ◌*◌, ◌^◌, Option, none, some, List, [], ◌∷◌,
  ◌++◌, any, select, find, count_where, ltb, ◌==◌, ltb_ℤ, pos, str_eq, is_some, if◌then◌else◌,
}
use talepanel.Store.Tables.{Uuid, Time, minute, User, Node, Tables, Float, AlertRule, AlertEvent}
use talepanel.Store.Exec.{
  Result, ok, err, database, Exec, pure, raise, ◌>>=◌, ◌>>◌, gets, attempt, statement, query, write,
}
use talepanel.Roles.Weight.{role_admin, role_owner}
use talepanel.Permissions.Service.{owns_server, member_permissions}
use talepanel.Invitations.Service.{known_server}
use talepanel.Alerts.Rules.{known, is_event_of}

-- What the notifier is given.
pub record Notification : Type 0 where
  pub kind : String
  pub severity : String
  pub message : String
  pub fired_at : Time
  pub subject : Uuid
  pub channels : List String
  pub email : Option String
  pub webhook_url : String

-- u.role IN ('admin', 'owner')
abbrev pub is_staff_role : String → Bool
is_staff_role role = str_eq role role_admin || str_eq role role_owner

-- The scope of a rule whose owner has the role and the identifier.
abbrev pub in_scope : Tables → Uuid → Option Uuid → User → Bool
in_scope db subject none u = is_staff_role u.role
in_scope db subject (some server_id) u =
    server_id == subject
    && (is_staff_role u.role
        || owns_server subject u.id db
        || is_some (member_permissions subject u.id db))

abbrev pub owner_in_scope : Tables → Uuid → Option Uuid → Option User → Bool
owner_in_scope db subject server_id none = false
owner_in_scope db subject server_id (some u) = in_scope db subject server_id u

-- The WHERE of the rules, with the join of their owners.
unfoldable pub applies : Tables → String → Uuid → AlertRule → Bool
applies db kind subject rule =
    str_eq rule.kind kind
    && rule.enabled
    && owner_in_scope db subject rule.server_id (find (λ (u : User). u.id == rule.user_id) db.users)

-- 90 and 0 as multiples of 2^-1074.
abbrev pub ninety : Float
ninety = pos (90 * 2 ^ 1074)

abbrev pub default_threshold : String → Float
default_threshold kind =
    if known ("cpu_high" ∷ "ram_high" ∷ "disk_high" ∷ []) kind then ninety else pos 0

abbrev pub threshold_or : Float → Option Float → Float
threshold_or default none = default
threshold_or default (some threshold) = threshold

unfoldable pub below : String → Float → AlertRule → Bool
below kind value rule = ltb_ℤ value (threshold_or (default_threshold kind) rule.threshold)

-- rule_id = $1 AND resolved = false AND created_at > NOW() - INTERVAL '15 minutes'
abbrev pub is_recent : Time → Uuid → AlertEvent → Bool
is_recent now rule_id event =
    is_event_of rule_id event && not event.resolved && ltb now (event.created_at + 15 * minute)

abbrev pub is_node_subject : String → Bool
is_node_subject kind = known ("node_offline" ∷ "ddos" ∷ []) kind

abbrev pub severity_of : String → String
severity_of kind =
    if known ("node_offline" ∷ "server_crashed" ∷ "ddos" ∷ []) kind then "critical" else "warning"

abbrev pub title_of : String → String
title_of kind = str_append "Alert: " kind

unfoldable pub new_event : Uuid → String → Uuid → Time → AlertRule → AlertEvent
new_event id kind subject created rule = record {
  id = id;
  rule_id = some rule.id;
  server_id = if is_node_subject kind then none else some subject;
  node_id = if is_node_subject kind then some subject else none;
  kind = kind;
  severity = severity_of kind;
  title = title_of kind;
  resolved = false;
  resolved_at = none;
  created_at = created;
}

-- A foreign key that may be null.
abbrev pub refers : (Uuid → Bool) → Option Uuid → Bool
refers known_id none = true
refers known_id (some id) = known_id id

abbrev pub known_rule : Tables → Uuid → Bool
known_rule db id = any (λ (r : AlertRule). r.id == id) db.alert_rules

abbrev pub known_node : Tables → Uuid → Bool
known_node db id = any (λ (n : Node). n.id == id) db.nodes

-- The foreign keys of alert_events, on the columns of the row.
unfoldable pub accepts_event : AlertEvent → Tables → Bool
accepts_event event db =
    refers (known_rule db) event.rule_id
    && refers (λ id. known_server id db) event.server_id
    && refers (known_node db) event.node_id

abbrev pub add_event : AlertEvent → Tables → Tables
add_event event db = record db { alert_events = db.alert_events ++ event ∷ [] }

module _ (notifying : Bool) (new_id : ℕ → Uuid) (kind : String) (subject : Uuid)
    (value : Float) where
  unfoldable pub insert_event : AlertRule → Exec Unit
  unfolding statement
  insert_event rule = do
    id ← gets (λ w. new_id w.calls)
    statement
    created ← gets (λ w. w.db_now)
    valid ← gets (λ w. accepts_event (new_event id kind subject created rule) w.db)
    if valid then write (add_event (new_event id kind subject created rule)) else raise database

  abbrev pub notice : AlertRule → Time → Option String → Notification
  notice rule now email = record {
    kind = kind;
    severity = severity_of kind;
    message = title_of kind;
    fired_at = now;
    subject = subject;
    channels = rule.channels;
    email = email;
    webhook_url = rule.webhook_url;
  }

  -- The address of the owner; an error goes on without one.
  abbrev email_of : Result (Option String) → Option String
  email_of (ok found) = found
  email_of (err e) = none

  abbrev user_email : Uuid → Tables → Option String
  user_email user_id db = elim (find (λ (u : User). u.id == user_id) db.users) [
    | none ↦ none
    | some u ↦ some u.email
  ]

  -- Behind the insert.
  unfoldable pub notify : AlertRule → Result (Unit {0}) → Exec (List Notification)
  unfolding attempt query
  notify rule (err e) = pure []
  notify rule (ok _) = if not notifying then pure [] else (do
    found ← attempt (query (user_email rule.user_id))
    now ← gets (λ w. w.now)
    pure (notice rule now (email_of found) ∷ []))

  -- Behind the count of recent events.
  unfoldable pub record_event : AlertRule → Result ℕ → Exec (List Notification)
  unfolding attempt
  record_event rule (err e) = pure []
  record_event rule (ok recent) =
      if ltb 0 recent
      then pure []
      else (do inserted ← attempt (insert_event rule); notify rule inserted)

  -- One round of the loop.
  unfoldable pub fire_rule : AlertRule → Exec (List Notification)
  unfolding attempt query
  fire_rule rule = if below kind value rule then pure [] else (do
    now ← gets (λ w. w.db_now)
    recent ← attempt (query (λ db. count_where (is_recent now rule.id) db.alert_events))
    record_event rule recent)

  unfoldable pub fire_rules : List AlertRule → Exec (List Notification)
  fire_rules [] = pure []
  fire_rules (rule ∷ rules) = do sent ← fire_rule rule; rest ← fire_rules rules; pure (sent ++ rest)

  unfoldable pub evaluate_and_fire : Exec (List Notification)
  evaluate_and_fire = do
    rules ← query (λ db. select (applies db kind subject) db.alert_rules)
    fire_rules rules

-- status = 'online' AND last_heartbeat < NOW() - INTERVAL '5 minutes'
abbrev pub is_stale : Time → Node → Bool
is_stale now node =
    str_eq node.status "online"
    && elim node.last_heartbeat [ none ↦ false | some beat ↦ ltb (beat + 5 * minute) now ]

abbrev pub sent_or_none : Result (List Notification) → List Notification
sent_or_none (ok sent) = sent
sent_or_none (err e) = []

module _ (notifying : Bool) (new_id : ℕ → Uuid) where
  -- An error of one node is logged, and the loop goes on.
  unfoldable pub fire_nodes : List Node → Exec (List Notification)
  unfolding attempt
  fire_nodes [] = pure []
  fire_nodes (node ∷ nodes) = do
    sent ← attempt (evaluate_and_fire notifying new_id "node_offline" node.id (pos 0))
    rest ← fire_nodes nodes
    pure (sent_or_none sent ++ rest)

  unfoldable pub evaluate_node_offline : Exec (List Notification)
  evaluate_node_offline = do
    now ← gets (λ w. w.db_now)
    nodes ← query (λ db. select (is_stale now) db.nodes)
    fire_nodes nodes
