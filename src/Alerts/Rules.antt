-- ===== src/Alerts/Rules.antt =====
-- AlertService, the operations on rules and events of a caller. `new_id` is the identifier that the
-- database gives a row; the last argument of the webhook check is alerting.ValidateWebhookURL's.
use talepanel.Base.{
  ℕ, String, Bool, true, false, not, ◌&&◌, ◌||◌, Option, none, some, List, [], ◌∷◌, ◌++◌, any, all,
  select, count_where, update_where, take, ◌==◌, ltb_ℤ, ℤ, pos, pos_part, str_eq, if◌then◌else◌,
}
use talepanel.Store.Tables.{Uuid, Time, User, Tables, Float, AlertRule, AlertEvent}
use talepanel.Store.Exec.{
  Result, ok, err, database, alert_rule_not_found, alert_event_not_found, alert_rule_invalid,
  alert_rule_forbidden, Exec, pure, raise, lift, ◌>>=◌, ◌>>◌, gets, statement, query, execute,
  write,
}
use talepanel.Roles.Weight.{is_staff}
use talepanel.Permissions.Service.{has_server_permission, known_user}
use talepanel.Invitations.Service.{known_server}

pub record CreateAlertRuleRequest : Type 0 where
  pub server_id : Option Uuid
  pub kind : String
  pub threshold : Option Float
  pub channels : List String
  pub webhook_url : String

abbrev pub alert_rule_types : List String
alert_rule_types =
    "cpu_high" ∷ "ram_high" ∷ "disk_high" ∷ "server_crashed" ∷ "node_offline" ∷ "ddos" ∷ []

abbrev pub alert_node_rule_types : List String
alert_node_rule_types = "cpu_high" ∷ "ram_high" ∷ "disk_high" ∷ "node_offline" ∷ "ddos" ∷ []

abbrev pub alert_channels : List String
alert_channels = "email" ∷ "webhook" ∷ "discord" ∷ []

abbrev pub known : List String → String → Bool
known names name = any (str_eq name) names

abbrev pub remap : {A : Type 0} → Result A → Result A
remap (ok a) = ok a
remap (err e) = err alert_rule_invalid

-- The checks of the request alone.
unfoldable pub check_rule :
    (String → List String → Result (Unit {0})) → CreateAlertRuleRequest → Result (Unit {0})
check_rule validate req =
    if not (known alert_rule_types req.kind)
    then err alert_rule_invalid
    else (if not (all (known alert_channels) req.channels)
        then err alert_rule_invalid
        else remap (validate req.webhook_url req.channels))

abbrev pub viewed_or : Bool → Exec Unit
viewed_or true = pure tt
viewed_or false = raise alert_rule_forbidden

abbrev pub may_view : User → Option Uuid → Exec Unit
may_view caller none = raise alert_rule_forbidden
may_view caller (some server_id) = do
  viewed ← has_server_permission caller server_id "server.view"
  viewed_or viewed

-- The checks of a caller who is not staff.
unfoldable pub check_scope : User → CreateAlertRuleRequest → Exec Unit
check_scope caller req =
    if is_staff caller.role
    then pure tt
    else (if known alert_node_rule_types req.kind
        then raise alert_rule_forbidden
        else may_view caller req.server_id)

abbrev server_known : Option Uuid → Tables → Bool
server_known none db = true
server_known (some server_id) db = known_server server_id db

-- The foreign keys of alert_rules.
abbrev pub accepts_rule : AlertRule → Tables → Bool
accepts_rule rule db = server_known rule.server_id db && known_user rule.user_id db

abbrev pub add_rule : AlertRule → Tables → Tables
add_rule rule db = record db { alert_rules = db.alert_rules ++ rule ∷ [] }

abbrev pub new_rule : Uuid → User → CreateAlertRuleRequest → Time → AlertRule
new_rule id caller req created = record {
  id = id;
  server_id = req.server_id;
  user_id = caller.id;
  kind = req.kind;
  threshold = req.threshold;
  channels = req.channels;
  webhook_url = req.webhook_url;
  enabled = true;
  created_at = created;
}

unfoldable pub insert_rule : AlertRule → Exec AlertRule
unfolding statement
insert_rule rule = do
  statement
  valid ← gets (λ w. accepts_rule rule w.db)
  if valid then (do write (add_rule rule); pure rule) else raise database

unfoldable pub create_rule :
    (String → List String → Result (Unit {0}))
    → Uuid
    → User
    → CreateAlertRuleRequest
    → Exec AlertRule
create_rule validate id caller req = do
  lift (check_rule validate req)
  check_scope caller req
  created ← gets (λ w. w.db_now)
  insert_rule (new_rule id caller req created)

abbrev pub is_own_rule : Uuid → Uuid → AlertRule → Bool
is_own_rule rule_id user_id row = row.id == rule_id && row.user_id == user_id

abbrev pub some_or : ℕ → Exec Unit
some_or n = if n == 0 then raise alert_rule_not_found else pure tt

abbrev pub enable : Bool → AlertRule → AlertRule
enable enabled row = record row { enabled = enabled }

unfoldable pub toggle_rule : Uuid → Uuid → Bool → Exec Unit
unfolding execute
toggle_rule rule_id user_id enabled = do
  affected ← gets (λ w. count_where (is_own_rule rule_id user_id) w.db.alert_rules)
  execute λ db. record db {
    alert_rules = update_where (is_own_rule rule_id user_id) (enable enabled) db.alert_rules;
  }
  some_or affected

-- ON DELETE SET NULL: the events of a deleted rule stay, without a rule.
abbrev pub orphan : Uuid → AlertEvent → AlertEvent
orphan rule_id event = record event { rule_id = none }

abbrev pub is_event_of : Uuid → AlertEvent → Bool
is_event_of rule_id event = elim event.rule_id [ none ↦ false | some id ↦ id == rule_id ]

abbrev pub deleted : Uuid → Uuid → Tables → Tables
deleted rule_id user_id db =
    if any (is_own_rule rule_id user_id) db.alert_rules
    then record db {
      alert_rules = select (λ row. not (is_own_rule rule_id user_id row)) db.alert_rules;
      alert_events = update_where (is_event_of rule_id) (orphan rule_id) db.alert_events;
    }
    else db

unfoldable pub delete_rule : Uuid → Uuid → Exec Unit
unfolding execute
delete_rule rule_id user_id = do
  affected ← gets (λ w. count_where (is_own_rule rule_id user_id) w.db.alert_rules)
  execute (deleted rule_id user_id)
  some_or affected

-- EXISTS (SELECT 1 FROM alert_rules ar WHERE ar.id = ae.rule_id AND ar.user_id = $2)
abbrev pub is_own_event : List AlertRule → Uuid → AlertEvent → Bool
is_own_event rules user_id event = elim event.rule_id [
  | none ↦ false
  | some rule_id ↦ any (is_own_rule rule_id user_id) rules
]

abbrev pub resolves : User → Uuid → Tables → AlertEvent → Bool
resolves caller event_id db event =
    event.id == event_id && (is_staff caller.role || is_own_event db.alert_rules caller.id event)

abbrev pub resolve : Time → AlertEvent → AlertEvent
resolve now event = record event { resolved = true; resolved_at = some now }

abbrev pub event_or : ℕ → Exec Unit
event_or n = if n == 0 then raise alert_event_not_found else pure tt

unfoldable pub resolve_event : User → Uuid → Exec Unit
unfolding execute
resolve_event caller event_id = do
  affected ← gets (λ w. count_where (resolves caller event_id w.db) w.db.alert_events)
  now ← gets (λ w. w.db_now)
  execute λ db. record db {
    alert_events = update_where (resolves caller event_id db) (resolve now) db.alert_events;
  }
  event_or affected

-- `limit <= 0 || limit > 200`
abbrev pub clamped : ℤ → ℕ
clamped limit = if ltb_ℤ (pos 0) limit && not (ltb_ℤ (pos 200) limit) then pos_part limit else 50

-- WHERE ar.user_id = $1 OR (ae.rule_id IS NULL AND $3)
abbrev pub is_shown : User → List AlertRule → AlertEvent → Bool
is_shown caller rules event = elim event.rule_id [
  | none ↦ is_staff caller.role
  | some rule_id ↦ any (is_own_rule rule_id caller.id) rules
]

-- `newest_first` is ORDER BY created_at DESC, a sort by the database.
unfoldable pub list_events : (List AlertEvent → List AlertEvent) → User → ℤ → Exec (List AlertEvent)
unfolding query
list_events newest_first caller limit = query λ db.
    take (clamped limit) (newest_first (select (is_shown caller db.alert_rules) db.alert_events))
