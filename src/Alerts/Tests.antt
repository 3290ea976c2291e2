-- ===== src/Alerts/Tests.antt =====
-- Alerts on a small database.
use talepanel.Base.{
  ℕ, ℤ, pos, String, Bool, true, false, not, ◌≡◌, ◌≤◌, ◌+◌, ◌*◌, ◌==◌, refl, Option, none, some,
  List, [], ◌∷◌, ◌++◌, all, any, length, select, sym,
}
use talepanel.Store.Tables.{Uuid, AlertRule, AlertEvent}
use talepanel.Store.Exec.{Result, ok, World, query, statement, IsSteady}
use talepanel.Store.Sample.{bob, sample, calm, calm-IsSteady}
use talepanel.Permissions.Rule.{may_on_server}
use talepanel.Permissions.Service.{has_permission, has_server_permission}
use talepanel.Roles.Weight.{role_weight, is_staff}
use talepanel.Alerts.Rules.{
  CreateAlertRuleRequest, create_rule, check_rule, check_scope, insert_rule, list_events, known,
  alert_node_rule_types, new_rule,
}
use talepanel.Alerts.Fire.{
  evaluate_and_fire, fire_rules, fire_rule, record_event, below, applies, ninety,
}
use talepanel.Alerts.Scope.{evaluate_and_fire_scoped, is_due}
use talepanel.Alerts.Resource.{resource_alert_lost}
use talepanel.Alerts.Owned.{create_rule_scoped}

-- A global rule of the panel's owner, and a rule of Bob on the server that he is a member of.
abbrev offline_rule : AlertRule
offline_rule = record {
  id = 30;
  server_id = none;
  user_id = 1;
  kind = "node_offline";
  threshold = none;
  channels = "email" ∷ [];
  webhook_url = "";
  enabled = true;
  created_at = 0;
}

abbrev crash_rule : AlertRule
crash_rule = record offline_rule {
  id = 31;
  server_id = some 10;
  user_id = 3;
  kind = "server_crashed";
}

-- The node 60 is reported offline.
abbrev offline_event : AlertEvent
offline_event = record {
  id = 40;
  rule_id = some 30;
  server_id = none;
  node_id = some 60;
  kind = "node_offline";
  severity = "critical";
  title = "Alert: node_offline";
  resolved = false;
  resolved_at = none;
  created_at = 900;
}

-- A crash of Bob's server that is resolved.
abbrev crash_event : AlertEvent
crash_event = record {
  id = 41;
  rule_id = some 31;
  server_id = some 10;
  node_id = none;
  kind = "server_crashed";
  severity = "critical";
  title = "Alert: server_crashed";
  resolved = true;
  resolved_at = some 950;
  created_at = 940;
}

abbrev alerted : World
alerted = record calm {
  db = record sample {
    alert_rules = offline_rule ∷ crash_rule ∷ [];
    alert_events = offline_event ∷ crash_event ∷ [];
  };
}

alerted-IsSteady : IsSteady alerted
alerted-IsSteady = record { at_call = λ n. refl }

abbrev new_id : ℕ → Uuid
new_id n = 100 + n

evaluate_and_fire_scoped_example :
    (new : List AlertEvent) × ((evaluate_and_fire true new_id "server_crashed" 10
        (pos 0)
        alerted).1.db
      ≡ record alerted.db { alert_events = alerted.db.alert_events ++ new })
    × (all (is_due true new_id "server_crashed" 10 (pos 0) alerted.db 1000) new ≡ true)
evaluate_and_fire_scoped_example =
    evaluate_and_fire_scoped true new_id "server_crashed" 10 (pos 0) alerted

-- The node 61 goes offline within fifteen minutes of the node 60.
offline_masked : (evaluate_and_fire true new_id "node_offline" 61 (pos 0) alerted).1.db ≡ alerted.db
unfolding evaluate_and_fire fire_rules fire_rule record_event below applies query statement
offline_masked = refl

-- A node with the processor at 90 percent.
resource_alert_lost_example :
    (evaluate_and_fire true new_id "cpu_high" 60 ninety alerted).1.db ≡ alerted.db
resource_alert_lost_example = resource_alert_lost true new_id "cpu_high" 60 ninety alerted refl refl

bob_plain : is_staff "user" ≡ false
unfolding is_staff role_weight
bob_plain = refl

crash_listed : (list_events (λ events. events) bob (pos 10) alerted).0 ≡ ok (crash_event ∷ [])
unfolding list_events query statement is_staff role_weight
crash_listed = refl

abbrev request : CreateAlertRuleRequest
request = record {
  server_id = some 10;
  kind = "server_crashed";
  threshold = none;
  channels = [];
  webhook_url = "";
}

abbrev any_url : String → List String → Result (Unit {0})
any_url url channels = ok tt

abbrev bob_rule : AlertRule
bob_rule = new_rule 32 bob request 1000

bob_rule_created : (create_rule any_url 32 bob request calm).0 ≡ ok bob_rule
unfolding create_rule check_rule check_scope insert_rule has_server_permission has_permission query
    statement is_staff role_weight talepanel.Base.lookup
bob_rule_created = refl

create_rule_scoped_example :
    (bob_rule.user_id ≡ 3)
    × (known alert_node_rule_types bob_rule.kind ≡ false)
    × ((server_id : Uuid) × (bob_rule.server_id ≡ some server_id)
        × (may_on_server sample bob server_id "server.view" ≡ true))
create_rule_scoped_example =
    create_rule_scoped any_url 32 bob request calm bob_rule calm-IsSteady bob_plain bob_rule_created
