-- ===== src/Alerts/Owned.antt =====
-- Rules and events belong to their owner.
use talepanel.Base.{
  ℕ, ℤ, String, Bool, true, false, not, ◌≤◌, Option, none, some, List, [], ◌∷◌, all, length, take,
  select, update_where, ◌==◌, ◌≡◌, refl, sym, ap, ap₂, subst, ◌∙◌, inl, inr, arith, Bool-cases,
  Option-cases, if◌then◌else◌,
}
use talepanel.Store.Tables.{Uuid, Time, User, Tables, AlertRule, AlertEvent}
use talepanel.Store.Exec.{Result, ok, World, IsSteady, pure, raise, lift, alert_rule_forbidden}
use talepanel.Store.Laws.{bind-inv, query-inv}
use talepanel.Roles.Weight.{is_staff}
use talepanel.Permissions.Rule.{may_on_server}
use talepanel.Permissions.Decide.{has_server_permission-eq-may_on_server}
use talepanel.Alerts.Rules.{
  CreateAlertRuleRequest, known, alert_node_rule_types, check_rule, check_scope, may_view,
  create_rule, insert_rule, is_own_rule, toggle_rule, delete_rule, enable, is_own_event, resolves,
  resolve, resolve_event, list_events, is_shown, clamped,
}

-- The rules of the other users.
abbrev pub rules_of_others : Uuid → List AlertRule → List AlertRule
rules_of_others user_id = select (λ rule. not (rule.user_id == user_id))

enable-others :
    (rule_id user_id : Uuid) (enabled : Bool) (rules : List AlertRule)
    → rules_of_others user_id (update_where (is_own_rule rule_id user_id) (enable enabled) rules)
      ≡ rules_of_others user_id rules
enable-others rule_id user_id enabled [] = refl
enable-others rule_id user_id enabled (rule ∷ rules) =
    ground (arith, enable-others rule_id user_id enabled rules)

select-others :
    (rule_id user_id : Uuid) (rules : List AlertRule)
    → rules_of_others user_id (select (λ row. not (is_own_rule rule_id user_id row)) rules)
      ≡ rules_of_others user_id rules
select-others rule_id user_id [] = refl
select-others rule_id user_id (rule ∷ rules) = ground (arith, select-others rule_id user_id rules)

-- Whatever they answer, ToggleRule and DeleteRule leave every rule of the other users as it was.
pub rules_of_others_stay :
    (rule_id user_id : Uuid) (enabled : Bool) (w : World)
    → (rules_of_others user_id (toggle_rule rule_id user_id enabled w).1.db.alert_rules
        ≡ rules_of_others user_id w.db.alert_rules)
      × (rules_of_others user_id (delete_rule rule_id user_id w).1.db.alert_rules
          ≡ rules_of_others user_id w.db.alert_rules)
unfolding toggle_rule delete_rule
rules_of_others_stay rule_id user_id enabled w = (
  ground (arith, enable-others rule_id user_id enabled w.db.alert_rules),
  ground (arith, select-others rule_id user_id w.db.alert_rules),
)

-- The events of rules that are not the user's.
abbrev pub events_of_others : List AlertRule → Uuid → List AlertEvent → List AlertEvent
events_of_others rules user_id = select (λ event. not (is_own_event rules user_id event))

resolve-others :
    (caller : User) (event_id : Uuid) (db : Tables) (now : Time) (events : List AlertEvent)
    → is_staff caller.role ≡ false
    → events_of_others db.alert_rules caller.id
        (update_where (resolves caller event_id db) (resolve now) events)
      ≡ events_of_others db.alert_rules caller.id events
resolve-others caller event_id db now [] plain = refl
resolve-others caller event_id db now (event ∷ events) plain =
    let rest = resolve-others caller event_id db now events plain in
    elim (Bool-cases (is_own_event db.alert_rules caller.id event)) [
      | inl own ↦ ground (arith, own, plain, rest)
      | inr foreign ↦ ground (arith, foreign, plain, rest)
    ]

-- Whatever it answers, ResolveEvent of a caller who is not staff leaves every event that is not of
-- one of the caller's rules as it was.
pub events_of_others_stay :
    (caller : User) (event_id : Uuid) (w : World)
    → is_staff caller.role ≡ false
    → events_of_others w.db.alert_rules caller.id
        (resolve_event caller event_id w).1.db.alert_events
      ≡ events_of_others w.db.alert_rules caller.id w.db.alert_events
unfolding resolve_event
events_of_others_stay caller event_id w plain =
    ground (arith, resolve-others caller event_id w.db w.db_now w.db.alert_events plain)

all-select :
    (p q : AlertEvent → Bool) (xs : List AlertEvent)
    → ((x : AlertEvent) → p x ≡ q x)
    → all q (select p xs) ≡ true
all-select p q [] same = refl
all-select p q (x ∷ xs) same = ground (arith, same x, all-select p q xs same)

all-take :
    (p : AlertEvent → Bool) (n : ℕ) (xs : List AlertEvent)
    → all p xs ≡ true
    → all p (take n xs) ≡ true
all-take p ℕ.zero xs h = refl
all-take p (ℕ.suc n) [] h = refl
all-take p (ℕ.suc n) (x ∷ xs) h = ground (arith, all-take p n xs)

length-take : (n : ℕ) (xs : List AlertEvent) → length (take n xs) ≤ n
length-take ℕ.zero xs = omega arith
length-take (ℕ.suc n) [] = omega arith
length-take (ℕ.suc n) (x ∷ xs) = omega (arith, length-take n xs)

clamped_bound : (limit : ℤ) → clamped limit ≤ 200
clamped_bound limit = ground arith

shown-own :
    (caller : User) (rules : List AlertRule) (event : AlertEvent)
    → is_staff caller.role ≡ false
    → is_shown caller rules event ≡ is_own_event rules caller.id event
shown-own caller rules event plain = elim (Option-cases event.rule_id) [
  | inl none_of ↦ rw none_of plain
  | inr (id, has) ↦ rw has refl
]

-- A caller who is not staff is shown at most 200 events by ListEvents, all of the caller's own rules,
-- if the database's sort adds nothing.
pub list_events_own :
    (newest_first : List AlertEvent → List AlertEvent) (caller : User) (limit : ℤ) (w : World)
    (shown : List AlertEvent)
    → ((p : AlertEvent → Bool) (events : List AlertEvent)
        → all p events ≡ true
        → all p (newest_first events) ≡ true)
    → is_staff caller.role ≡ false
    → (list_events newest_first caller limit w).0 ≡ ok shown
    → (all (is_own_event w.db.alert_rules caller.id) shown ≡ true) × (length shown ≤ 200)
unfolding list_events
list_events_own newest_first caller limit w shown sorts plain listed =
    let rules = w.db.alert_rules in
    let picked = select (is_shown caller rules) w.db.alert_events in
    let own = is_own_event rules caller.id in
    let is_listed : take (clamped limit) (newest_first picked) ≡ shown = query-inv _ w listed in
    (
      subst (λ events. all own events ≡ true) is_listed
          (all-take own (clamped limit) (newest_first picked) (
            sorts own picked (
              all-select (is_shown caller rules) own w.db.alert_events
                (λ event. shown-own caller rules event plain)))),
      subst (λ events. length events ≤ 200) is_listed
          (omega (arith, length-take (clamped limit) (newest_first picked), clamped_bound limit)),
    )

may_view-inv :
    (caller : User) (o : Option Uuid) (w : World)
    → IsSteady w
    → (may_view caller o w).0 ≡ ok tt
    → (server_id : Uuid) × (o ≡ some server_id)
      × (may_on_server w.db caller server_id "server.view" ≡ true)
may_view-inv caller none w steady passed = cc
may_view-inv caller (some server_id) w steady passed = (
  server_id,
  refl,
  ground (arith, has_server_permission-eq-may_on_server caller w server_id "server.view" steady),
)

-- The scope check by its two tests.
abbrev scope_by : User → CreateAlertRuleRequest → World → Bool → Bool → Result (Unit {0}) × World
scope_by caller req w staff node =
    (if staff
        then pure tt
        else (if node then raise alert_rule_forbidden else may_view caller req.server_id))
      w

check_scope-eq :
    (caller : User) (req : CreateAlertRuleRequest) (w : World)
    → check_scope caller req w
      ≡ scope_by caller req w (is_staff caller.role) (known alert_node_rule_types req.kind)
unfolding check_scope
check_scope-eq caller req w = refl

check_scope-inv :
    (caller : User) (req : CreateAlertRuleRequest) (w : World)
    → IsSteady w
    → is_staff caller.role ≡ false
    → (check_scope caller req w).0 ≡ ok tt
    → (known alert_node_rule_types req.kind ≡ false)
      × ((server_id : Uuid) × (req.server_id ≡ some server_id)
          × (may_on_server w.db caller server_id "server.view" ≡ true))
check_scope-inv caller req w steady plain passed =
    elim (Bool-cases (known alert_node_rule_types req.kind)) [
      | inl node ↦
          absurd (cc (passed, check_scope-eq caller req w, ap₂ (scope_by caller req w) plain node))
      | inr server ↦ (
        server,
        may_view-inv caller req.server_id w steady (
            ap (λ (r : Result (Unit {0}) × World). r.0)
              (sym (check_scope-eq caller req w ∙ ap₂ (scope_by caller req w) plain server))
            ∙ passed),
      )
    ]

insert_rule-inv :
    (rule made : AlertRule) (w : World) → (insert_rule rule w).0 ≡ ok made → rule ≡ made
unfolding insert_rule
insert_rule-inv rule made w h = ground arith

-- When no statement fails, a rule that CreateRule makes for a caller who is not staff belongs to the
-- caller, is not of a node type, and names a server that the caller may view.
pub create_rule_scoped :
    (validate : String → List String → Result (Unit {0})) (id : Uuid) (caller : User)
    (req : CreateAlertRuleRequest) (w : World) (rule : AlertRule)
    → IsSteady w
    → is_staff caller.role ≡ false
    → (create_rule validate id caller req w).0 ≡ ok rule
    → (rule.user_id ≡ caller.id)
      × (known alert_node_rule_types rule.kind ≡ false)
      × ((server_id : Uuid) × (rule.server_id ≡ some server_id)
          × (may_on_server w.db caller server_id "server.view" ≡ true))
unfolding create_rule
create_rule_scoped validate id caller req w rule steady plain done =
    let (_, checked, h1, _) = bind-inv (lift (check_rule validate req)) _ w done in
    let (_, scoped, h2, _) = bind-inv (check_scope caller req) _ w h1 in
    let made = insert_rule-inv _ rule _ h2 in
    let (kind, (server_id, named, viewed)) = check_scope-inv caller req w steady plain scoped in
    (
      ap (λ (r : AlertRule). r.user_id) (sym made),
      subst (λ (r : AlertRule). known alert_node_rule_types r.kind ≡ false) made kind,
      (server_id, ap (λ (r : AlertRule). r.server_id) (sym made) ∙ named, viewed),
    )
