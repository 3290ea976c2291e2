-- ===== src/Alerts/Resource.antt =====
-- EvaluateAndFire cannot store an event that points to a server which is not there.
use talepanel.Base.{
  ℕ, String, Bool, true, false, ◌+◌, List, [], ◌∷◌, ◌++◌, select, ◌≡◌, refl, ap, ◌∙◌, inl, inr,
  arith, Bool-cases, eq_iff, str_eq,
}
use talepanel.Store.Tables.{Uuid, Time, Tables, Float, AlertRule}
use talepanel.Store.Exec.{Result, ok, err, World, after, pure, ◌>>=◌}
use talepanel.Invitations.Service.{known_server}
use talepanel.Alerts.Rules.{known}
use talepanel.Alerts.Fire.{
  Notification, applies, is_node_subject, new_event, accepts_event, fire_rule, fire_rules,
  evaluate_and_fire,
}
use talepanel.Alerts.Effect.{fire_rule-effect}
use talepanel.Alerts.Scope.{after-pure, evaluated-lost, evaluated-asked}

module _ (notifying : Bool) (new_id : ℕ → Uuid) (kind : String) (subject : Uuid)
    (value : Float) where
  refused_event :
      (id : Uuid) (now : Time) (rule : AlertRule) (db : Tables)
      → is_node_subject kind ≡ false
      → known_server subject db ≡ false
      → accepts_event (new_event id kind subject now rule) db ≡ false
  unfolding accepts_event new_event
  refused_event id now rule db server_kind unknown = ground (arith, server_kind, unknown)

  fire_rule-refused :
      (rule : AlertRule) (w : World)
      → is_node_subject kind ≡ false
      → known_server subject w.db ≡ false
      → (fire_rule notifying new_id kind subject value rule w).1.db ≡ w.db
  fire_rule-refused rule w server_kind unknown =
      elim ((fire_rule-effect notifying new_id kind subject value rule w).1) [
        | inl kept ↦ kept
        | inr (id, added, over, unseen, valid) ↦
            absurd (cc (valid, refused_event id w.db_now rule w.db server_kind unknown))
      ]

  after-refused :
      (rules : List AlertRule) (w : World) (r : Result (List Notification) × World)
      → r.1.db ≡ w.db
      → (fire_rules notifying new_id kind subject value rules r.1).1.db ≡ w.db
      → (after r λ sent. (do
        rest ← fire_rules notifying new_id kind subject value rules
        pure (sent ++ rest))).1.db
        ≡ w.db
  after-refused rules w (err e, w1) same rest = same
  after-refused rules w (ok sent, w1) same later =
      ap (λ (v : World). v.db)
        (after-pure notifying new_id kind subject value (λ rest. sent ++ rest)
          (fire_rules notifying new_id kind subject value rules w1))
      ∙ later

  fire_rules-refused :
      (rules : List AlertRule) (w : World)
      → is_node_subject kind ≡ false
      → known_server subject w.db ≡ false
      → (fire_rules notifying new_id kind subject value rules w).1.db ≡ w.db
  unfolding fire_rules
  fire_rules-refused [] w server_kind unknown = refl
  fire_rules-refused (rule ∷ rules) w server_kind unknown =
      let r = fire_rule notifying new_id kind subject value rule w in
      let same = fire_rule-refused rule w server_kind unknown in
      after-refused rules w r same
        (fire_rules-refused rules r.1 server_kind (ap (known_server subject) same ∙ unknown) ∙ same)

  resource_kind :
      known ("cpu_high" ∷ "ram_high" ∷ "disk_high" ∷ []) kind ≡ true → is_node_subject kind ≡ false
  resource_kind h = elim (Bool-cases (str_eq kind "cpu_high")) [
    | inl cpu ↦ ap is_node_subject ((eq_iff kind "cpu_high").0 cpu)
    | inr not_cpu ↦ elim (Bool-cases (str_eq kind "ram_high")) [
      | inl ram ↦ ap is_node_subject ((eq_iff kind "ram_high").0 ram)
      | inr not_ram ↦
          ap is_node_subject ((eq_iff kind "disk_high").0 (ground (arith, not_cpu, not_ram)))
    ]
  ]

  -- An alert on the processor, memory or disk of a node is never stored: when the subject is not a
  -- server, EvaluateAndFire changes no table for these types, whatever the rules and the value.
  pub resource_alert_lost :
      (w : World)
      → known ("cpu_high" ∷ "ram_high" ∷ "disk_high" ∷ []) kind ≡ true
      → known_server subject w.db ≡ false
      → (evaluate_and_fire notifying new_id kind subject value w).1.db ≡ w.db
  resource_alert_lost w resource unknown = elim (Bool-cases (w.faults w.calls)) [
    | inl lost ↦ evaluated-lost notifying new_id kind subject value w lost
    | inr asked ↦
        ap (λ (v : World). v.db) (evaluated-asked notifying new_id kind subject value w asked)
        ∙ fire_rules-refused (select (applies w.db kind subject) w.db.alert_rules)
            (record w { calls = w.calls + 1 }) (resource_kind resource) unknown
  ]
