-- ===== src/Alerts/Effect.antt =====
-- services/alert_service.go, EvaluateAndFire: what one rule does to the tables.
use talepanel.Base.{
  ℕ, String, Bool, true, false, not, ◌&&◌, ◌+◌, count_where, ltb, ◌==◌, ◌≡◌, refl, ◌⊎◌, inl, inr,
  arith, Bool-cases, if◌then◌else◌,
}
use talepanel.Store.Tables.{Uuid, Float, AlertRule}
use talepanel.Store.Exec.{Result, ok, err, Err, database, World, Reads}
use talepanel.Alerts.Fire.{
  below, is_recent, new_event, accepts_event, add_event, insert_event, notify, record_event,
  fire_rule,
}

module _ (notifying : Bool) (new_id : ℕ → Uuid) (kind : String) (subject : Uuid)
    (value : Float) where
  notify-Reads :
      (rule : AlertRule) (r : Result (Unit {0})) (w : World)
      → Reads w (notify notifying new_id kind subject value rule r w).1
  unfolding notify
  notify-Reads rule (err e) w = ground arith
  notify-Reads rule (ok _) w = ground arith

  -- What one rule did: nothing, or one event.
  abbrev pub Outcome : AlertRule → World → World → Type 0
  Outcome rule w w' =
      (w'.db ≡ w.db)
      ⊎ ((id : Uuid) × (w'.db ≡ add_event (new_event id kind subject w.db_now rule) w.db)
          × (below kind value rule ≡ false)
          × ((count_where (is_recent w.db_now rule.id) w.db.alert_events == 0) ≡ true)
          × (accepts_event (new_event id kind subject w.db_now rule) w.db ≡ true))

  insert_event-effect :
      (rule : AlertRule) (w : World)
      → ((insert_event notifying new_id kind subject value rule w).1.db_now ≡ w.db_now)
        × ((insert_event notifying new_id kind subject value rule w).1.db ≡ (
            if not (w.faults w.calls)
              && accepts_event (new_event (new_id w.calls) kind subject w.db_now rule) w.db
            then add_event (new_event (new_id w.calls) kind subject w.db_now rule) w.db
            else w.db))
  unfolding insert_event
  insert_event-effect rule w = (ground arith, ground arith)

  record_event-effect :
      (rule : AlertRule) (recent : ℕ) (w : World)
      → ((record_event notifying new_id kind subject value rule (ok recent) w).1.db_now ≡ w.db_now)
        × (((record_event notifying new_id kind subject value rule (ok recent) w).1.db ≡ w.db)
            ⊎ (((record_event notifying new_id kind subject value rule (ok recent) w).1.db
                  ≡ add_event (new_event (new_id w.calls) kind subject w.db_now rule) w.db)
                × (recent ≡ 0)
                × (accepts_event (new_event (new_id w.calls) kind subject w.db_now rule) w.db
                    ≡ true)))
  unfolding record_event
  record_event-effect rule recent w =
      let (clock, effect) = insert_event-effect rule w in
      let inserted = insert_event notifying new_id kind subject value rule w in
      let reads = notify-Reads rule inserted.0 inserted.1 in
      elim (Bool-cases (ltb 0 recent)) [
        | inl seen ↦ (ground arith, inl (ground arith))
        | inr unseen ↦
            elim (Bool-cases (
              not (w.faults w.calls)
              && accepts_event (new_event (new_id w.calls) kind subject w.db_now rule) w.db)) [
                | inl sent ↦ (ground arith, inr (ground arith, ground arith, ground arith))
                | inr lost ↦ (ground arith, inl (ground arith))
              ]
      ]

  record_event-lost :
      (rule : AlertRule) (e : Err) (w : World)
      → (record_event notifying new_id kind subject value rule (err e) w).1 ≡ w
  unfolding record_event
  record_event-lost rule e w = refl

  pub fire_rule-effect :
      (rule : AlertRule) (w : World)
      → ((fire_rule notifying new_id kind subject value rule w).1.db_now ≡ w.db_now)
        × Outcome rule w (fire_rule notifying new_id kind subject value rule w).1
  unfolding fire_rule
  fire_rule-effect rule w =
      let w1 = record w { calls = w.calls + 1 } in
      let recent = count_where (is_recent w.db_now rule.id) w.db.alert_events in
      let (clock, effect) = record_event-effect rule recent w1 in
      elim (Bool-cases (below kind value rule)) [
        | inl under ↦ (ground arith, inl (ground arith))
        | inr over ↦ elim (Bool-cases (w.faults w.calls)) [
          | inl lost ↦
              let stays = record_event-lost rule database w1 in
              (ground (arith, stays), inl (ground (arith, stays)))
          | inr asked ↦ elim effect [
            | inl kept ↦ (ground arith, inl (ground arith))
            | inr (added, unseen, valid) ↦ (
              ground arith,
              inr (new_id w1.calls, ground arith, over, ground arith, ground arith),
            )
          ]
        ]
      ]
