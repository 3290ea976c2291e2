-- ===== src/Alerts/Scope.antt =====
-- Which events an evaluation adds.
use mathlib.Core.List.{append-nil, append_assoc}
use talepanel.Base.{
  ℕ, String, Bool, true, false, not, ◌&&◌, ◌+◌, List, [], ◌∷◌, ◌++◌, any, all, select, count_where,
  ◌==◌, ◌≡◌, refl, sym, ap, subst, ◌∙◌, inl, inr, arith, Bool-cases, ==-refl,
}
use talepanel.Store.Tables.{Uuid, Time, Tables, Float, AlertRule, AlertEvent}
use talepanel.Store.Exec.{Result, ok, err, World, after, pure, ◌>>=◌, query, statement}
use talepanel.Alerts.Rules.{is_event_of}
use talepanel.Alerts.Fire.{
  Notification, applies, below, is_recent, new_event, add_event, fire_rule, fire_rules,
  evaluate_and_fire,
}
use talepanel.Alerts.Effect.{Outcome, fire_rule-effect}

module _ (notifying : Bool) (new_id : ℕ → Uuid) (kind : String) (subject : Uuid)
    (value : Float) where
  -- A rule that had reached its threshold, without a recent event, and an event of it.
  abbrev pub fired_by : Tables → Time → List AlertRule → AlertEvent → Bool
  fired_by db now rules event =
      any
        (λ rule.
          not (below kind value rule)
          && count_where (is_recent now rule.id) db.alert_events == 0
          && is_event_of rule.id event)
        rules

  abbrev pub with_events : List AlertEvent → Tables → Tables
  with_events new db = record db { alert_events = db.alert_events ++ new }

  count_where-append :
      (p : AlertEvent → Bool) (xs ys : List AlertEvent)
      → count_where p (xs ++ ys) ≡ count_where p xs + count_where p ys
  count_where-append p [] ys = ground arith
  count_where-append p (x ∷ xs) ys = ground (arith, count_where-append p xs ys)

  -- Fewer events leave fewer rules out.
  fired_by-with_events :
      (db : Tables) (now : Time) (new : List AlertEvent) (rules : List AlertRule)
      (event : AlertEvent)
      → fired_by (with_events new db) now rules event ≡ true
      → fired_by db now rules event ≡ true
  fired_by-with_events db now new [] event h = h
  fired_by-with_events db now new (rule ∷ rules) event h = ground (
    arith,
    count_where-append (is_recent now rule.id) db.alert_events new,
    fired_by-with_events db now new rules event,
  )

  all-weaken :
      (p q : AlertEvent → Bool) (xs : List AlertEvent)
      → ((x : AlertEvent) → p x ≡ true → q x ≡ true)
      → all p xs ≡ true
      → all q xs ≡ true
  all-weaken p q [] w h = refl
  all-weaken p q (x ∷ xs) w h = ground (arith, w x, all-weaken p q xs w)

  is_event_of-new_event :
      (id : Uuid) (now : Time) (rule : AlertRule)
      → is_event_of rule.id (new_event id kind subject now rule) ≡ true
  unfolding new_event
  is_event_of-new_event id now rule = ==-refl rule.id

  -- The tables and the clock after a run of the rules.
  abbrev Grown : List AlertRule → World → World → Type 0
  Grown rules w w' =
      (new : List AlertEvent) × (w'.db ≡ with_events new w.db)
      × (w'.db_now ≡ w.db_now)
      × (all (fired_by w.db w.db_now rules) new ≡ true)

  Grown-refl :
      (rules : List AlertRule) (w w' : World)
      → w'.db ≡ w.db
      → w'.db_now ≡ w.db_now
      → Grown rules w w'
  Grown-refl rules w w' same clock = (
    [],
    same
        ∙ ap (λ events. record w.db { alert_events = events }) (sym (append-nil w.db.alert_events)),
    clock,
    refl,
  )

  Grown-step :
      (rule : AlertRule) (rules : List AlertRule) (w w1 w2 : World)
      → Outcome notifying new_id kind subject value rule w w1
      → w1.db_now ≡ w.db_now
      → Grown rules w1 w2
      → Grown (rule ∷ rules) w w2
  Grown-step rule rules w w1 w2 (inl same) clock (new, db, clock2, fired) = (
    new,
    db ∙ ap (with_events new) same,
    clock2 ∙ clock,
    all-weaken (fired_by w.db w.db_now rules) (fired_by w.db w.db_now (rule ∷ rules)) new
        (λ event h. ground arith)
        (subst (λ db1. all (fired_by db1 w.db_now rules) new ≡ true) same
          (subst (λ t. all (fired_by w1.db t rules) new ≡ true) clock fired)),
  )
  Grown-step rule rules w w1 w2 (inr (id, added, over, unseen, valid)) clock
        (new, db, clock2, fired) =
      let event = new_event id kind subject w.db_now rule in
      let fired_later : all (fired_by w.db w.db_now (rule ∷ rules)) new ≡ true =
        all-weaken (fired_by (add_event event w.db) w.db_now rules)
          (fired_by w.db w.db_now (rule ∷ rules)) new
          (λ x h. ground (arith, fired_by-with_events w.db w.db_now (event ∷ []) rules x h))
          (subst (λ db1. all (fired_by db1 w.db_now rules) new ≡ true) added
            (subst (λ t. all (fired_by w1.db t rules) new ≡ true) clock fired)) in
      (
        event ∷ new,
        db
            ∙ ap (with_events new) added
            ∙ ap (λ events. record w.db { alert_events = events })
                (append_assoc w.db.alert_events (event ∷ []) new),
        clock2 ∙ clock,
        ground (arith, over, unseen, is_event_of-new_event id w.db_now rule, fired_later),
      )

  pub after-pure :
      {A B : Type 0} (f : A → B) (r : Result A × World) → (after r (λ a. pure (f a))).1 ≡ r.1
  after-pure f (ok a, w) = refl
  after-pure f (err e, w) = refl

  after-Grown :
      (rule : AlertRule) (rules : List AlertRule) (w : World)
      (r : Result (List Notification) × World)
      → Outcome notifying new_id kind subject value rule w r.1
      → r.1.db_now ≡ w.db_now
      → Grown rules r.1 (fire_rules notifying new_id kind subject value rules r.1).1
      → Grown
          (rule ∷ rules)
          w
          (after r λ sent. (do
            rest ← fire_rules notifying new_id kind subject value rules
            pure (sent ++ rest))).1
  after-Grown rule rules w (err e, w1) outcome clock rest =
      Grown-step rule rules w w1 w1 outcome clock (Grown-refl rules w1 w1 refl refl)
  after-Grown rule rules w (ok sent, w1) outcome clock grown =
      let later = fire_rules notifying new_id kind subject value rules w1 in
      Grown-step rule rules w w1 (after later (λ rest. pure (sent ++ rest))).1 outcome clock (
        subst (λ (w2 : World). Grown rules w1 w2) (sym (after-pure (λ rest. sent ++ rest) later))
          grown)

  fire_rules-Grown :
      (rules : List AlertRule) (w : World)
      → Grown rules w (fire_rules notifying new_id kind subject value rules w).1
  unfolding fire_rules
  fire_rules-Grown [] w = Grown-refl [] w w refl refl
  fire_rules-Grown (rule ∷ rules) w =
      let (clock, outcome) = fire_rule-effect notifying new_id kind subject value rule w in
      let r = fire_rule notifying new_id kind subject value rule w in
      after-Grown rule rules w r outcome clock (fire_rules-Grown rules r.1)

  -- An event of a rule that applies to the subject, had reached its threshold, and had no unresolved
  -- event of the last fifteen minutes.
  abbrev pub is_due : Tables → Time → AlertEvent → Bool
  is_due db now = fired_by db now (select (applies db kind subject) db.alert_rules)

  pub evaluated-lost :
      (w : World)
      → w.faults w.calls ≡ true
      → (evaluate_and_fire notifying new_id kind subject value w).1.db ≡ w.db
  unfolding evaluate_and_fire query
  evaluated-lost w lost = ground (arith, lost)

  pub evaluated-asked :
      (w : World)
      → w.faults w.calls ≡ false
      → (evaluate_and_fire notifying new_id kind subject value w).1
        ≡ (fire_rules notifying new_id kind subject value
            (select (applies w.db kind subject) w.db.alert_rules)
            (record w { calls = w.calls + 1 })).1
  unfolding evaluate_and_fire query statement
  evaluated-asked w asked = ground (arith, asked)

  -- Whatever statements fail, EvaluateAndFire only adds events behind the others, each of a rule
  -- that applies to the subject (enabled, of the type, global with an owner who is staff, or of that
  -- very server with an owner who is staff or tied to it), that had reached its threshold, and that
  -- had no unresolved event of the last fifteen minutes; it changes no other table.
  pub evaluate_and_fire_scoped :
      (w : World)
      → (new : List AlertEvent) × ((evaluate_and_fire notifying new_id kind subject value w).1.db
          ≡ record w.db { alert_events = w.db.alert_events ++ new })
        × (all (is_due w.db w.db_now) new ≡ true)
  evaluate_and_fire_scoped w = elim (Bool-cases (w.faults w.calls)) [
    | inl lost ↦ (
      [],
      evaluated-lost w lost
          ∙ ap (λ events. record w.db { alert_events = events })
              (sym (append-nil w.db.alert_events)),
      refl,
    )
    | inr asked ↦
        let (new, db, clock, fired) =
          fire_rules-Grown (select (applies w.db kind subject) w.db.alert_rules)
            (record w { calls = w.calls + 1 }) in
        (new, ap (λ (v : World). v.db) (evaluated-asked w asked) ∙ db, fired)
  ]
