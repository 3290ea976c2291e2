-- ===== src/Enrollment/Redeem.antt =====
-- What Redeem does to the tables: all of it, or nothing.
use talepanel.Base.{
  String, Bool, false, ◌+◌, ◌≤◌, Option, none, some, ◌==◌, find, update_where, Text, ◌≡◌, sym, ap,
  ap₂, Option-cases, subst, ◌∙◌, arith, inl, inr,
}
use talepanel.Store.Tables.{Uuid, Time, Tables, Enrollment as Row, Node}
use talepanel.Store.Exec.{Err, Result, ok, err, World, lift, query}
use talepanel.Store.Laws.{
  IsAtomic, IsAtomic-bind, IsAtomic-transaction, ReadsOnly-lift, bind-inv, transaction-inv,
}
use talepanel.Enrollment.Service.{
  RedeemPayload, has_hash, usable, add_node, set_used, new_node, insert_node, mark_used, redeem_row,
  redeem_locked, check_payload, redeem,
}

-- The tables after a redemption: the node is added, and the enrollment is used.
abbrev pub after_redeem : Row → Node → Time → Tables → Tables
after_redeem row node now db = record (add_node node db) {
  node_enrollments = update_where (λ r. r.id == row.id) (set_used node.id now) db.node_enrollments;
}

insert_node-effect :
    (node : Node) (w : World)
    → (insert_node node w).0 ≡ ok tt
    → (insert_node node w).1 ≡ record w { db = add_node node w.db; calls = w.calls + 1 }
unfolding insert_node
insert_node-effect node w h = ground arith

mark_used-effect :
    (node_id : Uuid) (row : Row) (w : World)
    → (mark_used node_id row w).0 ≡ ok tt
    → (mark_used node_id row w).1.db ≡ record w.db {
      node_enrollments =
          update_where (λ r. r.id == row.id) (set_used node_id w.db_now) w.db.node_enrollments;
    }
unfolding mark_used
mark_used-effect node_id row w h = ground arith

module _ (digest : String → String) (parse_addr : Text → Option Bool) where
  redeem_row-inv :
      (payload : RedeemPayload) (random : Option String) (node_id : Uuid) (row : Row) (w : World)
      (node : Node) (node_token : String)
      → (redeem_row digest parse_addr payload random node_id row w).0 ≡ ok (node, node_token)
      → (usable w.now row ≡ ok tt)
        × (random ≡ some node_token)
        × (new_node digest parse_addr row payload node_id node_token ≡ node)
        × ((redeem_row digest parse_addr payload random node_id row w).1.db
            ≡ after_redeem row node w.db_now w.db)
  unfolding redeem_row
  redeem_row-inv payload none node_id row w node node_token h = absurd (ground arith)
  redeem_row-inv payload (some token) node_id row w node node_token h =
      let made = new_node digest parse_addr row payload node_id token in
      ground (arith, insert_node-effect made w, mark_used-effect node_id row (insert_node made w).1)

-- What a successful redemption went through, and its effect.
pub record IsRedemption (digest : String → String) (parse_addr : Text → Option Bool)
    (plain : String) (payload : RedeemPayload) (node_id : Uuid) (w : World) (node : Node)
    (db : Tables) : Type 0 where
  pub row : Row
  pub found : find (has_hash (digest plain)) w.db.node_enrollments ≡ some row
  pub valid : check_payload digest parse_addr payload ≡ ok tt
  pub unused : row.used_at ≡ none
  pub fresh : w.now ≤ row.expires_at
  pub node_token : String
  pub made : new_node digest parse_addr row payload node_id node_token ≡ node
  pub effect : db ≡ after_redeem row node w.db_now w.db

usable-inv :
    (now : Time) (row : Row)
    → usable now row ≡ ok tt
    → (row.used_at ≡ none) × (now ≤ row.expires_at)
usable-inv now row h = ground arith

module _ (digest : String → String) (parse_addr : Text → Option Bool) (plain : String)
    (payload : RedeemPayload) (random : Option String) (node_id : Uuid) where
  pub redeem-IsAtomic : IsAtomic (redeem digest parse_addr plain payload random node_id)
  unfolding redeem
  redeem-IsAtomic =
      IsAtomic-bind _ _ (ReadsOnly-lift (check_payload digest parse_addr payload))
        λ _. IsAtomic-transaction (redeem_locked digest parse_addr plain payload random node_id)

  -- A redemption that fails, at whatever step, leaves the tables as they were.
  pub redeem_all_or_nothing :
      (w : World) (e : Err)
      → (redeem digest parse_addr plain payload random node_id w).0 ≡ err e
      → (redeem digest parse_addr plain payload random node_id w).1.db ≡ w.db
  redeem_all_or_nothing w e failed = redeem-IsAtomic.at w e failed

  locked-inv :
      (w : World) (node : Node) (node_token : String)
      → (redeem_locked digest parse_addr plain payload random node_id w).0 ≡ ok (node, node_token)
      → (row : Row) × (find (has_hash (digest plain)) w.db.node_enrollments ≡ some row)
        × (usable w.now row ≡ ok tt)
        × (new_node digest parse_addr row payload node_id node_token ≡ node)
        × ((redeem_locked digest parse_addr plain payload random node_id w).1.db
            ≡ after_redeem row node w.db_now w.db)
  unfolding redeem_locked query
  locked-inv w node node_token h =
      elim (Option-cases (find (has_hash (digest plain)) w.db.node_enrollments)) [
        | inl absent ↦ absurd (ground (arith, absent))
        | inr (row, e) ↦
            let w1 = record w { calls = w.calls + 1 } in
            let sent : w.faults w.calls ≡ false = ground arith in
            let same : redeem_locked digest parse_addr plain payload random node_id w
                ≡ redeem_row digest parse_addr payload random node_id row w1 =
              ground (arith, e, sent) in
            let (a, b, c, d) =
              redeem_row-inv digest parse_addr payload random node_id row w1 node node_token
                (ap (λ (p : Result (Node × String) × World). p.0) (sym same) ∙ h) in
            (row, e, a, c, ap (λ (p : Result (Node × String) × World). p.1.db) same ∙ d)
      ]

  pub redeem-inv :
      (w : World) (node : Node) (node_token : String)
      → (redeem digest parse_addr plain payload random node_id w).0 ≡ ok (node, node_token)
      → IsRedemption digest parse_addr plain payload node_id w node
          (redeem digest parse_addr plain payload random node_id w).1.db
  unfolding redeem
  redeem-inv w node node_token h =
      let (_, valid, h1, s1) = bind-inv (lift (check_payload digest parse_addr payload)) _ w h in
      let (v, r, body, s2) =
        transaction-inv (redeem_locked digest parse_addr plain payload random node_id) w h1 in
      let (row, found, open_, made, effect) = locked-inv v node node_token body in
      let (unused, fresh) = usable-inv v.now row open_ in
      record {
        row = row;
        found =
            subst (λ (db : Tables). find (has_hash (digest plain)) db.node_enrollments ≡ some row)
              r.db found;
        valid = valid;
        unused = unused;
        fresh = subst (λ t. t ≤ row.expires_at) r.now fresh;
        node_token = node_token;
        made = made;
        effect =
            ap (λ (x : World). x.db) s1 ∙ s2 ∙ effect ∙ ap₂ (after_redeem row node) r.db_now r.db;
      }
