-- ===== src/Enrollment/RoundTrip.antt =====
-- A token that Create hands out can be redeemed, once.
use talepanel.Base.{
  leb, length, codes, String, Bool, true, false, ◌+◌, ◌≤◌, Option, none, some, List, [], ◌∷◌, ◌++◌,
  str_eq, ◌==◌, eq_refl, find, any, update_where, Text, ◌≡◌, ◌≢◌, refl, sym, ap, ◌∙◌, arith,
  some_inj, Bool-cases, inl, inr,
}
use talepanel.Store.Tables.{Uuid, Time, Tables, Enrollment as Row, Node}
use talepanel.Store.Exec.{ok, World, IsSteady, statement, query, execute, transaction}
use talepanel.Enrollment.Service.{
  CreateRequest, RedeemPayload, has_hash, usable, accepts_node, accepts_enrollment, has_id_or_hash,
  node_checks, is_new_node, add_enrollment, set_used, new_node, new_row, default_ttl,
  create_enrollment, insert_enrollment, insert_node, mark_used, redeem_row, redeem_locked,
  check_payload, redeem,
}
use talepanel.Enrollment.Redeem.{redeem-inv}
use talepanel.Enrollment.Checks.{accepts_enrollment-IsStored, new_node-checks}

-- The row that a token names, once it is used.
find-used :
    (hash : String) (row : Row) (node_id : Uuid) (now : Time) (rows : List Row)
    → find (has_hash hash) rows ≡ some row
    → find (has_hash hash) (update_where (λ r. r.id == row.id) (set_used node_id now) rows)
      ≡ some (set_used node_id now row)
find-used hash row node_id now [] e = cc
find-used hash row node_id now (r ∷ rows) e = ground (arith, find-used hash row node_id now rows)

find-append :
    (hash : String) (row : Row) (rows : List Row)
    → any (has_hash hash) rows ≡ false
    → str_eq row.token_hash hash ≡ true
    → find (has_hash hash) (rows ++ row ∷ []) ≡ some row
find-append hash row [] h e = ground arith
find-append hash row (r ∷ rows) h e = ground (arith, find-append hash row rows)

any-has_hash :
    (id : Uuid) (hash : String) (rows : List Row)
    → any (has_id_or_hash id hash) rows ≡ false
    → any (has_hash hash) rows ≡ false
any-has_hash id hash [] h = refl
any-has_hash id hash (r ∷ rows) h = ground (arith, any-has_hash id hash rows)

insert_enrollment-inv :
    (row : Row) (w : World)
    → (insert_enrollment row w).0 ≡ ok tt
    → (accepts_enrollment row w.db ≡ true)
      × ((insert_enrollment row w).1.db ≡ add_enrollment row w.db)
unfolding insert_enrollment statement
insert_enrollment-inv row w h = elim (Bool-cases (accepts_enrollment row w.db)) [
  | inl valid ↦ (valid, ground (arith, valid))
  | inr refused ↦ absurd (ground (arith, refused))
]

module _ (digest : String → String) where
  create-inv :
      (random : Option String) (id : Uuid) (req : CreateRequest) (w : World) (row : Row)
      (plain : String)
      → (create_enrollment digest random id req w).0 ≡ ok (row, plain)
      → (str_eq req.node_name "" ≡ false)
        × ((create_enrollment digest random id req w).1.db
            ≡ add_enrollment (new_row digest req id plain w.now w.db_now) w.db)
        × (accepts_enrollment (new_row digest req id plain w.now w.db_now) w.db ≡ true)
  unfolding create_enrollment
  create-inv none id req w row plain h = absurd (ground arith)
  create-inv (some token) id req w row plain h =
      let made = new_row digest req id token w.now w.db_now in
      elim (Bool-cases (str_eq req.node_name "")) [
        | inl unnamed ↦ absurd (ground (arith, unnamed))
        | inr named ↦ ground (arith, named, insert_enrollment-inv made w)
      ]

accepted_node :
    (node : Node) (db : Tables)
    → node_checks node ≡ true
    → is_new_node node.id node.token_hash db ≡ true
    → accepts_node node db ≡ true
unfolding accepts_node
accepted_node node db fits new = ground (arith, fits, new)

fresh_usable :
    (row : Row) (now : Time) → row.used_at ≡ none → now ≤ row.expires_at → usable now row ≡ ok tt
fresh_usable row now unused fresh = ground arith

module _ (digest : String → String) (parse_addr : Text → Option Bool) where
  -- When no statement fails, the row that the token names decides: unused and fresh, with a valid
  -- payload and a new node, it is redeemed.
  redeem-runs :
      (plain : String) (payload : RedeemPayload) (node_token : String) (node_id : Uuid) (row : Row)
      (w : World)
      → IsSteady w
      → check_payload digest parse_addr payload ≡ ok tt
      → find (has_hash (digest plain)) w.db.node_enrollments ≡ some row
      → usable w.now row ≡ ok tt
      → accepts_node (new_node digest parse_addr row payload node_id node_token) w.db ≡ true
      → (redeem digest parse_addr plain payload (some node_token) node_id w).0
        ≡ ok (new_node digest parse_addr row payload node_id node_token, node_token)
  unfolding redeem redeem_locked redeem_row insert_node mark_used transaction query execute
      statement
  redeem-runs plain payload node_token node_id row w steady valid found fresh new = ground (
    arith,
    steady.at_call w.calls,
    steady.at_call (w.calls + 1),
    steady.at_call (w.calls + 1 + 1),
    steady.at_call (w.calls + 1 + 1 + 1),
    steady.at_call (w.calls + 1 + 1 + 1 + 1),
  )

  -- A token is redeemed once: after a successful redemption no redemption of the same token succeeds
  -- while the enrollments stand as it left them, whatever statements fail and clocks say.
  pub redeemed_once :
      (plain : String) (payload second : RedeemPayload) (random random' : Option String)
      (node_id second_id : Uuid) (w later : World) (node other : Node) (node_token token : String)
      → (redeem digest parse_addr plain payload random node_id w).0 ≡ ok (node, node_token)
      → later.db.node_enrollments
        ≡ (redeem digest parse_addr plain payload random node_id w).1.db.node_enrollments
      → (redeem digest parse_addr plain second random' second_id later).0 ≢ ok (other, token)
  redeemed_once plain payload second random random' node_id second_id w later node other node_token
        token h kept again =
      let first = redeem-inv digest parse_addr plain payload random node_id w node node_token h in
      let next =
        redeem-inv digest parse_addr plain second random' second_id later other token again in
      let e =
        sym next.found
        ∙ ap (find (has_hash (digest plain)))
            (kept ∙ ap (λ (db : Tables). db.node_enrollments) first.effect)
        ∙ find-used (digest plain) first.row node.id w.db_now w.db.node_enrollments first.found in
      cc (next.unused, ap (λ (r : Row). r.used_at) (some_inj e))

  pub create-redeem :
      (random : Option String) (id : Uuid) (req : CreateRequest) (w later : World) (shown : Row)
      (plain : String) (payload : RedeemPayload) (node_token : String) (node_id : Uuid)
      → (create_enrollment digest random id req w).0 ≡ ok (shown, plain)
      → later.db ≡ (create_enrollment digest random id req w).1.db
      → IsSteady later
      → later.now ≤ w.now + default_ttl req.ttl
      → check_payload digest parse_addr payload ≡ ok tt
      → leb (length (codes req.node_name)) 100 ≡ true
      → is_new_node node_id (digest node_token) w.db ≡ true
      → (redeem digest parse_addr plain payload (some node_token) node_id later).0
        ≡ ok (
          new_node digest parse_addr
              (new_row digest req id plain w.now w.db_now)
              payload
              node_id
              node_token,
          node_token,
        )
  unfolding accepts_node
  create-redeem random id req w later shown plain payload node_token node_id made kept steady fresh
        valid short new =
      let (named, added, accepted) = create-inv digest random id req w shown plain made in
      let row = new_row digest req id plain w.now w.db_now in
      let stored = accepts_enrollment-IsStored row w.db accepted in
      let absent = any-has_hash id (digest plain) w.db.node_enrollments stored.fresh in
      let fits =
        new_node-checks digest parse_addr req id plain w.now w.db_now w.db payload node_id
          node_token named short stored valid in
      let tables = kept ∙ added in
      let hash = digest plain in
      redeem-runs plain payload node_token node_id row later steady valid
        (ap (λ (db : Tables). find (has_hash hash) db.node_enrollments) tables
          ∙ find-append hash row w.db.node_enrollments absent (eq_refl hash))
        (fresh_usable row later.now refl fresh)
        (ap (accepts_node (new_node digest parse_addr row payload node_id node_token)) tables
          ∙ accepted_node (new_node digest parse_addr row payload node_id node_token) w.db fits new)
