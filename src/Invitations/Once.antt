-- ===== src/Invitations/Once.antt =====
-- Settled invitations stay settled, and a token is accepted once.
use talepanel.Base.{
  ℕ, zero, suc, String, true, false, ◌&&◌, some, List, [], ◌∷◌, ◌==◌, some_inj, find, get_elem?,
  update_where, Unicode, ◌≡◌, ◌≢◌, refl, sym, ap, subst, ◌∙◌, arith, Bool-cases, inl, inr,
}
use talepanel.Store.Tables.{Uuid, Tables, ServerInvitation, accepted}
use talepanel.Store.Exec.{ok, World}
use talepanel.Invitations.Service.{is_pending, set_status, has_token, accept_invitation}
use talepanel.Invitations.Accept.{accept_invitation-inv}
use talepanel.Invitations.History.{
  RowStep, same, settled, Evolves, done, opened, stepped, Operation, run,
}
use talepanel.Invitations.Evolution.{run-Evolves, run_all}

RowStep-settled :
    {row row' : ServerInvitation} → RowStep row row' → is_pending row.status ≡ false → row' ≡ row
RowStep-settled same h = refl
RowStep-settled (settled status p) h = cc (p, h)

-- A settled row that steps is the row it was.
settled_row :
    {r r' row : ServerInvitation}
    → RowStep r r'
    → r ≡ row
    → is_pending row.status ≡ false
    → r' ≡ row
settled_row step e h =
    RowStep-settled step (ap (λ (x : ServerInvitation). is_pending x.status) e ∙ h) ∙ e

has_token-RowStep :
    {r r' : ServerInvitation} (token : String)
    → RowStep r r'
    → has_token token r' ≡ has_token token r
has_token-RowStep token same = refl
has_token-RowStep token (settled status p) = refl

Evolves-get_elem? :
    {rows rows' : List ServerInvitation} (i : ℕ) (row : ServerInvitation)
    → Evolves rows rows'
    → get_elem? rows i ≡ some row
    → is_pending row.status ≡ false
    → get_elem? rows' i ≡ some row
Evolves-get_elem? i row done e h = cc
Evolves-get_elem? i row (opened r p) e h = cc
Evolves-get_elem? zero row (stepped step rest) e h = ap some (settled_row step (some_inj e) h)
Evolves-get_elem? (suc i) row (stepped step rest) e h = Evolves-get_elem? i row rest e h

-- The row that a token names keeps its place; a settled one does not change at all.
Evolves-find :
    {rows rows' : List ServerInvitation} (token : String) (row : ServerInvitation)
    → Evolves rows rows'
    → find (has_token token) rows ≡ some row
    → is_pending row.status ≡ false
    → find (has_token token) rows' ≡ some row
Evolves-find token row done e h = cc
Evolves-find token row (opened r p) e h = cc
Evolves-find token row (stepped {row = r} {row' = r'} step rest) e h =
    elim (Bool-cases (has_token token r)) [
      | inl hit ↦
          rw (has_token-RowStep token step, hit)
            (ap some (settled_row step (some_inj (rw hit at e)) h))
      | inr miss ↦
          rw (has_token-RowStep token step, miss) (Evolves-find token row rest (rw miss at e) h)
    ]

-- Settling the row that a token names.
find-settled :
    (token : String) (inv : ServerInvitation) (rows : List ServerInvitation)
    → find (has_token token) rows ≡ some inv
    → is_pending inv.status ≡ true
    → find
        (has_token token)
        (update_where (λ row. row.id == inv.id && is_pending row.status) (set_status accepted) rows)
      ≡ some (set_status accepted inv)
find-settled token inv [] e h = cc
find-settled token inv (row ∷ rows) e h = elim (Bool-cases (has_token token row)) [
  | inl hit ↦ ground arith
  | inr miss ↦ ground (arith, find-settled token inv rows)
]

module _ (unicode : Unicode) where
  -- A settled invitation is never changed or removed by any later operations, whatever they answer.
  pub settled_invitation_stays :
      (ops : List Operation) (w : World) (i : ℕ) (row : ServerInvitation)
      → get_elem? w.db.server_invitations i ≡ some row
      → is_pending row.status ≡ false
      → get_elem? (run_all unicode ops w).db.server_invitations i ≡ some row
  settled_invitation_stays [] w i row e h = e
  settled_invitation_stays (op ∷ ops) w i row e h =
      settled_invitation_stays ops (run unicode op w) i row
        (Evolves-get_elem? i row (run-Evolves unicode op w) e h) h

  settled_token_stays :
      (ops : List Operation) (w : World) (token : String) (row : ServerInvitation)
      → find (has_token token) w.db.server_invitations ≡ some row
      → is_pending row.status ≡ false
      → find (has_token token) (run_all unicode ops w).db.server_invitations ≡ some row
  settled_token_stays [] w token row e h = e
  settled_token_stays (op ∷ ops) w token row e h =
      settled_token_stays ops (run unicode op w) token row
        (Evolves-find token row (run-Evolves unicode op w) e h) h

  refused :
      (token : String) (user_id : Uuid) (email : String) (w : World) (row : ServerInvitation)
      → find (has_token token) w.db.server_invitations ≡ some row
      → is_pending row.status ≡ false
      → (accept_invitation unicode token user_id email w).0 ≢ ok tt
  refused token user_id email w row e h passed =
      let a = accept_invitation-inv unicode token user_id email w passed in
      cc (
        a.was_pending,
        h,
        ap (λ (x : ServerInvitation). is_pending x.status) (some_inj (sym a.found ∙ e)),
      )

  -- A token is accepted once: after a successful acceptance, whatever operations follow and however
  -- the clocks move or statements fail, no user's acceptance of the same token succeeds.
  pub accepted_once :
      (token : String) (user_id : Uuid) (email : String) (w : World) (ops : List Operation)
      (second_user : Uuid) (second_email : String)
      → (accept_invitation unicode token user_id email w).0 ≡ ok tt
      → (accept_invitation unicode token second_user second_email
          (run_all unicode ops (accept_invitation unicode token user_id email w).1)).0
        ≢ ok tt
  accepted_once token user_id email w ops second_user second_email passed =
      let a = accept_invitation-inv unicode token user_id email w passed in
      let w1 = (accept_invitation unicode token user_id email w).1 in
      refused token second_user second_email (run_all unicode ops w1) (set_status accepted a.inv)
        (settled_token_stays ops w1 token (set_status accepted a.inv)
          (subst
            (λ (db : Tables).
              find (has_token token) db.server_invitations ≡ some (set_status accepted a.inv))
            (sym a.effect) (find-settled token a.inv w.db.server_invitations a.found a.was_pending))
          refl)
        refl
