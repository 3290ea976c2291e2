-- ===== src/Invitations/History.antt =====
-- Invitations as a state machine: what the four operations may do to the rows.
use talepanel.Base.{
  ℕ, String, Bool, true, ◌&&◌, Option, List, [], ◌∷◌, ◌++◌, update_where, if◌then◌else◌, Unicode,
  ◌≡◌, arith, Bool-cases, inl, inr,
}
use talepanel.Store.Tables.{Uuid, Time, User, ServerInvitation, InvitationStatus}
use talepanel.Store.Exec.{World}
use talepanel.Invitations.Service.{
  is_pending, set_status, create_invitation, CreateInvitationRequest, accept_invitation,
  decline_invitation, revoke_invitation,
}

-- One row's step: nothing, or from pending to another status.
pub data RowStep (row : ServerInvitation) : ServerInvitation → Type 0 where
  same : RowStep row row
  settled :
      (status : InvitationStatus)
      → is_pending row.status ≡ true
      → RowStep row (set_status status row)

-- The rows of one table against those of a later one: each has stepped, and new rows, pending ones,
-- stand behind them.
pub data Evolves : List ServerInvitation → List ServerInvitation → Type 0 where
  done : Evolves [] []
  opened : (row : ServerInvitation) → is_pending row.status ≡ true → Evolves [] (row ∷ [])
  stepped :
      {row row' : ServerInvitation} {rows rows' : List ServerInvitation}
      → RowStep row row'
      → Evolves rows rows'
      → Evolves (row ∷ rows) (row' ∷ rows')

pub Evolves-refl : (rows : List ServerInvitation) → Evolves rows rows
Evolves-refl [] = done
Evolves-refl (row ∷ rows) = stepped same (Evolves-refl rows)

pub Evolves-append :
    (rows : List ServerInvitation) (row : ServerInvitation)
    → is_pending row.status ≡ true
    → Evolves rows (rows ++ row ∷ [])
Evolves-append [] row h = opened row h
Evolves-append (r ∷ rows) row h = stepped same (Evolves-append rows row h)

RowStep-update :
    (picks : ServerInvitation → Bool) (status : InvitationStatus) (row : ServerInvitation)
    → RowStep row (if picks row && is_pending row.status then set_status status row else row)
RowStep-update picks status row = elim (Bool-cases (picks row && is_pending row.status)) [
  | inl hit ↦ rw hit (settled status (ground (arith, hit)))
  | inr miss ↦ rw miss same
]

pub Evolves-update :
    (picks : ServerInvitation → Bool) (status : InvitationStatus) (rows : List ServerInvitation)
    → Evolves rows
        (update_where (λ row. picks row && is_pending row.status) (set_status status) rows)
Evolves-update picks status [] = done
Evolves-update picks status (row ∷ rows) =
    stepped (RowStep-update picks status row) (Evolves-update picks status rows)

-- The four operations, successful or not, and what happens around them.
pub data Operation : Type 0 where
  create : Option String → Uuid → Uuid → User → CreateInvitationRequest → Operation
  accept : String → Uuid → String → Operation
  decline : String → Operation
  revoke : Uuid → Uuid → Operation
  -- the environment: the clocks move, and other statements fail
  pass : Time → Time → (ℕ → Bool) → Operation

abbrev pub run : Unicode → Operation → World → World
run unicode (create random id server_id inviter req) w =
    (create_invitation unicode random id server_id inviter req w).1
run unicode (accept token user_id user_email) w =
    (accept_invitation unicode token user_id user_email w).1
run unicode (decline token) w = (decline_invitation token w).1
run unicode (revoke server_id invitation_id) w = (revoke_invitation server_id invitation_id w).1
run unicode (pass now db_now faults) w = record w { now = now; db_now = db_now; faults = faults }
