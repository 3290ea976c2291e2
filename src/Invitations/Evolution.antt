-- ===== src/Invitations/Evolution.antt =====
-- Every operation on invitations, on every path, makes the rows evolve.
use talepanel.Base.{
  String, Bool, true, ◌&&◌, Option, List, [], ◌∷◌, ◌++◌, ◌==◌, update_where, if◌then◌else◌, Unicode,
  ◌≡◌, refl, sym, subst, arith, Bool-cases, inl, inr, ◌⊎◌,
}
use talepanel.Store.Tables.{
  Uuid, User, Tables, ServerInvitation, InvitationStatus, accepted, declined, revoked,
}
use talepanel.Store.Exec.{
  Result, ok, err, World, Exec, Err, Reads, after, invitation_exceeds_inviter, invitation_not_found,
  ◌>>=◌,
}
use talepanel.Store.Laws.{
  ReadsOnly, ReadsOnly-pure, ReadsOnly-raise, ReadsOnly-lift, ReadsOnly-gets, ReadsOnly-drawn,
}
use talepanel.Permissions.Keys.{server_member_role_permissions}
use talepanel.Invitations.Service.{
  is_pending, settle, settled_or, set_status, has_token, create_invitation, CreateInvitationRequest,
  accept_invitation, decline_invitation, revoke_invitation, insert_invitation, accepts_invitation,
  allowed_to_grant, requested_role,
}
use talepanel.Permissions.Missing.{missing-Reads}
use talepanel.Invitations.Accept.{accept_invitation-inv, accept_invitation-IsAtomic}
use talepanel.Invitations.History.{
  Evolves, Evolves-refl, Evolves-append, Evolves-update, Operation, create, accept, decline, revoke,
  pass, run,
}

settling : (ServerInvitation → Bool) → InvitationStatus → Err → Exec Unit
settling picks status e = do affected ← settle picks status; settled_or e affected

settling-effect :
    (picks : ServerInvitation → Bool) (status : InvitationStatus) (e : Err) (w : World)
    → (settling picks status e w).1.db.server_invitations ≡ (
        if w.faults w.calls
        then w.db.server_invitations
        else update_where
            (λ row. picks row && is_pending row.status)
            (set_status status)
            w.db.server_invitations)
unfolding settling settle
settling-effect picks status e w = ground arith

settling-Evolves :
    (picks : ServerInvitation → Bool) (status : InvitationStatus) (e : Err) (w : World)
    → Evolves w.db.server_invitations (settling picks status e w).1.db.server_invitations
settling-Evolves picks status e w = elim (Bool-cases (w.faults w.calls)) [
  | inl lost ↦ rw (settling-effect picks status e w, lost) (Evolves-refl w.db.server_invitations)
  | inr sent ↦
      rw (settling-effect picks status e w, sent)
        (Evolves-update picks status w.db.server_invitations)
]

-- A successful insert adds the row behind the others, and a failed one nothing.
insert-effect :
    (inv : ServerInvitation) (w : World)
    → ((insert_invitation inv w).1.db.server_invitations ≡ w.db.server_invitations)
      ⊎ ((insert_invitation inv w).1.db.server_invitations ≡ w.db.server_invitations ++ inv ∷ [])
unfolding insert_invitation
insert-effect inv w = elim (Bool-cases (w.faults w.calls)) [
  | inl lost ↦ inl (ground arith)
  | inr sent ↦ elim (Bool-cases (accepts_invitation inv w.db)) [
    | inl valid ↦ inr (ground arith)
    | inr refused ↦ inl (ground arith)
  ]
]

accept-Evolves :
    (unicode : Unicode) (token : String) (user_id : Uuid) (user_email : String) (w : World)
    → Evolves w.db.server_invitations
        (accept_invitation unicode token user_id user_email w).1.db.server_invitations
accept-Evolves unicode token user_id user_email w =
    go ((accept_invitation unicode token user_id user_email w).0) refl
  where
    go :
        (r : Result (Unit {0}))
        → (accept_invitation unicode token user_id user_email w).0 ≡ r
        → Evolves w.db.server_invitations
            (accept_invitation unicode token user_id user_email w).1.db.server_invitations
    go (ok _) passed =
        let a = accept_invitation-inv unicode token user_id user_email w passed in
        subst (λ (db : Tables). Evolves w.db.server_invitations db.server_invitations)
          (sym a.effect)
          (Evolves-update (λ row. row.id == a.inv.id) accepted w.db.server_invitations)
    go (err e) failed =
        subst (λ (db : Tables). Evolves w.db.server_invitations db.server_invitations)
          (sym ((accept_invitation-IsAtomic unicode token user_id user_email).at w e failed))
          (Evolves-refl w.db.server_invitations)

-- A program whose every run leaves rows that evolve from those before it.
record Grows {A : Type 0} (m : Exec A) : Type 0 where
  at : (w : World) → Evolves w.db.server_invitations (m w).1.db.server_invitations

after-Grows :
    {A B : Type 0} (f : A → Exec B) (w : World) (r : Result A × World)
    → Reads w r.1
    → ((a : A) → Grows (f a))
    → Evolves w.db.server_invitations (after r f).1.db.server_invitations
after-Grows f w (ok a, w') h k =
    subst (λ (db : Tables). Evolves db.server_invitations (f a w').1.db.server_invitations) h.db
      ((k a).at w')
after-Grows f w (err e, w') h k =
    subst (λ (db : Tables). Evolves w.db.server_invitations db.server_invitations) (sym h.db)
      (Evolves-refl w.db.server_invitations)

Grows-bind :
    {A B : Type 0} (m : Exec A) (f : A → Exec B)
    → ReadsOnly m
    → ((a : A) → Grows (f a))
    → Grows (m >>= f)
Grows-bind m f h k = record { at = λ w. after-Grows f w (m w) (h.at w) k }

insert-Grows :
    (inv : ServerInvitation) → is_pending inv.status ≡ true → Grows (insert_invitation inv)
insert-Grows inv h = record {
  at = λ w. elim (insert-effect inv w) [
    | inl kept ↦ rw kept (Evolves-refl w.db.server_invitations)
    | inr added ↦ rw added (Evolves-append w.db.server_invitations inv h)
  ];
}

ReadsOnly-allowed_to_grant : (keys : List String) → ReadsOnly (allowed_to_grant keys)
ReadsOnly-allowed_to_grant [] = ReadsOnly-pure tt
ReadsOnly-allowed_to_grant (key ∷ keys) = ReadsOnly-raise invitation_exceeds_inviter

create-Grows :
    (unicode : Unicode) (random : Option String) (id server_id : Uuid) (inviter : User)
    (req : CreateInvitationRequest)
    → Grows (create_invitation unicode random id server_id inviter req)
unfolding create_invitation
create-Grows unicode random id server_id inviter req =
    Grows-bind _ _
      (ReadsOnly-lift (server_member_role_permissions (requested_role unicode req.role)))
      λ perms.
        Grows-bind _ _ (record { at = missing-Reads inviter server_id perms })
          λ missing. Grows-bind _ _ (ReadsOnly-allowed_to_grant missing) λ _.
            Grows-bind _ _ (ReadsOnly-drawn random) λ token.
              Grows-bind _ _ (ReadsOnly-gets (λ w. w.db_now)) λ created. insert-Grows _ refl

-- Whatever an operation answers, and whatever statements fail, it settles pending invitations at
-- most, and adds at most a pending one: no settled invitation changes and no row is lost.
pub run-Evolves :
    (unicode : Unicode) (op : Operation) (w : World)
    → Evolves w.db.server_invitations (run unicode op w).db.server_invitations
unfolding decline_invitation revoke_invitation settling
run-Evolves unicode (create random id server_id inviter req) w =
    (create-Grows unicode random id server_id inviter req).at w
run-Evolves unicode (accept token user_id user_email) w =
    accept-Evolves unicode token user_id user_email w
run-Evolves unicode (decline token) w =
    settling-Evolves (has_token token) declined invitation_not_found w
run-Evolves unicode (revoke server_id invitation_id) w =
    settling-Evolves (λ row. row.id == invitation_id && row.server_id == server_id) revoked
      invitation_not_found w
run-Evolves unicode (pass now db_now faults) w = Evolves-refl w.db.server_invitations

-- Any operations, in any order.
abbrev pub run_all : Unicode → List Operation → World → World
run_all unicode [] w = w
run_all unicode (op ∷ ops) w = run_all unicode ops (run unicode op w)
