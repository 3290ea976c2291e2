-- ===== src/Invitations/Accept.antt =====
-- What a successful AcceptInvitation has gone through, and what it wrote.
use talepanel.Base.{
  String, true, ◌&&◌, ◌≤◌, some, BoolMap, ◌==◌, find, update_where, Unicode, trim_space, equal_fold,
  ◌≡◌, ap, subst, ◌∙◌, arith,
}
use talepanel.Store.Tables.{Uuid, Time, object, Tables, ServerInvitation, accepted}
use talepanel.Store.Exec.{
  ok, err, World, lift, Reads, Reads-trans, database, invitation_not_found, Err,
}
use talepanel.Store.Laws.{
  ReadsOnly, IsAtomic, ReadsOnly-bind, ReadsOnly-pure, ReadsOnly-lift, ReadsOnly-query,
  ReadsOnly-found_or, ReadsOnly-gets, IsAtomic-bind, IsAtomic-transaction, bind-inv,
  transaction-inv,
}
use talepanel.Permissions.Keys.{server_member_role_permissions}
use talepanel.Permissions.Missing.{missing-Reads}
use talepanel.Invitations.Service.{
  is_pending, has_token, find_by_token, role_of, bare_user, capped, granted_permissions, set_status,
  add_member, record_acceptance, accept_invitation, check_invitation,
}

pub ReadsOnly-find_by_token : (token : String) → ReadsOnly (find_by_token token)
unfolding find_by_token
ReadsOnly-find_by_token token =
    ReadsOnly-bind _ _ (ReadsOnly-query _) (ReadsOnly-found_or invitation_not_found)

pub ReadsOnly-granted_permissions : (inv : ServerInvitation) → ReadsOnly (granted_permissions inv)
unfolding granted_permissions
ReadsOnly-granted_permissions inv =
    ReadsOnly-bind _ _ (ReadsOnly-lift (server_member_role_permissions inv.role)) λ role_perms.
      ReadsOnly-bind _ _ (ReadsOnly-query (role_of inv.inviter_id)) λ found.
        ReadsOnly-bind _ _ (ReadsOnly-found_or database found) λ role.
          ReadsOnly-bind _ _
            (record {
              at =
                  missing-Reads (bare_user inv.inviter_id role) inv.server_id
                    (capped role_perms inv.permissions);
            })
            λ missing. ReadsOnly-pure _

-- The tables after an acceptance: the pending row is accepted, and the member's row is written.
abbrev pub after_acceptance : ServerInvitation → Uuid → BoolMap → Tables → Tables
after_acceptance inv user_id perms db =
    add_member
      (record {
        server_id = inv.server_id;
        user_id = user_id;
        role = inv.role;
        permissions = object perms;
      })
      (record db {
        server_invitations =
            update_where (λ row. row.id == inv.id && is_pending row.status) (set_status accepted)
              db.server_invitations;
      })

-- What a successful acceptance went through: the invitation that the token names, its checks, the
-- permissions granted, and the effect on the tables.
pub record IsAcceptance (unicode : Unicode) (token : String) (user_id : Uuid) (user_email : String)
    (w : World) (db : Tables) : Type 0 where
  pub inv : ServerInvitation
  pub found : find (has_token token) w.db.server_invitations ≡ some inv
  pub addressed : equal_fold unicode (trim_space inv.invitee_email) (trim_space user_email) ≡ true
  pub was_pending : is_pending inv.status ≡ true
  pub fresh : w.now ≤ inv.expires_at
  pub perms : BoolMap
  pub before : World
  pub read : Reads w before
  pub granted : (granted_permissions inv before).0 ≡ ok perms
  pub effect : db ≡ after_acceptance inv user_id perms w.db

find_by_token-inv :
    (token : String) (w : World) {inv : ServerInvitation}
    → (find_by_token token w).0 ≡ ok inv
    → find (has_token token) w.db.server_invitations ≡ some inv
unfolding find_by_token
find_by_token-inv token w h = ground arith

record_acceptance-inv :
    (inv : ServerInvitation) (user_id : Uuid) (perms : BoolMap) (w : World)
    → (record_acceptance inv user_id perms w).0 ≡ ok tt
    → (record_acceptance inv user_id perms w).1.db ≡ after_acceptance inv user_id perms w.db
unfolding record_acceptance
record_acceptance-inv inv user_id perms w h = ground arith

check_invitation-inv :
    (unicode : Unicode) (user_email : String) (now : Time) (inv : ServerInvitation)
    → check_invitation unicode user_email now inv ≡ ok tt
    → (equal_fold unicode (trim_space inv.invitee_email) (trim_space user_email) ≡ true)
      × (is_pending inv.status ≡ true)
      × (now ≤ inv.expires_at)
unfolding check_invitation
check_invitation-inv unicode user_email now inv h = ground arith

module _ (unicode : Unicode) (token : String) (user_id : Uuid) (user_email : String) where
  pub accept_invitation-IsAtomic : IsAtomic (accept_invitation unicode token user_id user_email)
  unfolding accept_invitation
  accept_invitation-IsAtomic = IsAtomic-bind _ _ (ReadsOnly-find_by_token token) λ inv.
      IsAtomic-bind _ _ (ReadsOnly-gets (λ w. w.now)) λ now.
        IsAtomic-bind _ _ (ReadsOnly-lift (check_invitation unicode user_email now inv)) λ _.
          IsAtomic-bind _ _ (ReadsOnly-granted_permissions inv)
            λ perms. IsAtomic-transaction (record_acceptance inv user_id perms)

  -- An acceptance that fails, at whatever statement, leaves the tables as they were.
  pub accept_invitation_all_or_nothing :
      (w : World) (e : Err)
      → (accept_invitation unicode token user_id user_email w).0 ≡ err e
      → (accept_invitation unicode token user_id user_email w).1.db ≡ w.db
  accept_invitation_all_or_nothing w e failed = accept_invitation-IsAtomic.at w e failed

  pub accept_invitation-inv :
      (w : World)
      → (accept_invitation unicode token user_id user_email w).0 ≡ ok tt
      → IsAcceptance unicode token user_id user_email w
          (accept_invitation unicode token user_id user_email w).1.db
  unfolding accept_invitation
  accept_invitation-inv w h =
      let (inv, found, h1, s1) = bind-inv (find_by_token token) _ w h in
      let w1 = (find_by_token token w).1 in
      let r1 = (ReadsOnly-find_by_token token).at w in
      let (_, checked, h2, s2) =
        bind-inv (lift (check_invitation unicode user_email w1.now inv)) _ w1 h1 in
      let (perms, granted, h3, s3) = bind-inv (granted_permissions inv) _ w1 h2 in
      let w2 = (granted_permissions inv w1).1 in
      let r2 = Reads-trans r1 ((ReadsOnly-granted_permissions inv).at w1) in
      let (v, r, body, s4) = transaction-inv (record_acceptance inv user_id perms) w2 h3 in
      let (addressed, was_pending, fresh) =
        check_invitation-inv unicode user_email w1.now inv checked in
      record {
        inv = inv;
        found = find_by_token-inv token w found;
        addressed = addressed;
        was_pending = was_pending;
        fresh = subst (λ t. t ≤ inv.expires_at) r1.now fresh;
        perms = perms;
        before = w1;
        read = r1;
        granted = granted;
        effect =
            ap (λ (x : World). x.db) (s1 ∙ s2 ∙ s3)
            ∙ s4
            ∙ record_acceptance-inv inv user_id perms v body
            ∙ ap (after_acceptance inv user_id perms) (Reads-trans r2 r).db;
      }
