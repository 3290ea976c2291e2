-- ===== src/Invitations/Escalation.antt =====
-- An acceptance hands out no more than the inviter holds.
use talepanel.Base.{
  String, Bool, true, ◌&&◌, ◌||◌, not, some, List, [], ◌∷◌, BoolMap, at_key, find, Unicode, ◌≡◌,
  refl, ap, subst, ◌∙◌, arith, Bool-cases, inl, inr,
}
use talepanel.Store.Tables.{Uuid, User, ServerMember, object, Tables, ServerInvitation}
use talepanel.Store.Exec.{ok, World, Reads-IsSteady, IsSteady}
use talepanel.Permissions.Keys.{role_grants_key}
use talepanel.Permissions.Service.{is_member_row, member_permissions}
use talepanel.Permissions.Rule.{may_on_server}
use talepanel.Invitations.Service.{upsert_member, accept_invitation, has_token}
use talepanel.Invitations.Grants.{inviter_in, IsHeld, granted_permissions-IsHeld}
use talepanel.Invitations.Accept.{accept_invitation-inv}

find-upsert_member :
    (member : ServerMember) (rows : List ServerMember)
    → (row : ServerMember) × (find
          (is_member_row member.server_id member.user_id)
          (upsert_member member rows)
        ≡ some row)
      × (row.permissions ≡ member.permissions)
      × (row.role ≡ member.role)
unfolding upsert_member
find-upsert_member member [] = (member, ground arith, refl, refl)
find-upsert_member member (row ∷ rows) =
    elim (Bool-cases (is_member_row member.server_id member.user_id row)) [
      | inl same ↦ (
        record row { role = member.role; permissions = member.permissions },
        rw (same, same),
        refl,
        refl,
      )
      | inr other ↦
          let (found, e, p, r) = find-upsert_member member rows in
          (found, rw (other, other) e, p, r)
    ]

-- A key that the map says true of is granted by the invitation's role and held by the inviter.
abbrev pub is_held : Tables → ServerInvitation → User → BoolMap → String → Bool
is_held db inv inviter perms key =
    not (at_key perms key)
    || role_grants_key inv.role key && may_on_server db inviter inv.server_id key

is_held-IsHeld :
    (db : Tables) (inv : ServerInvitation) (inviter : User) (perms : BoolMap) (key : String)
    → IsHeld db inv inviter perms
    → is_held db inv inviter perms key ≡ true
is_held-IsHeld db inv inviter perms key held = elim (Bool-cases (at_key perms key)) [
  | inl said ↦ let (granted, allowed) = held key said in ground (arith, said, granted, allowed)
  | inr unsaid ↦ ground (arith, unsaid)
]

module _ (unicode : Unicode) (token : String) (user_id : Uuid) (user_email : String)
    (w : World) where
  -- When no statement fails, a successful acceptance makes the user a member of the invitation's
  -- server with the invitation's role, and every permission that the member's row says true of is
  -- granted by that role and held on that server by the inviter at that time.
  pub accept_invitation_escalates_nothing :
      IsSteady w
      → (accept_invitation unicode token user_id user_email w).0 ≡ ok tt
      → (inv : ServerInvitation) × (inviter : User) × (row : ServerMember) × (perms : BoolMap)
        × (find (has_token token) w.db.server_invitations ≡ some inv)
        × (inviter_in w.db inv ≡ some inviter)
        × (member_permissions inv.server_id user_id
              (accept_invitation unicode token user_id user_email w).1.db
            ≡ some row)
        × (row.role ≡ inv.role)
        × (row.permissions ≡ object perms)
        × ((key : String) → is_held w.db inv inviter perms key ≡ true)
  accept_invitation_escalates_nothing steady done =
      let a = accept_invitation-inv unicode token user_id user_email w done in
      let (inviter, loaded, held) =
        granted_permissions-IsHeld a.inv a.before a.perms (Reads-IsSteady a.read steady)
          a.granted in
      let member : ServerMember = record {
        server_id = a.inv.server_id;
        user_id = user_id;
        role = a.inv.role;
        permissions = object a.perms;
      } in
      let (row, found, p, r) = find-upsert_member member w.db.server_members in
      (
        a.inv,
        inviter,
        row,
        a.perms,
        a.found,
        subst (λ (db : Tables). inviter_in db a.inv ≡ some inviter) a.read.db loaded,
        ap (member_permissions a.inv.server_id user_id) a.effect ∙ found,
        r,
        p,
        λ key.
            is_held-IsHeld w.db a.inv inviter a.perms key
              (subst (λ (db : Tables). IsHeld db a.inv inviter a.perms) a.read.db held),
      )
