-- ===== src/Invitations/Tests.antt =====
-- Invitations on a small database.
use talepanel.Base.{
  String, ◌≡◌, ◌≢◌, refl, false, true, some, [], ◌∷◌, ◌++◌, ◌+◌, find, plain_unicode,
  to_lower_string, trim_space, equal_fold, lookup, BoolMap, insert, ◌==◌,
}
use talepanel.Store.Tables.{User, ServerMember, ServerInvitation, pending, revoked, object}
use talepanel.Store.Exec.{ok, err, World, query, statement, transaction, execute, database}
use talepanel.Store.Sample.{alice, sample, calm, calm-IsSteady, invitation}
use talepanel.Permissions.Keys.{grant_map, server_member_role_permissions, write_all}
use talepanel.Permissions.Service.{
  member_permissions, has_permission, has_server_permission, missing_server_permissions,
  missing_server_permissions_from,
}
use talepanel.Invitations.Service.{
  CreateInvitationRequest, accept_invitation, create_invitation, has_token, requested_role,
  seven_days, set_status, find_by_token, granted_permissions, check_invitation, record_acceptance,
  settle, insert_member, insert_invitation,
}
use talepanel.Invitations.Accept.{accept_invitation_all_or_nothing}
use talepanel.Invitations.Escalation.{accept_invitation_escalates_nothing, is_held}
use talepanel.Invitations.Grants.{inviter_in}
use talepanel.Invitations.Creation.{create_invitation_covered, exceeds}
use talepanel.Invitations.History.{decline}
use talepanel.Invitations.Evolution.{run_all}
use talepanel.Invitations.Once.{accepted_once}

eve_accepts : (accept_invitation plain_unicode "t0" 4 "eve@x" calm).0 ≡ ok tt
unfolding accept_invitation find_by_token granted_permissions check_invitation record_acceptance
    settle insert_member insert_invitation query statement transaction execute
    missing_server_permissions missing_server_permissions_from has_server_permission has_permission
    server_member_role_permissions grant_map write_all lookup insert equal_fold trim_space
eve_accepts = refl

-- The insert into server_members fails, behind the update of the invitation.
abbrev torn : World
torn = record calm { faults = λ n. n == 14 }

eve_loses : (accept_invitation plain_unicode "t0" 4 "eve@x" torn).0 ≡ err database
unfolding accept_invitation find_by_token granted_permissions check_invitation record_acceptance
    settle insert_member insert_invitation query statement transaction execute
    missing_server_permissions missing_server_permissions_from has_server_permission has_permission
    server_member_role_permissions grant_map write_all lookup insert equal_fold trim_space
eve_loses = refl

accept_invitation_all_or_nothing_example :
    (accept_invitation plain_unicode "t0" 4 "eve@x" torn).1.db ≡ sample
accept_invitation_all_or_nothing_example =
    accept_invitation_all_or_nothing plain_unicode "t0" 4 "eve@x" torn database eve_loses

accept_invitation_escalates_nothing_example :
    (inv : ServerInvitation) × (inviter : User) × (row : ServerMember) × (perms : BoolMap) × (find
        (has_token "t0")
        sample.server_invitations
      ≡ some inv)
    × (inviter_in sample inv ≡ some inviter)
    × (member_permissions inv.server_id 4 (accept_invitation plain_unicode "t0" 4 "eve@x" calm).1.db
        ≡ some row)
    × (row.role ≡ inv.role)
    × (row.permissions ≡ object perms)
    × ((key : String) → is_held sample inv inviter perms key ≡ true)
accept_invitation_escalates_nothing_example =
    accept_invitation_escalates_nothing plain_unicode "t0" 4 "eve@x" calm calm-IsSteady eve_accepts

accepted_once_example :
    (accept_invitation plain_unicode "t0" 3 "eve@x" (
      run_all plain_unicode
        (decline "t0" ∷ [])
        (accept_invitation plain_unicode "t0" 4 "eve@x" calm).1)).0
    ≢ ok tt
accepted_once_example =
    accepted_once plain_unicode "t0" 4 "eve@x" calm (decline "t0" ∷ []) 3 "eve@x" eve_accepts

abbrev closed : World
closed = record calm {
  db = record sample { server_invitations = set_status revoked invitation ∷ [] };
}

abbrev bob_request : CreateInvitationRequest
bob_request = record { invitee_email = " bob@x "; role = " viewer" }

abbrev for_bob : ServerInvitation
for_bob = record {
  id = 51;
  server_id = 10;
  inviter_id = 2;
  invitee_email = "bob@x";
  token = "t1";
  role = "viewer";
  permissions = grant_map ("server.view" ∷ []);
  status = pending;
  created_at = 1000;
  expires_at = 1000 + seven_days;
}

for_bob_created :
    (create_invitation plain_unicode (some "t1") 51 10 alice bob_request calm).0 ≡ ok for_bob
unfolding create_invitation requested_role to_lower_string trim_space insert_invitation query
    statement missing_server_permissions missing_server_permissions_from has_server_permission
    has_permission server_member_role_permissions grant_map write_all lookup insert
for_bob_created = refl

create_invitation_covered_example :
    ((create_invitation plain_unicode (some "t1") 51 10 alice bob_request calm).1.db
      ≡ record sample { server_invitations = sample.server_invitations ++ for_bob ∷ [] })
    × (for_bob.status ≡ pending)
    × (for_bob.role ≡ requested_role plain_unicode " viewer")
    × (for_bob.server_id ≡ 10)
    × (for_bob.expires_at ≡ 1000 + seven_days)
    × ((key : String) → exceeds sample alice 10 for_bob.role key ≡ false)
create_invitation_covered_example =
    create_invitation_covered plain_unicode (some "t1") 51 10 alice bob_request calm for_bob
      calm-IsSteady for_bob_created
