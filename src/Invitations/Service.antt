-- ===== src/Invitations/Service.antt =====
-- InvitationService over the database. The parameters are the Unicode tables; the bytes of
-- crypto/rand come as arguments, `none` where the reader fails.
use talepanel.Base.{
  ℕ, String, Bool, true, false, ◌&&◌, ◌+◌, ◌*◌, Option, none, some, List, [], ◌∷◌, ◌++◌, BoolMap,
  at_key, str_eq, ◌==◌, ltb, any, find, count_where, update_where, if◌then◌else◌, Unicode,
  trim_space, to_lower_string, equal_fold,
}
use talepanel.Store.Tables.{
  Uuid, Time, minute, User, ServerRow, ServerMember, object, Tables, ServerInvitation,
  InvitationStatus, pending, accepted, declined, expired, revoked,
}
use talepanel.Store.Exec.{
  Err, Result, ok, err, database, invitation_not_found, invitation_expired, invitation_used,
  invitation_forbidden, invitation_exceeds_inviter, Exec, pure, raise, lift, ◌>>=◌, ◌>>◌, gets,
  statement, query, execute, write, transaction, found_or, drawn,
}
use talepanel.Permissions.Keys.{server_member_role_permissions, write_all}
use talepanel.Permissions.Service.{missing_server_permissions, is_member_row, known_user}

pub record CreateInvitationRequest : Type 0 where
  pub invitee_email : String
  pub role : String

abbrev pub is_pending : InvitationStatus → Bool
is_pending pending = true
is_pending accepted = false
is_pending declined = false
is_pending expired = false
is_pending revoked = false

abbrev pub known_server : Uuid → Tables → Bool
known_server server_id db = any (λ (row : ServerRow). row.id == server_id) db.servers

-- The foreign keys and the unique token of server_invitations.
abbrev pub accepts_invitation : ServerInvitation → Tables → Bool
accepts_invitation inv db =
    known_server inv.server_id db
    && known_user inv.inviter_id db
    && (if any (λ (row : ServerInvitation). str_eq row.token inv.token) db.server_invitations
        then false
        else true)

abbrev pub add_invitation : ServerInvitation → Tables → Tables
add_invitation inv db = record db { server_invitations = db.server_invitations ++ inv ∷ [] }

unfoldable pub insert_invitation : ServerInvitation → Exec ServerInvitation
unfolding statement
insert_invitation inv = do
  statement
  valid ← gets (λ w. accepts_invitation inv w.db)
  if valid then (do write (add_invitation inv); pure inv) else raise database

abbrev pub role_or_viewer : String → String
role_or_viewer role = if str_eq role "" then "viewer" else role

abbrev pub seven_days : Time
seven_days = 7 * 24 * 60 * minute

-- `len(missing) > 0` ends the request.
abbrev pub allowed_to_grant : List String → Exec Unit
allowed_to_grant [] = pure tt
allowed_to_grant (key ∷ keys) = raise invitation_exceeds_inviter

module _ (unicode : Unicode) where
  -- The role that a request names.
  unfoldable pub requested_role : String → String
  requested_role role = role_or_viewer (to_lower_string unicode (trim_space role))

  unfoldable pub create_invitation :
      Option String → Uuid → Uuid → User → CreateInvitationRequest → Exec ServerInvitation
  create_invitation random id server_id inviter req = do
    perms ← lift (server_member_role_permissions (requested_role req.role))
    missing ← missing_server_permissions inviter server_id perms
    allowed_to_grant missing
    token ← drawn random
    created ← gets (λ w. w.db_now)
    insert_invitation (record {
      id = id;
      server_id = server_id;
      inviter_id = inviter.id;
      invitee_email = trim_space req.invitee_email;
      token = token;
      role = requested_role req.role;
      permissions = perms;
      status = pending;
      created_at = created;
      expires_at = created + seven_days;
    })

abbrev pub has_token : String → ServerInvitation → Bool
has_token token row = str_eq row.token token

unfoldable pub find_by_token : String → Exec ServerInvitation
unfolding query
find_by_token token = do
  row ← query (λ db. find (has_token token) db.server_invitations)
  found_or invitation_not_found row

-- `perms[key] = rolePerms[key] && inv.Permissions[key]` for every key of the role's map.
unfoldable pub narrow : BoolMap → BoolMap → BoolMap
narrow [] stored = []
narrow ((key, granted) ∷ perms) stored = (key, granted && at_key stored key) ∷ narrow perms stored

-- A stored map narrows the role's; an invitation without one has the role's.
abbrev pub capped : BoolMap → BoolMap → BoolMap
capped role_perms [] = role_perms
capped role_perms (entry ∷ stored) = narrow role_perms (entry ∷ stored)

abbrev pub role_of : Uuid → Tables → Option String
role_of user_id db = elim (find (λ (u : User). u.id == user_id) db.users) [
  | none ↦ none
  | some u ↦ some u.role
]

-- `&models.User{ID: inv.InviterID, Role: inviterRole}`
abbrev pub bare_user : Uuid → String → User
bare_user id role = record {
  id = id;
  email = "";
  username = "";
  password_hash = "";
  role = role;
  totp_secret = "";
  totp_enabled = false;
  created_at = 0;
  last_login_at = none;
  is_active = false;
}

unfoldable pub granted_permissions : ServerInvitation → Exec BoolMap
unfolding query
granted_permissions inv = do
  role_perms ← lift (server_member_role_permissions inv.role)
  found ← query (role_of inv.inviter_id)
  inviter_role ← found_or database found
  missing ←
      missing_server_permissions (bare_user inv.inviter_id inviter_role) inv.server_id
        (capped role_perms inv.permissions)
  pure (write_all false missing (capped role_perms inv.permissions))

abbrev pub set_status : InvitationStatus → ServerInvitation → ServerInvitation
set_status status row = record row { status = status }

-- UPDATE server_invitations SET status = … WHERE … AND status = 'pending', and the rows affected.
unfoldable pub settle : (ServerInvitation → Bool) → InvitationStatus → Exec ℕ
unfolding execute statement
settle picks status = do
  affected ←
      gets (λ w. count_where (λ row. picks row && is_pending row.status) w.db.server_invitations)
  execute λ db. record db {
    server_invitations =
        update_where (λ row. picks row && is_pending row.status) (set_status status)
          db.server_invitations;
  }
  pure affected

abbrev pub settled_or : Err → ℕ → Exec Unit
settled_or e affected = if affected == 0 then raise e else pure tt

-- INSERT INTO server_members … ON CONFLICT (server_id, user_id) DO UPDATE
unfoldable pub upsert_member : ServerMember → List ServerMember → List ServerMember
upsert_member member [] = member ∷ []
upsert_member member (row ∷ rows) =
    if is_member_row member.server_id member.user_id row
    then record row { role = member.role; permissions = member.permissions } ∷ rows
    else row ∷ upsert_member member rows

abbrev pub add_member : ServerMember → Tables → Tables
add_member member db = record db { server_members = upsert_member member db.server_members }

unfoldable pub insert_member : ServerMember → Exec Unit
unfolding statement
insert_member member = do
  statement
  valid ← gets (λ w. known_server member.server_id w.db && known_user member.user_id w.db)
  if valid then write (add_member member) else raise database

-- The two statements of the transaction.
unfoldable pub record_acceptance : ServerInvitation → Uuid → BoolMap → Exec Unit
unfolding settle insert_member
record_acceptance inv user_id perms = do
  affected ← settle (λ row. row.id == inv.id) accepted
  settled_or invitation_used affected
  insert_member (record {
    server_id = inv.server_id;
    user_id = user_id;
    role = inv.role;
    permissions = object perms;
  })

module _ (unicode : Unicode) where
  -- The three checks of an acceptance, in their order.
  unfoldable pub check_invitation : String → Time → ServerInvitation → Result (Unit {0})
  check_invitation user_email now inv =
      if equal_fold unicode (trim_space inv.invitee_email) (trim_space user_email)
      then (if is_pending inv.status
          then (if ltb inv.expires_at now then err invitation_expired else ok tt)
          else err invitation_used)
      else err invitation_forbidden

  unfoldable pub accept_invitation : String → Uuid → String → Exec Unit
  accept_invitation token user_id user_email = do
    inv ← find_by_token token
    now ← gets (λ w. w.now)
    lift (check_invitation user_email now inv)
    perms ← granted_permissions inv
    transaction (record_acceptance inv user_id perms)

unfoldable pub decline_invitation : String → Exec Unit
unfolding settle
decline_invitation token = do
  affected ← settle (has_token token) declined
  settled_or invitation_not_found affected

unfoldable pub revoke_invitation : Uuid → Uuid → Exec Unit
unfolding settle
revoke_invitation server_id invitation_id = do
  affected ← settle (λ row. row.id == invitation_id && row.server_id == server_id) revoked
  settled_or invitation_not_found affected
