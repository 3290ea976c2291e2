-- ===== src/Permissions/Service.antt =====
-- PermissionService over the database.
use talepanel.Base.{
  String, Bool, true, false, ◌&&◌, ◌||◌, Option, none, some, List, [], ◌∷◌, BoolMap, lookup, at_key,
  str_eq, ◌==◌, ltb, any, find, count_where, update_where, if◌then◌else◌,
}
use talepanel.Store.Tables.{
  Uuid, User, UserPermission, RolePermission, ServerRow, ServerMember, PermissionsColumn, null,
  malformed, object, Tables,
}
use talepanel.Store.Exec.{
  Result, ok, err, database, member_not_found, Exec, pure, raise, ◌>>=◌, ◌>>◌, gets, statement,
  query, execute, attempt, write,
}
use talepanel.Permissions.Keys.{server_scoped_permissions}
use talepanel.Roles.Weight.{role_owner, role_admin}

-- SELECT granted FROM user_permissions WHERE user_id = $1 AND perm_key = $2
unfoldable pub user_override : Uuid → String → List UserPermission → Option Bool
user_override user_id perm [] = none
user_override user_id perm (row ∷ rows) =
    if row.user_id == user_id && str_eq row.perm_key perm
    then some row.granted
    else user_override user_id perm rows

-- `err == nil && granted != nil`
abbrev pub override_found : Result (Option Bool) → Option Bool
override_found (ok found) = found
override_found (err e) = none

-- SELECT COUNT(*) FROM role_permissions WHERE role = $1 AND perm_key = $2, and `count > 0`
abbrev pub role_grants : String → String → Tables → Bool
role_grants role perm db = ltb 0 (
    count_where (λ (row : RolePermission). str_eq row.role role && str_eq row.perm_key perm)
      db.role_permissions)

abbrev role_default : User → String → Option Bool → Exec Bool
role_default user perm (some granted) = pure granted
role_default user perm none = query (role_grants user.role perm)

unfoldable pub has_permission : User → String → Exec Bool
unfolding attempt query
has_permission user perm = if str_eq user.role role_owner then pure true else (do
  found ← attempt (query (λ db. user_override user.id perm db.user_permissions))
  role_default user perm (override_found found))

-- EXISTS(SELECT 1 FROM servers WHERE id = $1 AND owner_id = $2)
abbrev pub owns_server : Uuid → Uuid → Tables → Bool
owns_server server_id user_id db =
    any (λ (row : ServerRow). row.id == server_id && row.owner_id == user_id) db.servers

abbrev pub is_member_row : Uuid → Uuid → ServerMember → Bool
is_member_row server_id user_id row = row.server_id == server_id && row.user_id == user_id

-- SELECT permissions FROM server_members WHERE server_id = $1 AND user_id = $2
abbrev pub member_permissions : Uuid → Uuid → Tables → Option ServerMember
member_permissions server_id user_id db = find (is_member_row server_id user_id) db.server_members

-- `len(permJSON) > 2`, the decoding, and `perms[perm]`: NULL, `{}` and what does not decode hold no
-- override.
abbrev pub column_override : PermissionsColumn → String → Option Bool
column_override null perm = none
column_override malformed perm = none
column_override (object perms) perm = lookup perm perms

abbrev member_answer : User → String → Option Bool → Exec Bool
member_answer user perm (some granted) = pure granted
member_answer user perm none = has_permission user perm

abbrev membership_answer : User → String → Option ServerMember → Exec Bool
membership_answer user perm none = pure false
membership_answer user perm (some row) =
    member_answer user perm (column_override row.permissions perm)

unfoldable pub has_server_permission : User → Uuid → String → Exec Bool
unfolding has_permission query
has_server_permission user server_id perm =
    if str_eq user.role role_owner || str_eq user.role role_admin then pure true else (do
      is_owner ← query (owns_server server_id user.id)
      if is_owner then pure true else (do
        row ← query (member_permissions server_id user.id)
        membership_answer user perm row))

-- INSERT INTO user_permissions … ON CONFLICT (user_id, perm_key) DO UPDATE SET granted
unfoldable pub upsert_permission : Uuid → String → Bool → List UserPermission → List UserPermission
upsert_permission user_id perm granted [] =
    record { user_id = user_id; perm_key = perm; granted = granted } ∷ []
upsert_permission user_id perm granted (row ∷ rows) =
    if row.user_id == user_id && str_eq row.perm_key perm
    then record row { granted = granted } ∷ rows
    else row ∷ upsert_permission user_id perm granted rows

-- The foreign keys of user_permissions.
abbrev pub known_user : Uuid → Tables → Bool
known_user user_id db = any (λ (u : User). u.id == user_id) db.users

abbrev pub known_permission : String → Tables → Bool
known_permission perm db = any (str_eq perm) db.permissions

abbrev pub granted_row : Uuid → String → Bool → Tables → Tables
granted_row user_id perm granted db = record db {
  user_permissions = upsert_permission user_id perm granted db.user_permissions;
}

unfoldable pub set_user_permission : Uuid → String → Bool → Exec Unit
unfolding statement
set_user_permission user_id perm granted = do
  statement
  valid ← gets (λ w. known_user user_id w.db && known_permission perm w.db)
  if valid then write (granted_row user_id perm granted) else raise database

unfoldable pub remove_permission : Uuid → String → List UserPermission → List UserPermission
remove_permission user_id perm [] = []
remove_permission user_id perm (row ∷ rows) =
    if row.user_id == user_id && str_eq row.perm_key perm
    then remove_permission user_id perm rows
    else row ∷ remove_permission user_id perm rows

unfoldable pub delete_user_permission : Uuid → String → Exec Unit
unfolding execute
delete_user_permission user_id perm =
    execute
      λ db. record db { user_permissions = remove_permission user_id perm db.user_permissions }

abbrev with_permissions : BoolMap → ServerMember → ServerMember
with_permissions perms row = record row { permissions = object perms }

unfoldable pub set_server_member_permissions : Uuid → Uuid → BoolMap → Exec Unit
unfolding execute statement
set_server_member_permissions server_id user_id perms = do
  affected ← gets (λ w. count_where (is_member_row server_id user_id) w.db.server_members)
  execute λ db. record db {
    server_members =
        update_where (is_member_row server_id user_id) (with_permissions perms) db.server_members;
  }
  if affected == 0 then raise member_not_found else pure tt

-- One round of the loop: the key is missing when the map grants it and the user does not hold it.
unfoldable pub missing_server_permissions_from :
    List String → User → Uuid → BoolMap → Exec (List String)
missing_server_permissions_from [] user server_id perms = pure []
missing_server_permissions_from (key ∷ keys) user server_id perms =
    let rest = missing_server_permissions_from keys user server_id perms in
    if at_key perms key
    then (do
      held ← has_server_permission user server_id key
      missing ← rest
      pure (if held then missing else key ∷ missing))
    else rest

unfoldable pub missing_server_permissions : User → Uuid → BoolMap → Exec (List String)
missing_server_permissions user server_id perms =
    missing_server_permissions_from server_scoped_permissions user server_id perms
