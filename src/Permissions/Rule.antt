-- ===== src/Permissions/Rule.antt =====
-- The access rule, as the tables alone decide it: no statements, no errors.
use talepanel.Base.{String, Bool, ◌||◌, Option, none, some, str_eq, false, is_some}
use talepanel.Store.Tables.{Uuid, User, ServerMember, Tables}
use talepanel.Roles.Weight.{role_owner, role_admin}
use talepanel.Permissions.Service.{
  user_override, role_grants, owns_server, member_permissions, column_override,
}

abbrev pub or_else : Option Bool → Bool → Bool
or_else none b = b
or_else (some a) b = a

-- Global permissions: owners have all; else the user's override; else the role's default.
unfoldable pub may : Tables → User → String → Bool
may db user perm =
    str_eq user.role role_owner
    || or_else (user_override user.id perm db.user_permissions) (role_grants user.role perm db)

abbrev pub member_may : Tables → User → String → Option ServerMember → Bool
member_may db user perm none = false
member_may db user perm (some row) =
    or_else (column_override row.permissions perm) (may db user perm)

abbrev pub is_cluster_staff : User → Bool
is_cluster_staff user = str_eq user.role role_owner || str_eq user.role role_admin

abbrev pub is_tied : Tables → User → Uuid → Bool
is_tied db user server_id =
    owns_server server_id user.id db || is_some (member_permissions server_id user.id db)

-- Per server: staff and the server's owner may do all; a member what the member's override or else
-- the global rule says; nobody else anything.
unfoldable pub may_on_server : Tables → User → Uuid → String → Bool
may_on_server db user server_id perm =
    is_cluster_staff user
    || owns_server server_id user.id db
    || member_may db user perm (member_permissions server_id user.id db)
