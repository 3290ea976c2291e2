-- ===== src/Permissions/Keys.antt =====
-- The keys that are checked per server, and what each server member role grants of them.
use talepanel.Base.{
  String, Bool, true, false, List, [], ◌∷◌, BoolMap, insert, str_eq, any, if◌then◌else◌,
}
use talepanel.Store.Exec.{Result, ok, err, invalid_member_role}

abbrev pub server_scoped_permissions : List String
server_scoped_permissions =
    "server.view" ∷ "server.manage" ∷ "server.start" ∷ "server.stop" ∷ "server.console"
    ∷ "server.files" ∷ "server.delete" ∷ "mod.install" ∷ "mod.remove" ∷ "backup.create"
    ∷ "backup.restore" ∷ "player.ban" ∷ "player.whitelist" ∷ "database.view" ∷ "database.reset" ∷ []

abbrev pub viewer_grants : List String
viewer_grants = "server.view" ∷ []

abbrev pub moderator_grants : List String
moderator_grants =
    "server.view" ∷ "server.start" ∷ "server.stop" ∷ "server.console" ∷ "mod.install" ∷ "mod.remove"
    ∷ "backup.create" ∷ "player.ban" ∷ "player.whitelist" ∷ "database.view" ∷ []

abbrev pub admin_grants : List String
admin_grants =
    "server.view" ∷ "server.manage" ∷ "server.start" ∷ "server.stop" ∷ "server.console"
    ∷ "server.files" ∷ "mod.install" ∷ "mod.remove" ∷ "backup.create" ∷ "backup.restore"
    ∷ "player.ban" ∷ "player.whitelist" ∷ "database.view" ∷ "database.reset" ∷ []

-- `serverMemberRoleGrants[role]`
abbrev pub server_member_role_grants : String → Result (List String)
server_member_role_grants role =
    if str_eq role "viewer"
    then ok viewer_grants
    else (if str_eq role "moderator"
        then ok moderator_grants
        else (if str_eq role "admin" then ok admin_grants else err invalid_member_role))

-- `for _, key := range keys { perms[key] = value }`
unfoldable pub write_all : Bool → List String → BoolMap → BoolMap
write_all value [] perms = perms
write_all value (key ∷ keys) perms = write_all value keys (insert key value perms)

-- The map of a known role: every key, true when it is granted.
unfoldable pub grant_map : List String → BoolMap
grant_map grants = write_all true grants (write_all false server_scoped_permissions [])

abbrev pub map_grants : Result (List String) → Result BoolMap
map_grants (ok grants) = ok (grant_map grants)
map_grants (err e) = err e

unfoldable pub server_member_role_permissions : String → Result BoolMap
server_member_role_permissions role = map_grants (server_member_role_grants role)

-- Whether a role grants a key.
abbrev pub grants_key : String → Result (List String) → Bool
grants_key key (ok grants) = any (str_eq key) grants
grants_key key (err e) = false

abbrev pub role_grants_key : String → String → Bool
role_grants_key role key = grants_key key (server_member_role_grants role)
