-- ===== src/Permissions/Tests.antt =====
-- The permission checks on a small database.
use talepanel.Base.{String, ◌≡◌, ◌≢◌, refl, true, some, none, lookup, str_eq, Option, if◌then◌else◌}
use talepanel.Store.Tables.{Uuid}
use talepanel.Store.Exec.{ok}
use talepanel.Store.Sample.{bob, eve, sample, calm, calm-IsSteady, lossy}
use talepanel.Permissions.Keys.{moderator_grants, grant_map, server_member_role_permissions}
use talepanel.Permissions.Service.{set_user_permission, delete_user_permission}
use talepanel.Permissions.Rule.{may_on_server}
use talepanel.Permissions.Guard.{next, abort, require_server_permission}
use talepanel.Permissions.Access.{
  require_server_permission-eq-rule, require_server_permission_isolated, rule_outcome,
}

abbrev parse : String → Option Uuid
parse text = if str_eq text "ten" then some 10 else none

require_server_permission-eq-rule_example :
    (require_server_permission parse "server.stop" (some bob) "ten" calm).0
    ≡ rule_outcome sample bob "server.stop" (some 10)
require_server_permission-eq-rule_example =
    require_server_permission-eq-rule parse "server.stop" "ten" bob calm calm-IsSteady

stop_denied : rule_outcome sample bob "server.stop" (some 10) ≡ abort 403
unfolding may_on_server lookup
stop_denied = refl

view_allowed : rule_outcome sample bob "server.view" (some 10) ≡ next
unfolding may_on_server lookup
view_allowed = refl

require_server_permission_isolated_example :
    (require_server_permission parse "server.view" (some eve) "ten" lossy).0 ≢ next
require_server_permission_isolated_example =
    require_server_permission_isolated parse "server.view" "ten" eve lossy 10 refl refl refl

moderator_known : server_member_role_permissions "moderator" ≡ ok (grant_map moderator_grants)
unfolding server_member_role_permissions
moderator_known = refl

set_done : (set_user_permission 4 "server.start" true calm).0 ≡ ok tt
unfolding set_user_permission
set_done = refl

delete_done : (delete_user_permission 3 "server.start" calm).0 ≡ ok tt
unfolding delete_user_permission
delete_done = refl
