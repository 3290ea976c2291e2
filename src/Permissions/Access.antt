-- ===== src/Permissions/Access.antt =====
-- What the permission guards let through to a handler.
use talepanel.Base.{
  String, Bool, true, false, Option, none, some, str_eq, if◌then◌else◌, ◌≡◌, ◌≢◌, arith, ◌≤◌, ◌↔◌,
  Option-cases, inl, inr,
}
use talepanel.Store.Tables.{Uuid, User, Tables}
use talepanel.Store.Exec.{World, IsSteady}
use talepanel.Roles.Weight.{role_weight}
use talepanel.Permissions.Rule.{may_on_server, is_cluster_staff, is_tied}
use talepanel.Permissions.Decide.{
  has_server_permission-eq-may_on_server, has_server_permission_isolated,
}
use talepanel.Permissions.Guard.{Outcome, next, abort, require_server_permission, require_role}

abbrev decided : Bool → Outcome
decided true = next
decided false = abort 403

-- The status that the access rule asks for, given the parsed identifier.
abbrev pub rule_outcome : Tables → User → String → Option Uuid → Outcome
rule_outcome db user perm none = abort 400
rule_outcome db user perm (some server_id) = decided (may_on_server db user server_id perm)

module _ (parse : String → Option Uuid) (perm param : String) (user : User) (w : World) where
  -- When no statement fails, a signed-in request passes exactly when its `:id` is an identifier and
  -- the access rule allows the permission on that server; otherwise it is answered 400 or 403.
  pub require_server_permission-eq-rule :
      IsSteady w
      → (require_server_permission parse perm (some user) param w).0
        ≡ (if str_eq param "" then abort 400 else rule_outcome w.db user perm (parse param))
  unfolding require_server_permission
  require_server_permission-eq-rule steady = elim (Option-cases (parse param)) [
    | inl bad ↦ ground (arith, bad)
    | inr (server_id, parsed) ↦
        ground (arith, parsed, has_server_permission-eq-may_on_server user w server_id perm steady)
  ]

  -- Whatever statements fail, the guard of a server route never lets a request of a user through who
  -- is neither cluster staff nor the owner or a member of the server that `:id` names.
  pub require_server_permission_isolated :
      (server_id : Uuid)
      → parse param ≡ some server_id
      → is_cluster_staff user ≡ false
      → is_tied w.db user server_id ≡ false
      → (require_server_permission parse perm (some user) param w).0 ≢ next
  unfolding require_server_permission
  require_server_permission_isolated server_id parsed outsider untied =
      ground (arith, has_server_permission_isolated user w server_id perm outsider untied)

-- RequireRole passes exactly the roles of at least the required weight.
pub require_role_iff :
    (min_role : String) (user : User)
    → (require_role min_role (some user) ≡ next) ↔ (role_weight min_role ≤ role_weight user.role)
unfolding require_role
require_role_iff min_role user = ground arith
