-- ===== src/Permissions/Decide.antt =====
-- What the permission checks answer, with and without failing statements.
use talepanel.Base.{String, true, false, ◌≡◌, ◌≢◌, arith, ◌+◌, str_eq}
use talepanel.Store.Tables.{Uuid, User}
use talepanel.Store.Exec.{ok, World, IsSteady, Reads}
use talepanel.Roles.Weight.{role_owner}
use talepanel.Permissions.Service.{has_permission, has_server_permission, role_grants}
use talepanel.Permissions.Rule.{may, may_on_server, is_cluster_staff, is_tied}

module _ (user : User) (w : World) where
  -- No check writes a table, moves a clock or changes which statements fail.
  pub has_permission-Reads : (perm : String) → Reads w (has_permission user perm w).1
  unfolding has_permission
  has_permission-Reads perm = ground arith

  pub has_server_permission-Reads :
      (server_id : Uuid) (perm : String) → Reads w (has_server_permission user server_id perm w).1
  unfolding has_server_permission
  has_server_permission-Reads server_id perm = ground arith

  -- When no statement fails the answer is the rule's.
  pub has_permission-eq-may :
      (perm : String) → IsSteady w → (has_permission user perm w).0 ≡ ok (may w.db user perm)
  unfolding has_permission may
  has_permission-eq-may perm steady =
      ground (arith, steady.at_call w.calls, steady.at_call (w.calls + 1))

  pub has_server_permission-eq-may_on_server :
      (server_id : Uuid) (perm : String)
      → IsSteady w
      → (has_server_permission user server_id perm w).0
        ≡ ok (may_on_server w.db user server_id perm)
  unfolding has_server_permission may_on_server may
  has_server_permission-eq-may_on_server server_id perm steady = ground (
    arith,
    steady.at_call w.calls,
    steady.at_call (w.calls + 1),
    steady.at_call (w.calls + 1 + 1),
    steady.at_call (w.calls + 1 + 1 + 1),
  )

  -- Tenant isolation: whatever statements fail, a user who is neither staff nor tied to the server
  -- is never let in.
  pub has_server_permission_isolated :
      (server_id : Uuid) (perm : String)
      → is_cluster_staff user ≡ false
      → is_tied w.db user server_id ≡ false
      → (has_server_permission user server_id perm w).0 ≢ ok true
  unfolding has_server_permission
  has_server_permission_isolated server_id perm outsider untied = ground arith

  -- A user override is not looked at when its query fails: the role's default decides.
  pub has_permission_override_skipped :
      (perm : String)
      → str_eq user.role role_owner ≡ false
      → w.faults w.calls ≡ true
      → w.faults (w.calls + 1) ≡ false
      → (has_permission user perm w).0 ≡ ok (role_grants user.role perm w.db)
  unfolding has_permission
  has_permission_override_skipped perm plain lost back = ground arith
