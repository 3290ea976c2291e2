-- ===== src/Permissions/Missing.antt =====
-- MissingServerPermissions: the keys of a map that a user may not hand out.
use talepanel.Base.{String, ◌&&◌, not, List, [], ◌∷◌, BoolMap, at_key, ◌≡◌, refl, arith, select}
use talepanel.Store.Tables.{Uuid, User, Tables}
use talepanel.Store.Exec.{ok, World, IsSteady, Reads, Reads-IsSteady}
use talepanel.Permissions.Keys.{server_scoped_permissions}
use talepanel.Permissions.Service.{
  has_server_permission, missing_server_permissions_from, missing_server_permissions,
}
use talepanel.Permissions.Rule.{may_on_server}
use talepanel.Permissions.Decide.{
  has_server_permission-eq-may_on_server, has_server_permission-Reads,
}

-- The granted keys that the access rule denies the user, in their order.
abbrev pub denied_keys : Tables → User → Uuid → BoolMap → List String → List String
denied_keys db user server_id perms =
    select (λ key. at_key perms key && not (may_on_server db user server_id key))

module _ (user : User) (server_id : Uuid) (perms : BoolMap) where
  missing_from-Reads :
      (keys : List String) (w : World)
      → Reads w (missing_server_permissions_from keys user server_id perms w).1
  unfolding missing_server_permissions_from
  missing_from-Reads [] w = record { db = refl; faults = refl; now = refl; db_now = refl }
  missing_from-Reads (key ∷ keys) w = ground (
    arith,
    has_server_permission-Reads user w server_id key,
    missing_from-Reads keys w,
    missing_from-Reads keys (has_server_permission user server_id key w).1,
  )

  missing_from-eq :
      (keys : List String) (w : World)
      → IsSteady w
      → (missing_server_permissions_from keys user server_id perms w).0
        ≡ ok (denied_keys w.db user server_id perms keys)
  unfolding missing_server_permissions_from
  missing_from-eq [] w steady = refl
  missing_from-eq (key ∷ keys) w steady =
      let r = has_server_permission-Reads user w server_id key in
      ground (
        arith,
        has_server_permission-eq-may_on_server user w server_id key steady,
        r,
        missing_from-eq keys w steady,
        missing_from-eq keys (has_server_permission user server_id key w).1
            (Reads-IsSteady r steady),
      )

  pub missing-Reads : (w : World) → Reads w (missing_server_permissions user server_id perms w).1
  unfolding missing_server_permissions
  missing-Reads w = missing_from-Reads server_scoped_permissions w

  -- When no statement fails, what is missing is what the access rule denies.
  pub missing-eq-denied_keys :
      (w : World)
      → IsSteady w
      → (missing_server_permissions user server_id perms w).0
        ≡ ok (denied_keys w.db user server_id perms server_scoped_permissions)
  unfolding missing_server_permissions
  missing-eq-denied_keys w steady = missing_from-eq server_scoped_permissions w steady
