-- ===== src/Permissions/Guard.antt =====
-- middleware/require_permission.go, and RequireRole of middleware/auth.go: what a guard lets through.
use talepanel.Base.{ℕ, String, Bool, true, false, Option, none, some, str_eq, ltb, if◌then◌else◌}
use talepanel.Store.Tables.{Uuid, User}
use talepanel.Store.Exec.{Result, ok, err, World}
use talepanel.Roles.Weight.{role_weight}
use talepanel.Permissions.Service.{has_permission, has_server_permission}

-- `c.Next()`, or an abort with a status.
pub data Outcome : Type 0 where
  next : Outcome
  abort : ℕ → Outcome

-- The two tests behind a permission check.
abbrev pub outcome_of : Result Bool → Outcome
outcome_of (ok true) = next
outcome_of (ok false) = abort 403
outcome_of (err e) = abort 500

-- `ctx_user` is the user that AuthRequired stored in the context.
unfoldable pub require_permission : String → Option User → World → Outcome × World
require_permission perm none w = (abort 401, w)
require_permission perm (some user) w =
    let (r, w') = has_permission user perm w in (outcome_of r, w')

-- `parse` is uuid.Parse of github.com/google/uuid; `param` is the path's `:id`.
unfoldable pub require_server_permission :
    (String → Option Uuid) → String → Option User → String → World → Outcome × World
require_server_permission parse perm none param w = (abort 401, w)
require_server_permission parse perm (some user) param w =
    if str_eq param "" then (abort 400, w) else elim (parse param) [
      | none ↦ (abort 400, w)
      | some server_id ↦
          let (r, w') = has_server_permission user server_id perm w in (outcome_of r, w')
    ]

unfoldable pub require_role : String → Option User → Outcome
require_role min_role none = abort 401
require_role min_role (some user) =
    if ltb (role_weight user.role) (role_weight min_role) then abort 403 else next
