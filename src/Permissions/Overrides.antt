-- ===== src/Permissions/Overrides.antt =====
-- Setting and deleting a user's override, and what the access rule says afterwards.
use talepanel.Base.{
  String, Bool, true, ◌&&◌, none, some, List, [], ◌∷◌, ◌==◌, ◌≡◌, refl, arith, str_eq, eq_iff,
  if◌then◌else◌,
}
use talepanel.Store.Tables.{Uuid, User, UserPermission}
use talepanel.Store.Exec.{ok, World}
use talepanel.Roles.Weight.{role_owner}
use talepanel.Permissions.Service.{
  user_override, upsert_permission, remove_permission, set_user_permission, delete_user_permission,
  role_grants,
}
use talepanel.Permissions.Rule.{may}

user_override-upsert :
    (u v : Uuid) (p q : String) (g : Bool) (rows : List UserPermission)
    → user_override v q (upsert_permission u p g rows)
      ≡ (if u == v && str_eq p q then some g else user_override v q rows)
unfolding user_override upsert_permission
user_override-upsert u v p q g [] = refl
user_override-upsert u v p q g (row ∷ rows) = ground (
  arith,
  user_override-upsert u v p q g rows,
  eq_iff p q,
  eq_iff row.perm_key p,
  eq_iff row.perm_key q,
)

user_override-remove :
    (u v : Uuid) (p q : String) (rows : List UserPermission)
    → user_override v q (remove_permission u p rows)
      ≡ (if u == v && str_eq p q then none else user_override v q rows)
unfolding user_override remove_permission
user_override-remove u v p q [] = ground arith
user_override-remove u v p q (row ∷ rows) = ground (
  arith,
  user_override-remove u v p q rows,
  eq_iff p q,
  eq_iff row.perm_key p,
  eq_iff row.perm_key q,
)

module _ (user_id : Uuid) (perm : String) (w : World) (user : User) (key : String) where
  -- After a successful SetUserPermission the rule answers what was set for that user and key, owners
  -- excepted, and what it answered before for every other user or key.
  pub may-set_user_permission :
      (granted : Bool)
      → (set_user_permission user_id perm granted w).0 ≡ ok tt
      → may (set_user_permission user_id perm granted w).1.db user key ≡ (
          if str_eq user.role role_owner
          then true
          else (if user_id == user.id && str_eq perm key then granted else may w.db user key))
  unfolding set_user_permission may
  may-set_user_permission granted done =
      ground (arith, user_override-upsert user_id user.id perm key granted w.db.user_permissions)

  -- After a successful DeleteUserPermission the role's default decides for that user and key.
  pub may-delete_user_permission :
      (delete_user_permission user_id perm w).0 ≡ ok tt
      → may (delete_user_permission user_id perm w).1.db user key ≡ (
          if str_eq user.role role_owner
          then true
          else (if user_id == user.id && str_eq perm key
              then role_grants user.role key w.db
              else may w.db user key))
  unfolding delete_user_permission may
  may-delete_user_permission done =
      ground (arith, user_override-remove user_id user.id perm key w.db.user_permissions)
