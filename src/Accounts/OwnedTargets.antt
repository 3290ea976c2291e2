-- ===== src/Accounts/OwnedTargets.antt =====
-- The changes of a target keep an active owner.
use talepanel.Base.{
  String, Bool, true, false, not, ◌&&◌, str_eq, ◌≡◌, refl, sym, ap, subst, ◌∙◌, inl, inr, arith,
  Bool-cases, any,
}
use talepanel.Store.Tables.{Uuid, User, Tables}
use talepanel.Store.Exec.{ok, World, execute, statement, owner_protected}
use talepanel.Store.Preserve.{Preserves, Preserves-raise, Preserves-if}
use talepanel.Roles.Weight.{role_owner}
use talepanel.Accounts.Totp.{update_user}
use talepanel.Accounts.Admin.{
  is_active_owner, write_role, removes_by_role, set_role, update_user_role, removes_by_state,
  set_active, set_user_active, removes_always, remove_user, delete_user_row, delete_account,
  delete_user,
}
use talepanel.Accounts.Owners.{
  IsOwned, unique_ids, unique_ids-update, unique_ids-select, other_owner-update, other_owner-select,
  owner_made-update, idle_others,
}
use talepanel.Accounts.Targets.{IsChecked, Preserves-admin_target_change}

-- A change of one row by a function that keeps its key.
kept-update :
    (target_id : Uuid) (f : User → User) (removes : String → Bool → Bool) (caller_role : String)
    (target : User) (db : Tables)
    → ((u : User) → (f u).id ≡ u.id)
    → (removes target.role target.is_active ≡ false
        → is_active_owner target ≡ true
        → is_active_owner (f target) ≡ true)
    → IsOwned db
    → IsChecked caller_role target_id removes db target
    → IsOwned (update_user target_id f db)
kept-update target_id f removes caller_role target db keeps stays owned checked = record {
  unique = unique_ids-update target_id f db.users keeps owned.unique;
  owner = elim (Bool-cases (removes target.role target.is_active)) [
    | inl gone ↦ other_owner-update target_id f db.users (checked.replaced gone)
    | inr stay ↦ elim (Bool-cases (is_active_owner target)) [
      | inl active ↦ owner_made-update target_id f db.users target checked.found (stays stay active)
      | inr idle ↦
          other_owner-update target_id f db.users
            (idle_others target_id db.users target owned.unique owned.owner checked.found idle)
    ]
  ];
}

pub write_role-effect :
    (target_id : Uuid) (role : String) (v : World)
    → (write_role target_id role v).0 ≡ ok tt
    → (write_role target_id role v).1.db ≡ update_user target_id (set_role role) v.db
unfolding write_role statement
write_role-effect target_id role v h = ground arith

pub execute-effect :
    (f : Tables → Tables) (v : World) → (execute f v).0 ≡ ok tt → (execute f v).1.db ≡ f v.db
unfolding execute statement
execute-effect f v h = ground arith

pub Preserves-update_user_role :
    (caller_role : String) (target_id : Uuid) (role : String)
    → Preserves IsOwned (update_user_role caller_role target_id role)
unfolding update_user_role
Preserves-update_user_role caller_role target_id role =
    Preserves-if (str_eq role role_owner && not (str_eq caller_role role_owner))
      (Preserves-raise owner_protected)
      (Preserves-admin_target_change caller_role target_id (removes_by_role role)
        (write_role target_id role) IsOwned
        λ v target owned checked done.
          subst IsOwned (sym (write_role-effect target_id role v done)) (
            kept-update target_id (set_role role) (removes_by_role role) caller_role target v.db
              (λ u. refl) (λ stay active. ground arith) owned checked))

pub Preserves-set_user_active :
    (caller_role : String) (target_id : Uuid) (active : Bool)
    → Preserves IsOwned (set_user_active caller_role target_id active)
unfolding set_user_active
Preserves-set_user_active caller_role target_id active =
    Preserves-admin_target_change caller_role target_id (removes_by_state active)
      (execute (update_user target_id (set_active active))) IsOwned
      λ v target owned checked done.
        subst IsOwned (sym (execute-effect (update_user target_id (set_active active)) v done)) (
          kept-update target_id (set_active active) (removes_by_state active) caller_role target
            v.db (λ u. refl) (λ stay was_active. ground arith) owned checked)

pub delete_account-users :
    (target_id : Uuid) (v : World)
    → (delete_account target_id v).0 ≡ ok tt
    → (delete_account target_id v).1.db.users ≡ (remove_user target_id v.db).users
unfolding delete_account delete_user_row execute statement
delete_account-users target_id v h = ground arith

kept-remove :
    (target_id : Uuid) (caller_role : String) (target : User) (db db' : Tables)
    → db'.users ≡ (remove_user target_id db).users
    → IsOwned db
    → IsChecked caller_role target_id removes_always db target
    → IsOwned db'
kept-remove target_id caller_role target db db' same owned checked =
    let kept : IsOwned (remove_user target_id db) = record {
      unique = unique_ids-select target_id db.users owned.unique;
      owner = elim (Bool-cases (is_active_owner target)) [
        | inl active ↦ other_owner-select target_id db.users (checked.replaced active)
        | inr idle ↦
            other_owner-select target_id db.users
              (idle_others target_id db.users target owned.unique owned.owner checked.found idle)
      ];
    } in
    record {
      unique = ap unique_ids same ∙ kept.unique;
      owner = ap (any is_active_owner) same ∙ kept.owner;
    }

pub Preserves-delete_user :
    (caller_role : String) (target_id : Uuid)
    → Preserves IsOwned (delete_user caller_role target_id)
unfolding delete_user
Preserves-delete_user caller_role target_id =
    Preserves-admin_target_change caller_role target_id removes_always (delete_account target_id)
      IsOwned
      λ v target owned checked done.
        kept-remove target_id caller_role target v.db (delete_account target_id v).1.db
          (delete_account-users target_id v done) owned checked
