-- ===== src/Accounts/Protected.antt =====
-- Only owners touch owners: a caller with another role changes, disables, deletes and makes none.
use talepanel.Base.{
  String, Bool, true, false, not, ◌&&◌, some, List, [], ◌∷◌, any, find, select, update_where,
  str_eq, ◌≡◌, refl, sym, ap, subst, ◌∙◌, arith, Bool-cases, inl, inr,
}
use talepanel.Store.Tables.{Uuid, User, Tables}
use talepanel.Store.Exec.{World, Exec, execute, owner_protected}
use talepanel.Store.Preserve.{Preserves, Preserves-raise, Preserves-test}
use talepanel.Roles.Weight.{role_owner}
use talepanel.Accounts.Tokens.{has_user_id}
use talepanel.Accounts.Totp.{update_user}
use talepanel.Accounts.Admin.{
  is_owner, write_role, removes_by_role, set_role, update_user_role, removes_by_state, set_active,
  set_user_active, removes_always, delete_account, delete_user,
}
use talepanel.Accounts.Owners.{unique_ids, unique_ids-update, unique_ids-select}
use talepanel.Accounts.Targets.{IsChecked, Preserves-admin_target_change}
use talepanel.Accounts.OwnedTargets.{write_role-effect, execute-effect, delete_account-users}

-- The owners, with all their columns, are these.
pub record HasOwners (owners : List User) (db : Tables) : Type 0 where
  pub unique : unique_ids db.users ≡ true
  pub owners_are : select is_owner db.users ≡ owners

absent-update :
    (id : Uuid) (f : User → User) (us : List User)
    → any (has_user_id id) us ≡ false
    → update_where (has_user_id id) f us ≡ us
absent-update id f [] h = refl
absent-update id f (u ∷ us) h = ground (arith, absent-update id f us)

absent-select :
    (id : Uuid) (us : List User)
    → any (has_user_id id) us ≡ false
    → select (λ u. not (has_user_id id u)) us ≡ us
absent-select id [] h = refl
absent-select id (u ∷ us) h = ground (arith, absent-select id us)

owners-update :
    (id : Uuid) (f : User → User) (us : List User) (t : User)
    → unique_ids us ≡ true
    → find (has_user_id id) us ≡ some t
    → is_owner t ≡ false
    → is_owner (f t) ≡ false
    → select is_owner (update_where (has_user_id id) f us) ≡ select is_owner us
owners-update id f [] t unique found was is = refl
owners-update id f (u ∷ us) t unique found was is =
    ground (arith, absent-update id f us, absent-update u.id f us, owners-update id f us t)

owners-select :
    (id : Uuid) (us : List User) (t : User)
    → unique_ids us ≡ true
    → find (has_user_id id) us ≡ some t
    → is_owner t ≡ false
    → select is_owner (select (λ u. not (has_user_id id u)) us) ≡ select is_owner us
owners-select id [] t unique found was = refl
owners-select id (u ∷ us) t unique found was =
    ground (arith, absent-select id us, absent-select u.id us, owners-select id us t)

module _ (owners : List User) (caller_role : String)
    (lesser : str_eq caller_role role_owner ≡ false) where
  no_owner :
      (target_id : Uuid) (removes : String → Bool → Bool) (db : Tables) (target : User)
      → IsChecked caller_role target_id removes db target
      → is_owner target ≡ false
  no_owner target_id removes db target checked = elim (Bool-cases (is_owner target)) [
    | inl owner ↦ absurd (ground (arith, lesser, checked.allowed owner))
    | inr other ↦ other
  ]

  kept-update :
      (target_id : Uuid) (f : User → User) (removes : String → Bool → Bool) (db : Tables)
      (target : User)
      → ((u : User) → (f u).id ≡ u.id)
      → (is_owner target ≡ false → is_owner (f target) ≡ false)
      → HasOwners owners db
      → IsChecked caller_role target_id removes db target
      → HasOwners owners (update_user target_id f db)
  kept-update target_id f removes db target keeps stays has checked =
      let was = no_owner target_id removes db target checked in
      record {
        unique = unique_ids-update target_id f db.users keeps has.unique;
        owners_are =
            owners-update target_id f db.users target has.unique checked.found was (stays was)
            ∙ has.owners_are;
      }

  pub Preserves-roles :
      (target_id : Uuid) (role : String)
      → Preserves (HasOwners owners) (update_user_role caller_role target_id role)
  unfolding update_user_role
  Preserves-roles target_id role =
      Preserves-test (str_eq role role_owner && not (str_eq caller_role role_owner))
        (λ refused. Preserves-raise owner_protected)
        (λ allowed.
          Preserves-admin_target_change caller_role target_id (removes_by_role role)
            (write_role target_id role) (HasOwners owners)
            λ v target has checked done.
              subst (HasOwners owners) (sym (write_role-effect target_id role v done)) (
                kept-update target_id (set_role role) (removes_by_role role) v.db target (λ u. refl)
                  (λ was. ground (arith, allowed, lesser)) has checked))

  pub Preserves-states :
      (target_id : Uuid) (active : Bool)
      → Preserves (HasOwners owners) (set_user_active caller_role target_id active)
  unfolding set_user_active
  Preserves-states target_id active =
      Preserves-admin_target_change caller_role target_id (removes_by_state active)
        (execute (update_user target_id (set_active active))) (HasOwners owners)
        λ v target has checked done.
          subst (HasOwners owners)
            (sym (execute-effect (update_user target_id (set_active active)) v done))
            (kept-update target_id (set_active active) (removes_by_state active) v.db target
              (λ u. refl) (λ was. was) has checked)

  pub Preserves-removals :
      (target_id : Uuid) → Preserves (HasOwners owners) (delete_user caller_role target_id)
  unfolding delete_user
  Preserves-removals target_id =
      Preserves-admin_target_change caller_role target_id removes_always (delete_account target_id)
        (HasOwners owners)
        λ v target has checked done.
          let users = delete_account-users target_id v done in
          record {
            unique = ap unique_ids users ∙ unique_ids-select target_id v.db.users has.unique;
            owners_are =
                ap (select is_owner) users
                ∙ owners-select target_id v.db.users target has.unique checked.found
                    (no_owner target_id removes_always v.db target checked)
                ∙ has.owners_are;
          }

-- What an administrator may do to another account.
pub data TargetChange : Type 0 where
  to_role : String → TargetChange
  to_state : Bool → TargetChange
  to_nothing : TargetChange

unfoldable pub change_account : String → Uuid → TargetChange → Exec Unit
change_account caller_role target_id (to_role role) = update_user_role caller_role target_id role
change_account caller_role target_id (to_state active) =
    set_user_active caller_role target_id active
change_account caller_role target_id to_nothing = delete_user caller_role target_id

-- A caller who is no owner leaves the owners as they were, all columns of them, and adds none,
-- whatever is changed of whichever account.
pub owners_protected :
    (caller_role : String) (target_id : Uuid) (change : TargetChange) (w : World)
    → str_eq caller_role role_owner ≡ false
    → unique_ids w.db.users ≡ true
    → select is_owner (change_account caller_role target_id change w).1.db.users
      ≡ select is_owner w.db.users
unfolding change_account
owners_protected caller_role target_id (to_role role) w lesser unique =
    ((Preserves-roles (select is_owner w.db.users) caller_role lesser target_id role).at w
      (record { unique = unique; owners_are = refl })).owners_are
owners_protected caller_role target_id (to_state active) w lesser unique =
    ((Preserves-states (select is_owner w.db.users) caller_role lesser target_id active).at w
      (record { unique = unique; owners_are = refl })).owners_are
owners_protected caller_role target_id to_nothing w lesser unique =
    ((Preserves-removals (select is_owner w.db.users) caller_role lesser target_id).at w
      (record { unique = unique; owners_are = refl })).owners_are
