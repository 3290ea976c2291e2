-- ===== src/Accounts/Targets.antt =====
-- What adminTargetChange went through when it succeeds, and the account operations that keep an
-- active owner because of it.
use talepanel.Base.{
  ◌+◌, String, Bool, true, false, some, str_eq, find, ◌≡◌, ◌≢◌, refl, sym, ap, subst, ◌∙◌, ◌⊎◌, inl,
  inr, arith, Option-cases,
}
use talepanel.Store.Tables.{Uuid, User, Tables}
use talepanel.Store.Exec.{Err, Result, ok, err, World, Exec, ◌>>◌, query, statement}
use talepanel.Store.Laws.{IsAtomic-transaction, transaction-inv, bind-inv}
use talepanel.Store.Preserve.{Preserves}
use talepanel.Roles.Weight.{role_owner}
use talepanel.Accounts.Tokens.{has_user_id}
use talepanel.Accounts.Admin.{
  other_owners, check_owners, check_target, change_target, admin_target_change,
}

pub Result-cases : {A : Type 0} (r : Result A) → ((a : A) × (r ≡ ok a)) ⊎ ((e : Err) × (r ≡ err e))
Result-cases (ok a) = inl (a, refl)
Result-cases (err e) = inr (e, refl)

-- What the checks of a target have shown.
pub record IsChecked (caller_role : String) (target_id : Uuid) (removes : String → Bool → Bool)
    (db : Tables) (target : User) : Type 0 where
  pub found : find (has_user_id target_id) db.users ≡ some target
  pub allowed : str_eq target.role role_owner ≡ true → str_eq caller_role role_owner ≡ true
  pub replaced : removes target.role target.is_active ≡ true → other_owners target_id db ≢ 0

module _ (caller_role : String) (target_id : Uuid) (removes : String → Bool → Bool) where
  check_target-inv :
      (target : User) (w : World)
      → (check_target caller_role target_id removes target w).0 ≡ ok tt
      → (str_eq target.role role_owner ≡ true → str_eq caller_role role_owner ≡ true)
        × (removes target.role target.is_active ≡ true → other_owners target_id w.db ≢ 0)
        × ((check_target caller_role target_id removes target w).1.db ≡ w.db)
  unfolding check_target check_owners query statement
  check_target-inv target w h = (ground arith, λ r z. ground arith, ground arith)

  module _ (change : Exec Unit) where
    change_target-inv :
        (w : World)
        → (change_target caller_role target_id removes change w).0 ≡ ok tt
        → (target : User) × (v : World) × (v.db ≡ w.db)
          × (IsChecked caller_role target_id removes w.db target)
          × ((change v).0 ≡ ok tt)
          × ((change_target caller_role target_id removes change w).1 ≡ (change v).1)
    unfolding change_target query statement
    change_target-inv w h = elim (Option-cases (find (has_user_id target_id) w.db.users)) [
      | inl absent ↦ absurd (ground (arith, absent))
      | inr (target, e) ↦
          let v = record w { calls = w.calls + 1 + 1 } in
          let sent : (w.faults w.calls ≡ false) × (w.faults (w.calls + 1) ≡ false) =
            (ground arith, ground arith) in
          let same : change_target caller_role target_id removes change w
              ≡ ((check_target caller_role target_id removes target >> change) v) =
            ground (arith, e, sent.0, sent.1) in
          let (_, checked, changed, behind) =
            bind-inv (check_target caller_role target_id removes target) (λ _. change) v
              (ap (λ (p : Result (Unit {0}) × World). p.0) (sym same) ∙ h) in
          let (allowed, replaced, kept) = check_target-inv target v checked in
          (
            target,
            (check_target caller_role target_id removes target v).1,
            kept,
            record { found = e; allowed = allowed; replaced = replaced },
            changed,
            ap (λ (p : Result (Unit {0}) × World). p.1) same ∙ behind,
          )
    ]

    -- A change of a target that succeeds was checked, and has the effect of its change.
    pub admin_target_change-inv :
        (w : World)
        → (admin_target_change caller_role target_id removes change w).0 ≡ ok tt
        → (target : User) × (v : World) × (v.db ≡ w.db)
          × (IsChecked caller_role target_id removes w.db target)
          × ((change v).0 ≡ ok tt)
          × ((admin_target_change caller_role target_id removes change w).1.db ≡ (change v).1.db)
    unfolding admin_target_change
    admin_target_change-inv w h =
        let (u, read, done, effect) =
          transaction-inv (change_target caller_role target_id removes change) w h in
        let (target, v, same, checked, changed, behind) = change_target-inv u done in
        (
          target,
          v,
          same ∙ read.db,
          subst (λ (db : Tables). IsChecked caller_role target_id removes db target) read.db
              checked,
          changed,
          effect ∙ ap (λ (x : World). x.db) behind,
        )

    -- It keeps whatever its change keeps on a target that was checked.
    pub Preserves-admin_target_change :
        (P : Tables → Type 0)
        → ((v : World) (target : User)
            → P v.db
            → IsChecked caller_role target_id removes v.db target
            → (change v).0 ≡ ok tt
            → P (change v).1.db)
        → Preserves P (admin_target_change caller_role target_id removes change)
    unfolding admin_target_change
    Preserves-admin_target_change P k = record {
      at = λ w h.
          elim (Result-cases (admin_target_change caller_role target_id removes change w).0) [
            | inl (_, done) ↦
                let (target, v, same, checked, changed, effect) = admin_target_change-inv w done in
                subst P (sym effect) (
                  k v target (subst P (sym same) h)
                    (subst (λ (db : Tables). IsChecked caller_role target_id removes db target)
                      (sym same) checked)
                    changed)
            | inr (e, failed) ↦
                subst P
                  (sym (
                    (IsAtomic-transaction (change_target caller_role target_id removes change)).at w
                      e failed))
                  h
          ];
    }

    -- It keeps whatever its change keeps of any target.
    pub Preserves-any_target :
        {P : Tables → Type 0}
        → Preserves P change
        → Preserves P (admin_target_change caller_role target_id removes change)
    Preserves-any_target {P = P} kept =
        Preserves-admin_target_change P λ v target h checked done. kept.at v h
