-- ===== src/Invitations/Grants.antt =====
-- What an accepted invitation grants, measured against what the inviter may do.
use talepanel.Base.{
  String, Bool, true, false, ◌&&◌, not, Option, none, some, List, [], ◌∷◌, BoolMap, lookup, at_key,
  or_false, is_some, any, select, str_eq, eq_iff, ◌≡◌, refl, sym, ap, subst, ◌∙◌, arith, Bool-cases,
  inl, inr,
}
use mathlib.Core.Option
use talepanel.Store.Tables.{Uuid, User, Tables, ServerInvitation}
use talepanel.Store.Exec.{
  Result, ok, World, Exec, lift, query, found_or, ◌>>=◌, pure, Reads-IsSteady, IsSteady, database,
}
use talepanel.Store.Laws.{bind-inv, ReadsOnly-query, found_or-inv, query-inv}
use talepanel.Permissions.Keys.{
  server_scoped_permissions, server_member_role_permissions, write_all, role_grants_key, grants_key,
}
use talepanel.Permissions.Grants.{lookup-write_all, role_permissions_exact, role_permissions-inv}
use talepanel.Permissions.Service.{missing_server_permissions}
use talepanel.Permissions.Rule.{may_on_server}
use talepanel.Permissions.Missing.{denied_keys, missing-eq-denied_keys}
use talepanel.Invitations.Service.{role_of, bare_user, capped, narrow, granted_permissions}

at_key-narrow :
    (perms stored : BoolMap) (key : String)
    → at_key (narrow perms stored) key ≡ (at_key perms key && at_key stored key)
unfolding narrow lookup
at_key-narrow [] stored key = refl
at_key-narrow ((k, v) ∷ perms) stored key =
    ground (arith, eq_iff k key, at_key-narrow perms stored key)

-- A stored map can only narrow the role's map.
at_key-capped :
    (perms stored : BoolMap) (key : String)
    → at_key (capped perms stored) key ≡ true
    → at_key perms key ≡ true
at_key-capped perms [] key h = h
at_key-capped perms (e ∷ stored) key h = ground (arith, at_key-narrow perms (e ∷ stored) key)

pub any-select :
    (p : String → Bool) (keys : List String) (key : String)
    → any (str_eq key) keys ≡ true
    → p key ≡ true
    → any (str_eq key) (select p keys) ≡ true
any-select p [] key h g = cc
any-select p (k ∷ keys) key h g = ground (arith, eq_iff key k, any-select p keys key)

at_key-write_all-false :
    (keys : List String) (perms : BoolMap) (key : String)
    → at_key (write_all false keys perms) key ≡ true
    → (any (str_eq key) keys ≡ false) × (at_key perms key ≡ true)
at_key-write_all-false keys perms key h = ground (arith, lookup-write_all keys key false perms)

-- Clearing the denied keys among `keys` leaves, of these, only keys that the user may use.
cleared_keys_held :
    (db : Tables) (user : User) (server_id : Uuid) (perms : BoolMap) (keys : List String)
    (key : String)
    → any (str_eq key) keys ≡ true
    → at_key (write_all false (denied_keys db user server_id perms keys) perms) key ≡ true
    → (at_key perms key ≡ true) × (may_on_server db user server_id key ≡ true)
cleared_keys_held db user server_id perms keys key scoped h =
    let (kept, was) =
      at_key-write_all-false (denied_keys db user server_id perms keys) perms key h in
    let denied = λ (k : String). at_key perms k && not (may_on_server db user server_id k) in
    (
      was,
      elim (Bool-cases (may_on_server db user server_id key)) [
        | inl held ↦ held
        | inr refused ↦ cc (kept, any-select denied keys key scoped (rw (was, refused)))
      ],
    )

-- The inviter that the server is shown: the row of users behind `inviter_id`.
abbrev pub inviter_in : Tables → ServerInvitation → Option User
inviter_in db inv = Option.map (bare_user inv.inviter_id) (role_of inv.inviter_id db)

-- Every key that is granted is granted by the invitation's role, and held by the inviter.
abbrev pub IsHeld : Tables → ServerInvitation → User → BoolMap → Type 0
IsHeld db inv inviter perms =
    (key : String)
    → at_key perms key ≡ true
    → (role_grants_key inv.role key ≡ true) × (may_on_server db inviter inv.server_id key ≡ true)

-- The last two steps of grantedPermissions.
cleared : User → Uuid → BoolMap → Exec BoolMap
cleared inviter server_id caps = do
  missing ← missing_server_permissions inviter server_id caps
  pure (write_all false missing caps)

cleared-eq :
    (inviter : User) (server_id : Uuid) (caps : BoolMap) (w : World) (perms : BoolMap)
    → IsSteady w
    → (cleared inviter server_id caps w).0 ≡ ok perms
    → write_all false (denied_keys w.db inviter server_id caps server_scoped_permissions) caps
      ≡ perms
unfolding cleared
cleared-eq inviter server_id caps w perms steady h =
    let (missing, e, same, _) =
      bind-inv (missing_server_permissions inviter server_id caps) _ w h in
    cc (e, same, missing-eq-denied_keys inviter server_id caps w steady)

granted_permissions-inv :
    (inv : ServerInvitation) (w : World) (perms : BoolMap)
    → IsSteady w
    → (granted_permissions inv w).0 ≡ ok perms
    → (role_perms : BoolMap) × (role : String) × (server_member_role_permissions inv.role
        ≡ ok role_perms)
      × (role_of inv.inviter_id w.db ≡ some role)
      × (write_all false
            (denied_keys w.db
              (bare_user inv.inviter_id role)
              inv.server_id
              (capped role_perms inv.permissions)
              server_scoped_permissions)
            (capped role_perms inv.permissions)
          ≡ perms)
unfolding granted_permissions cleared
granted_permissions-inv inv w perms steady h =
    let (role_perms, known, h1, _) =
      bind-inv (lift (server_member_role_permissions inv.role)) _ w h in
    let (found, queried, h2, _) = bind-inv (query (role_of inv.inviter_id)) _ w h1 in
    let w1 = (query (role_of inv.inviter_id) w).1 in
    let r1 = (ReadsOnly-query (role_of inv.inviter_id)).at w in
    let (role, same, h3, _) = bind-inv (found_or database found) _ w1 h2 in
    let (e, stays) = found_or-inv database found w1 same in
    let inviter = bare_user inv.inviter_id role in
    let caps = capped role_perms inv.permissions in
    let h4 =
      subst (λ (v : World). (cleared inviter inv.server_id caps v).0 ≡ ok perms)
        (ap (λ (p : Result String × World). p.1) stays) h3 in
    (
      role_perms,
      role,
      known,
      query-inv (role_of inv.inviter_id) w queried ∙ e,
      subst
          (λ (db : Tables).
            write_all false (denied_keys db inviter inv.server_id caps server_scoped_permissions)
              caps
            ≡ perms)
          r1.db (cleared-eq inviter inv.server_id caps w1 perms (Reads-IsSteady r1 steady) h4),
    )

is_some_of_true : (o : Option Bool) → or_false o ≡ true → is_some o ≡ true
is_some_of_true none h = cc
is_some_of_true (some b) h = refl

pub role_true_scoped :
    (role key : String) (role_perms : BoolMap)
    → server_member_role_permissions role ≡ ok role_perms
    → at_key role_perms key ≡ true
    → (role_grants_key role key ≡ true) × (any (str_eq key) server_scoped_permissions ≡ true)
role_true_scoped role key role_perms known h =
    let (grants, e, _) = role_permissions-inv role known in
    let (entries, values, _) = role_permissions_exact role grants e role_perms known in
    (
      ap (grants_key key) e ∙ (sym (values key) ∙ h),
      sym (entries key) ∙ is_some_of_true (lookup key role_perms) h,
    )

-- When no statement fails, what an invitation grants is held by its inviter.
pub granted_permissions-IsHeld :
    (inv : ServerInvitation) (w : World) (perms : BoolMap)
    → IsSteady w
    → (granted_permissions inv w).0 ≡ ok perms
    → (inviter : User) × (inviter_in w.db inv ≡ some inviter) × IsHeld w.db inv inviter perms
granted_permissions-IsHeld inv w perms steady h =
    let (role_perms, role, known, loaded, same) = granted_permissions-inv inv w perms steady h in
    let inviter = bare_user inv.inviter_id role in
    let caps = capped role_perms inv.permissions in
    (
      inviter,
      ap (Option.map (bare_user inv.inviter_id)) loaded,
      λ key t.
          let t' = subst (λ (m : BoolMap). at_key m key ≡ true) (sym same) t in
          let (_, was) =
            at_key-write_all-false
              (denied_keys w.db inviter inv.server_id caps server_scoped_permissions) caps key t' in
          let (granted, scoped) =
            role_true_scoped inv.role key role_perms known
              (at_key-capped role_perms inv.permissions key was) in
          (
            granted,
            (cleared_keys_held w.db inviter inv.server_id caps server_scoped_permissions key scoped
                t').1,
          ),
    )
