-- ===== src/Permissions/Grants.antt =====
-- What the map of a server member role says of each key.
use talepanel.Base.{
  String, Bool, true, false, Option, none, some, List, [], ◌∷◌, BoolMap, lookup, insert,
  lookup-insert, at_key, ◌≡◌, ◌≢◌, refl, arith, str_eq, eq_iff, any, if◌then◌else◌, is_some,
  or_false, ◌⊎◌, Bool-cases, inl, inr, sym, ◌∙◌, ap, subst,
}
use talepanel.Store.Exec.{Result, ok, err}
use talepanel.Permissions.Keys.{
  server_scoped_permissions, viewer_grants, moderator_grants, admin_grants, write_all, grant_map,
  map_grants, server_member_role_grants, server_member_role_permissions,
}

-- A key that is written reads back the value, and any other key what it held before.
pub lookup-write_all :
    (keys : List String) (j : String) (v : Bool) (m : BoolMap)
    → lookup j (write_all v keys m) ≡ (if any (str_eq j) keys then some v else lookup j m)
unfolding write_all
lookup-write_all [] j v m = refl
lookup-write_all (k ∷ ks) j v m =
    ground
      (arith, lookup-write_all ks j v (insert k v m), lookup-insert k j v m, eq_iff k j, eq_iff j k)

-- What a role's map holds at a key.
pub lookup-grant_map :
    (grants : List String) (j : String)
    → lookup j (grant_map grants) ≡ (
        if any (str_eq j) grants
        then some true
        else (if any (str_eq j) server_scoped_permissions then some false else none))
unfolding grant_map lookup
lookup-grant_map grants j =
    lookup-write_all grants j true (write_all false server_scoped_permissions [])
    ∙ ap (λ o. if any (str_eq j) grants then some true else o)
        (lookup-write_all server_scoped_permissions j false [])

-- A role is valid exactly when it has a list of grants, and then its map is that of the list.
pub role_permissions-inv :
    (role : String) {perms : BoolMap}
    → server_member_role_permissions role ≡ ok perms
    → (grants : List String) × (server_member_role_grants role ≡ ok grants)
      × (perms ≡ grant_map grants)
unfolding server_member_role_permissions
role_permissions-inv role h = go (server_member_role_grants role) h
  where
    go :
        (r : Result (List String)) {perms : BoolMap}
        → map_grants r ≡ ok perms
        → (grants : List String) × (r ≡ ok grants) × (perms ≡ grant_map grants)
    go (ok grants) e = (grants, refl, cc)
    go (err x) e = cc

-- The grants of the three roles, in their order: each is part of the next, and all are
-- server-scoped keys other than `server.delete`.
viewer_moderator :
    (j : String) → any (str_eq j) viewer_grants ≡ true → any (str_eq j) moderator_grants ≡ true
viewer_moderator j h = ground arith

moderator_admin :
    (j : String) → any (str_eq j) moderator_grants ≡ true → any (str_eq j) admin_grants ≡ true
moderator_admin j h = ground arith

admin_scoped :
    (j : String)
    → any (str_eq j) admin_grants ≡ true
    → (any (str_eq j) server_scoped_permissions ≡ true) × (j ≢ "server.delete")
admin_scoped j h = (ground arith, λ e. cc (ap (λ k. any (str_eq k) admin_grants) e, h))

role_grants_known :
    (role : String) (grants : List String)
    → server_member_role_grants role ≡ ok grants
    → (grants ≡ viewer_grants) ⊎ ((grants ≡ moderator_grants) ⊎ (grants ≡ admin_grants))
role_grants_known role grants h = ground (arith)

abbrev IsScoped : String → List String → Type 0
IsScoped j grants =
    any (str_eq j) grants ≡ true
    → (any (str_eq j) server_scoped_permissions ≡ true) × (j ≢ "server.delete")

granted-IsScoped :
    (role j : String) (grants : List String)
    → server_member_role_grants role ≡ ok grants
    → IsScoped j grants
granted-IsScoped role j grants h = elim (role_grants_known role grants h) [
  | inl e ↦
      subst (IsScoped j) (sym e) (λ g. admin_scoped j (moderator_admin j (viewer_moderator j g)))
  | inr (inl e) ↦ subst (IsScoped j) (sym e) (λ g. admin_scoped j (moderator_admin j g))
  | inr (inr e) ↦ subst (IsScoped j) (sym e) (admin_scoped j)
]

-- The entry of a map by two tests, granted and scoped.
abbrev entry : Bool → Bool → Option Bool
entry a b = if a then some true else (if b then some false else none)

is_some-entry : (a b : Bool) → (a ≡ true → b ≡ true) → is_some (entry a b) ≡ b
is_some-entry true b h = sym (h refl)
is_some-entry false true h = refl
is_some-entry false false h = refl

or_false-entry : (a b : Bool) → or_false (entry a b) ≡ a
or_false-entry true b = refl
or_false-entry false true = refl
or_false-entry false false = refl

module _ (role : String) (grants : List String)
    (known : server_member_role_grants role ≡ ok grants) where
  map_entry :
      (key : String)
      → is_some (lookup key (grant_map grants)) ≡ any (str_eq key) server_scoped_permissions
  map_entry key =
      ap is_some (lookup-grant_map grants key)
      ∙ is_some-entry (any (str_eq key) grants) (any (str_eq key) server_scoped_permissions)
          (λ g. (granted-IsScoped role key grants known g).0)

  map_value : (key : String) → at_key (grant_map grants) key ≡ any (str_eq key) grants
  map_value key =
      ap or_false (lookup-grant_map grants key)
      ∙ or_false-entry (any (str_eq key) grants) (any (str_eq key) server_scoped_permissions)

  no_delete : any (str_eq "server.delete") grants ≡ false
  no_delete = elim (Bool-cases (any (str_eq "server.delete") grants)) [
    | inl g ↦ absurd ((granted-IsScoped role "server.delete" grants known g).1 refl)
    | inr f ↦ f
  ]

  -- A valid role's map has an entry for exactly the server-scoped keys, is true at exactly the keys
  -- that the role grants, and is false at `server.delete`.
  pub role_permissions_exact :
      (perms : BoolMap)
      → server_member_role_permissions role ≡ ok perms
      → ((key : String) → is_some (lookup key perms) ≡ any (str_eq key) server_scoped_permissions)
        × ((key : String) → at_key perms key ≡ any (str_eq key) grants)
        × (at_key perms "server.delete" ≡ false)
  unfolding server_member_role_permissions
  role_permissions_exact perms h =
      let same : grant_map grants ≡ perms = ground (arith, known) in
      (
        λ key. rw (← same) (map_entry key),
        λ key. rw (← same) (map_value key),
        rw (← same) (map_value "server.delete" ∙ no_delete),
      )
