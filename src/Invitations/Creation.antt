-- ===== src/Invitations/Creation.antt =====
-- What a successful CreateInvitation promises, and that the inviter holds all of it.
use talepanel.Base.{
  String, Bool, true, false, ◌&&◌, not, Option, List, [], ◌∷◌, ◌++◌, BoolMap, at_key, any, str_eq,
  Unicode, trim_space, ◌≡◌, ◌+◌, refl, sym, ap, subst, ◌∙◌, arith, Bool-cases, inl, inr,
}
use talepanel.Store.Tables.{Uuid, Time, User, Tables, ServerInvitation, pending}
use talepanel.Store.Exec.{Result, ok, World, Exec, lift, ◌>>=◌, gets, drawn, IsSteady}
use talepanel.Store.Laws.{bind-inv, drawn-inv}
use talepanel.Permissions.Keys.{
  server_scoped_permissions, server_member_role_permissions, role_grants_key, grants_key,
}
use talepanel.Permissions.Service.{missing_server_permissions}
use talepanel.Permissions.Rule.{may_on_server}
use talepanel.Permissions.Grants.{role_permissions_exact, role_permissions-inv}
use talepanel.Permissions.Missing.{denied_keys, missing-eq-denied_keys, missing-Reads}
use talepanel.Invitations.Service.{
  CreateInvitationRequest, requested_role, create_invitation, insert_invitation, add_invitation,
  allowed_to_grant, seven_days,
}
use talepanel.Invitations.Grants.{any-select, role_true_scoped}

insert_invitation-inv :
    (inv made : ServerInvitation) (w : World)
    → (insert_invitation inv w).0 ≡ ok made
    → (inv ≡ made) × ((insert_invitation inv w).1.db ≡ add_invitation made w.db)
unfolding insert_invitation
insert_invitation-inv inv made w h = ground arith

allowed_to_grant-inv :
    (keys : List String) (w : World)
    → (allowed_to_grant keys w).0 ≡ ok tt
    → (keys ≡ []) × ((allowed_to_grant keys w).1 ≡ w)
allowed_to_grant-inv [] w h = (refl, refl)
allowed_to_grant-inv (key ∷ keys) w h = cc

-- The role grants the key, and the user may not use it on the server.
abbrev pub exceeds : Tables → User → Uuid → String → String → Bool
exceeds db user server_id role key =
    role_grants_key role key && not (may_on_server db user server_id key)

granted_at_key :
    (role key : String) (perms : BoolMap)
    → server_member_role_permissions role ≡ ok perms
    → role_grants_key role key ≡ true
    → (at_key perms key ≡ true) × (any (str_eq key) server_scoped_permissions ≡ true)
granted_at_key role key perms known granted =
    let (grants, e, _) = role_permissions-inv role known in
    let (_, values, _) = role_permissions_exact role grants e perms known in
    let at_true = values key ∙ (sym (ap (grants_key key) e) ∙ granted) in
    (at_true, (role_true_scoped role key perms known at_true).1)

none_exceeds :
    (db : Tables) (user : User) (server_id : Uuid) (role key : String) (perms : BoolMap)
    → server_member_role_permissions role ≡ ok perms
    → denied_keys db user server_id perms server_scoped_permissions ≡ []
    → exceeds db user server_id role key ≡ false
none_exceeds db user server_id role key perms known nothing =
    elim (Bool-cases (role_grants_key role key)) [
      | inr not_granted ↦ ap (λ b. b && not (may_on_server db user server_id key)) not_granted
      | inl granted ↦ elim (Bool-cases (may_on_server db user server_id key)) [
        | inl held ↦ rw (granted, held) refl
        | inr refused ↦
            let (at_true, scoped) = granted_at_key role key perms known granted in
            let denied =
              λ (k : String). at_key perms k && not (may_on_server db user server_id k) in
            absurd (
              cc (
                nothing,
                any-select denied server_scoped_permissions key scoped (rw (at_true, refused) refl),
              ))
      ]
    ]

module _ (unicode : Unicode) (random : Option String) (id server_id : Uuid) (inviter : User)
    (req : CreateInvitationRequest) where
  -- The row, given the permissions, the token and NOW().
  abbrev new_invitation : BoolMap → String → Time → ServerInvitation
  new_invitation perms token created = record {
    id = id;
    server_id = server_id;
    inviter_id = inviter.id;
    invitee_email = trim_space req.invitee_email;
    token = token;
    role = requested_role unicode req.role;
    permissions = perms;
    status = pending;
    created_at = created;
    expires_at = created + seven_days;
  }

  -- The steps behind the checks.
  finish : BoolMap → Exec ServerInvitation
  finish perms = do
    token ← drawn random
    created ← gets (λ w. w.db_now)
    insert_invitation (new_invitation perms token created)

  finish-inv :
      (perms : BoolMap) (w : World) (inv : ServerInvitation)
      → (finish perms w).0 ≡ ok inv
      → (token : String) × (new_invitation perms token w.db_now ≡ inv)
        × ((finish perms w).1.db ≡ add_invitation inv w.db)
  unfolding finish
  finish-inv perms w inv h =
      let (token, drew, h1, s1) = bind-inv (drawn random) _ w h in
      let (_, stays) = drawn-inv random w drew in
      let same = ap (λ (p : Result String × World). p.1) stays in
      let (made, added) =
        insert_invitation-inv (new_invitation perms token (drawn random w).1.db_now) inv
          (drawn random w).1 h1 in
      (
        token,
        subst (λ (v : World). new_invitation perms token v.db_now ≡ inv) same made,
        ap (λ (v : World). v.db) s1 ∙ (added ∙ ap (λ (v : World). add_invitation inv v.db) same),
      )

  -- When no statement fails, a successful CreateInvitation adds one row behind the others: pending,
  -- for the requested role on that server, valid for seven days; and the inviter holds on that server
  -- every permission that the role grants.
  pub create_invitation_covered :
      (w : World) (inv : ServerInvitation)
      → IsSteady w
      → (create_invitation unicode random id server_id inviter req w).0 ≡ ok inv
      → ((create_invitation unicode random id server_id inviter req w).1.db
          ≡ record w.db { server_invitations = w.db.server_invitations ++ inv ∷ [] })
        × (inv.status ≡ pending)
        × (inv.role ≡ requested_role unicode req.role)
        × (inv.server_id ≡ server_id)
        × (inv.expires_at ≡ w.db_now + seven_days)
        × ((key : String) → exceeds w.db inviter server_id inv.role key ≡ false)
  unfolding create_invitation finish
  create_invitation_covered w inv steady h =
      let role = requested_role unicode req.role in
      let (perms, known, h1, s1) = bind-inv (lift (server_member_role_permissions role)) _ w h in
      let checked = missing_server_permissions inviter server_id perms in
      let (missing, is_missing, h2, s2) = bind-inv checked _ w h1 in
      let w1 = (checked w).1 in
      let reads = missing-Reads inviter server_id perms w in
      let (_, allowed, h3, s3) = bind-inv (allowed_to_grant missing) _ w1 h2 in
      let (none_missing, stays) = allowed_to_grant-inv missing w1 allowed in
      let w2 = (allowed_to_grant missing w1).1 in
      let (token, made, added) = finish-inv perms w2 inv h3 in
      let ruled = missing-eq-denied_keys inviter server_id perms w steady in
      let nothing : denied_keys w.db inviter server_id perms server_scoped_permissions ≡ [] =
        cc (is_missing, ruled, none_missing) in
      let is_role = ap (λ (i : ServerInvitation). i.role) (sym made) in
      (
        ap (λ (v : World). v.db) (s1 ∙ s2 ∙ s3)
            ∙ (added ∙ ap (add_invitation inv) (ap (λ (v : World). v.db) stays ∙ reads.db)),
        ap (λ (i : ServerInvitation). i.status) (sym made),
        is_role,
        ap (λ (i : ServerInvitation). i.server_id) (sym made),
        ap (λ (i : ServerInvitation). i.expires_at) (sym made)
            ∙ ap (λ t. t + seven_days) (ap (λ (v : World). v.db_now) stays ∙ reads.db_now),
        λ key. rw is_role (none_exceeds w.db inviter server_id role key perms known nothing),
      )
