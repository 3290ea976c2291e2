-- ===== src/Accounts/PasswordChange.antt =====
-- ChangePassword: what a success and a failure of its statements leave behind.
use talepanel.Base.{
  ◌+◌, String, true, false, not, ◌||◌, ◌==◌, some, List, [], ◌∷◌, all, find, update_where,
  if◌then◌else◌, ◌≡◌, refl, sym, ap, ◌∙◌, arith, Option-cases, Bool-cases, inl, inr,
}
use talepanel.Store.Tables.{Uuid, User, Session, Tables}
use talepanel.Store.Exec.{
  World, IsSteady, raise, wrong_current_password, Result, ok, statement, execute, attempt, lift,
}
use talepanel.Store.Laws.{bind-inv}
use talepanel.Accounts.Outside.{Outside}
use talepanel.Accounts.Password.{validate_password_for_role}
use talepanel.Accounts.Found.{find_user_by_id-inv, find_user_by_id-ok, opened, opened-same}
use talepanel.Accounts.Tokens.{has_user_id, find_user_by_id}
use talepanel.Accounts.Login.{set_revoked, revoke_sessions_of}
use talepanel.Accounts.Totp.{update_user}
use talepanel.Accounts.Admin.{set_password, store_password, change_password}

all-revoked_of :
    (id : Uuid) (ss : List Session)
    → all
        (λ (s : Session). not (s.user_id == id) || s.revoked)
        (update_where (λ (s : Session). s.user_id == id) set_revoked ss)
      ≡ true
all-revoked_of id [] = refl
all-revoked_of id (s ∷ ss) = ground (arith, all-revoked_of id ss)

-- The tables behind a changed password: the new hash, and all sessions of the user revoked, unless
-- the last statement fails.
abbrev pub changed_password : Uuid → String → World → Tables
changed_password id hash w =
    if w.faults (w.calls + 1)
    then update_user id (set_password hash) w.db
    else revoke_sessions_of id (update_user id (set_password hash) w.db)

store_password-effect :
    (lib : Outside) (id : Uuid) (salt password : String) (user : User) (w : World)
    → (store_password lib id salt password user w).0 ≡ ok tt
    → (hash : String) × (lib.hash_password salt password ≡ some hash)
      × (validate_password_for_role user.role password ≡ ok tt)
      × ((store_password lib id salt password user w).1.db ≡ changed_password id hash w)
unfolding store_password execute attempt statement
store_password-effect lib id salt password user w h =
    let (_, valid, h1, s1) =
      bind-inv (lift (validate_password_for_role user.role password)) _ w h in
    elim (Option-cases (lib.hash_password salt password)) [
      | inl long ↦ absurd (ground (arith, long))
      | inr (hash, e) ↦ (
        hash,
        e,
        valid,
        elim (Bool-cases (w.faults (w.calls + 1))) [
          | inl lost ↦ ground (arith, valid, e, lost)
          | inr sent ↦ ground (arith, valid, e, sent)
        ],
      )
    ]

module _ (lib : Outside) (id : Uuid) (salt old_password password : String) (w : World) where
  change_password-inv :
      (change_password lib id salt old_password password w).0 ≡ ok tt
      → (stored : User) × (hash : String) × (find (has_user_id id) w.db.users ≡ some stored)
        × (lib.compare_password stored.password_hash old_password ≡ true)
        × (validate_password_for_role stored.role password ≡ ok tt)
        × (lib.hash_password salt password ≡ some hash)
        × ((change_password lib id salt old_password password w).1.db
            ≡ changed_password id hash (record w { calls = w.calls + 1 }))
  unfolding change_password
  change_password-inv h =
      let (user, known, h1, s1) = bind-inv (find_user_by_id lib id) _ w h in
      let (stored, found, decrypted_, at) = find_user_by_id-inv lib id w user known in
      let same = opened-same lib stored user decrypted_ in
      let hash_same : user.password_hash ≡ stored.password_hash =
        ap (λ (u : User). u.password_hash) same in
      let role_same : user.role ≡ stored.role = ap (λ (u : User). u.role) same in
      let v = (find_user_by_id lib id w).1 in
      elim (Bool-cases (lib.compare_password user.password_hash old_password)) [
        | inr wrong ↦ absurd (ground (arith, wrong))
        | inl right ↦
            let step : (store_password lib id salt password user v) ≡ (
                (if not (lib.compare_password user.password_hash old_password)
                    then raise wrong_current_password
                    else store_password lib id salt password user)
                  v) =
              ground (arith, right) in
            let (hash, hashed, valid, effect) =
              store_password-effect lib id salt password user v
                (ap (λ (p : Result (Unit {0}) × World). p.0) step ∙ h1) in
            (
              stored,
              hash,
              found,
              ap (λ x. lib.compare_password x old_password) (sym hash_same) ∙ right,
              ap (λ x. validate_password_for_role x password) (sym role_same) ∙ valid,
              hashed,
              ap (λ (x : World). x.db) s1
                  ∙ ap (λ (p : Result (Unit {0}) × World). p.1.db) (sym step)
                  ∙ effect
                  ∙ ap (λ (p : Result User × World). changed_password id hash p.1) at,
            )
      ]

  -- When no statement fails, a changed password leaves no session of the user open; it was the
  -- user's own to change, and the new one fits the role.
  pub change_password_revokes :
      IsSteady w
      → (change_password lib id salt old_password password w).0 ≡ ok tt
      → (all
            (λ (s : Session). not (s.user_id == id) || s.revoked)
            (change_password lib id salt old_password password w).1.db.sessions
          ≡ true)
        × ((stored : User) × (find (has_user_id id) w.db.users ≡ some stored)
            × (lib.compare_password stored.password_hash old_password ≡ true)
            × (validate_password_for_role stored.role password ≡ ok tt))
  change_password_revokes steady h =
      let (stored, hash, found, right, valid, hashed, effect) = change_password-inv h in
      (
        ap (λ (db : Tables). all (λ (s : Session). not (s.user_id == id) || s.revoked) db.sessions)
              effect
            ∙ ap
                (λ b.
                  all (λ (s : Session). not (s.user_id == id) || s.revoked)
                    (if b
                      then update_user id (set_password hash) w.db
                      else revoke_sessions_of id
                          (update_user id (set_password hash) w.db)).sessions)
                (steady.at_call (w.calls + 1 + 1))
            ∙ all-revoked_of id w.db.sessions,
        (stored, found, right, valid),
      )

  store_password-keeps :
      (user : User) (hash : String) (v : World)
      → v.faults v.calls ≡ false
      → v.faults (v.calls + 1) ≡ true
      → validate_password_for_role user.role password ≡ ok tt
      → lib.hash_password salt password ≡ some hash
      → ((store_password lib id salt password user v).0 ≡ ok tt)
        × ((store_password lib id salt password user v).1.db
            ≡ update_user id (set_password hash) v.db)
  unfolding store_password execute attempt statement
  store_password-keeps user hash v sent lost valid hashed =
      (ground (arith, sent, lost, valid, hashed), ground (arith, sent, lost, valid, hashed))

  -- When only the third statement fails, the one that revokes the sessions, a change that would
  -- succeed (the user is there, with a secret that can be decrypted or none; the old password is
  -- right; the new one fits the role and can be hashed) still answers success: the new hash is
  -- stored, and every other row of the database, the sessions included, is as it was.
  pub change_password_keeps_sessions :
      (stored user : User) (hash : String)
      → w.faults w.calls ≡ false
      → w.faults (w.calls + 1) ≡ false
      → w.faults (w.calls + 1 + 1) ≡ true
      → find (has_user_id id) w.db.users ≡ some stored
      → opened lib stored ≡ some user
      → lib.compare_password stored.password_hash old_password ≡ true
      → validate_password_for_role stored.role password ≡ ok tt
      → lib.hash_password salt password ≡ some hash
      → ((change_password lib id salt old_password password w).0 ≡ ok tt)
        × ((change_password lib id salt old_password password w).1.db
            ≡ update_user id (set_password hash) w.db)
        × ((change_password lib id salt old_password password w).1.db.sessions ≡ w.db.sessions)
  unfolding change_password
  change_password_keeps_sessions stored user hash asked sent lost found can right valid hashed =
      let same = opened-same lib stored user can in
      let at = find_user_by_id-ok lib id w stored user asked found can in
      let right_ : lib.compare_password user.password_hash old_password ≡ true =
        ap (λ (u : User). lib.compare_password u.password_hash old_password) same ∙ right in
      let valid_ : validate_password_for_role user.role password ≡ ok tt =
        ap (λ (u : User). validate_password_for_role u.role password) same ∙ valid in
      let v = record w { calls = w.calls + 1 } in
      let (answer, effect) = store_password-keeps user hash v sent lost valid_ hashed in
      let step : change_password lib id salt old_password password w
          ≡ store_password lib id salt password user v =
        ground (arith, at, right_) in
      let db = ap (λ (p : Result (Unit {0}) × World). p.1.db) step ∙ effect in
      (
        ap (λ (p : Result (Unit {0}) × World). p.0) step ∙ answer,
        db,
        ap (λ (t : Tables). t.sessions) db,
      )
