-- ===== src/Accounts/Spent.antt =====
-- Refresh tokens that are used up: every session of theirs is revoked.
use talepanel.Base.{
  ℕ, String, Bool, true, not, ◌&&◌, ◌||◌, ◌==◌, Option, some, none, List, [], ◌∷◌, ◌++◌, all, any,
  find, select, update_where, str_eq, eq_iff, ◌≡◌, ◌≢◌, refl, sym, subst, ◌∙◌, arith, Option-cases,
  inl, inr, All, ltb,
}
use talepanel.Store.Tables.{ServerRow, Uuid, User, Session, Tables}
use talepanel.Store.Exec.{World, execute, database, owner_protected, session_expired}
use talepanel.Store.Preserve.{
  Preserves, Preserves-raise, Preserves-if, Preserves-test, Preserves-bind, Preserves-gets,
  Preserves-statement, Preserves-write, Preserves-execute, Preserves-query_bind,
  Preserves-found_bind,
}
use talepanel.Accounts.Outside.{Outside, Draws, Client}
use talepanel.Accounts.Tokens.{has_user_id}
use talepanel.Accounts.Login.{set_revoked, revoke_sessions_of}
use talepanel.Accounts.Refresh.{
  Waits, has_token, with_user, session_with_user, refresh_session, refresh_token,
}
use talepanel.Accounts.Admin.{
  write_role, set_role, removes_by_role, removes_by_state, removes_always, set_active,
  update_user_role, set_user_active, delete_user, delete_account, delete_user_row, remove_user,
}
use talepanel.Accounts.Totp.{update_user}
use talepanel.Accounts.Targets.{Preserves-any_target}
use talepanel.Roles.Weight.{role_owner, role_weight}
use talepanel.Accounts.Stable.{Stable, Preserves-rotated_result}
use talepanel.Accounts.Calls.{Call, run_calls, DrawsOf}
use talepanel.Accounts.History.{run_calls-keeps}

abbrev pub spent_row : String → Session → Bool
spent_row hash session = not (has_token hash session) || session.revoked

pub record IsSpent (hash : String) (db : Tables) : Type 0 where
  pub rows : all (spent_row hash) db.sessions ≡ true

all-revoke :
    (hash : String) (chosen : Session → Bool) (ss : List Session)
    → all (spent_row hash) ss ≡ true
    → all (spent_row hash) (update_where chosen set_revoked ss) ≡ true
all-revoke hash chosen [] h = refl
all-revoke hash chosen (s ∷ ss) h = ground (arith, all-revoke hash chosen ss)

all-append :
    (hash : String) (ss : List Session) (s : Session)
    → all (spent_row hash) ss ≡ true
    → spent_row hash s ≡ true
    → all (spent_row hash) (ss ++ s ∷ []) ≡ true
all-append hash [] s h k = ground arith
all-append hash (t ∷ ss) s h k = ground (arith, all-append hash ss s)

all-select :
    (hash : String) (chosen : Session → Bool) (ss : List Session)
    → all (spent_row hash) ss ≡ true
    → all (spent_row hash) (select chosen ss) ≡ true
all-select hash chosen [] h = refl
all-select hash chosen (s ∷ ss) h = ground (arith, all-select hash chosen ss)

-- A token with another hash.
abbrev pub Other : Outside → String → String → Type 0
Other lib hash token = lib.digest token ≢ hash

pub IsSpent-stable : (lib : Outside) (hash : String) → Stable lib (Other lib hash) (IsSpent hash)
IsSpent-stable lib hash = record {
  change_user = λ id f db harmless spent. record { rows = spent.rows };
  revoke = λ chosen db spent. record { rows = all-revoke hash chosen db.sessions spent.rows };
  add = λ row token db same other spent. record {
    rows =
        all-append hash db.sessions row spent.rows
          (ground (arith, same, other, eq_iff row.token_hash hash));
  };
  insert = λ user db valid spent. record { rows = spent.rows };
  log = λ entry db spent. record { rows = spent.rows };
}

module _ (hash : String) where
  Preserves-update :
      (id : Uuid) (f : User → User) → Preserves (IsSpent hash) (execute (update_user id f))
  Preserves-update id f =
      Preserves-execute (update_user id f) λ db spent. record { rows = spent.rows }

  Preserves-roles :
      (caller_role : String) (id : Uuid) (role : String)
      → Preserves (IsSpent hash) (update_user_role caller_role id role)
  unfolding update_user_role write_role
  Preserves-roles caller_role id role =
      Preserves-if (str_eq role role_owner && not (str_eq caller_role role_owner))
        (Preserves-raise owner_protected)
        (Preserves-any_target caller_role id (removes_by_role role) (write_role id role) (
          Preserves-bind Preserves-statement λ _.
            Preserves-if (role_weight role == 0) (Preserves-raise database) (
              Preserves-write (update_user id (set_role role))
                λ db spent. record { rows = spent.rows })))

  Preserves-states :
      (caller_role : String) (id : Uuid) (active : Bool)
      → Preserves (IsSpent hash) (set_user_active caller_role id active)
  unfolding set_user_active
  Preserves-states caller_role id active =
      Preserves-any_target caller_role id (removes_by_state active)
        (execute (update_user id (set_active active))) (Preserves-update id (set_active active))

  Preserves-delete_user_row : (id : Uuid) → Preserves (IsSpent hash) (delete_user_row id)
  unfolding delete_user_row
  Preserves-delete_user_row id = Preserves-bind Preserves-statement λ _.
      Preserves-bind
        (Preserves-gets (λ w. any (λ (row : ServerRow). row.owner_id == id) w.db.servers))
        λ owns. Preserves-if owns (Preserves-raise database) (
          Preserves-write (remove_user id) λ db spent. record {
            rows = all-select hash (λ (s : Session). not (s.user_id == id)) db.sessions spent.rows;
          })

  Preserves-removals :
      (caller_role : String) (id : Uuid) → Preserves (IsSpent hash) (delete_user caller_role id)
  unfolding delete_user delete_account
  Preserves-removals caller_role id =
      Preserves-any_target caller_role id removes_always (delete_account id) (
        Preserves-bind
          (Preserves-execute (revoke_sessions_of id) λ db spent. record {
            rows = all-revoke hash (λ (s : Session). s.user_id == id) db.sessions spent.rows;
          })
          λ _. Preserves-delete_user_row id)

-- A refresh token that is used up stays so, whatever is called, as long as no other token is drawn
-- whose digest is the same.
pub IsSpent-run_calls :
    (lib : Outside) (hash : String) (calls : List Call) (w : World)
    → All (DrawsOf (Other lib hash)) calls
    → IsSpent hash w.db
    → IsSpent hash (run_calls lib calls w).db
IsSpent-run_calls lib hash calls w others spent =
    run_calls-keeps lib (IsSpent-stable lib hash) (Preserves-roles hash) (Preserves-states hash)
      (Preserves-removals hash) calls w others spent

-- The tables are those of a moment at which the token was used up.
abbrev Unchanged : Tables → String → Tables → Type 0
Unchanged before hash db = (db ≡ before) × IsSpent hash db

pub find-spent :
    (hash : String) (ss : List Session) (s : Session)
    → all (spent_row hash) ss ≡ true
    → find (has_token hash) ss ≡ some s
    → s.revoked ≡ true
find-spent hash [] s h found = absurd (ground arith)
find-spent hash (t ∷ ss) s h found = ground (arith, find-spent hash ss s)

pub with_user-session :
    (db : Tables) (o : Option Session) (s : Session) (user : User)
    → with_user db o ≡ some (s, user)
    → o ≡ some s
with_user-session db none s user h = absurd (ground arith)
with_user-session db (some t) s user h =
    elim (Option-cases (find (has_user_id t.user_id) db.users)) [
      | inl absent ↦ absurd (ground (arith, absent))
      | inr (u, e) ↦ ground (arith, e)
    ]

module _ (lib : Outside) (waits : Waits) (token : String) where
  spent_only_reads :
      (client : Client) (draws : Draws) (before : Tables)
      → ((n : ℕ) (v : World) → (waits.elapse n v).db ≡ v.db)
      → Preserves (Unchanged before (lib.digest token)) (refresh_token lib waits token client draws)
  unfolding refresh_token refresh_session
  spent_only_reads client draws before quiet =
      Preserves-query_bind (session_with_user (lib.digest token)) _ λ db kept.
        Preserves-found_bind session_expired (session_with_user (lib.digest token) db)
          λ joined found.
            let used : joined.0.revoked ≡ true =
              find-spent (lib.digest token) db.sessions joined.0 kept.1.rows (
                with_user-session db (find (has_token (lib.digest token)) db.sessions) joined.0
                  joined.1 found) in
            Preserves-bind (Preserves-gets (λ w. w.now)) λ now.
              Preserves-if (ltb joined.0.expires_at now) (Preserves-raise session_expired) (
                Preserves-test joined.0.revoked
                  (λ revoked.
                    Preserves-rotated_result waits
                      (λ n v (same, spent). (
                        quiet n v ∙ same,
                        subst (IsSpent (lib.digest token)) (sym (quiet n v)) spent,
                      ))
                      (lib.digest token))
                  (λ open_. absurd cc))

  -- A refresh with a used-up token changes no table, whatever it answers, when the others change
  -- none while it waits.
  pub spent_issues_nothing :
      (client : Client) (draws : Draws) (w : World)
      → ((n : ℕ) (v : World) → (waits.elapse n v).db ≡ v.db)
      → IsSpent (lib.digest token) w.db
      → (refresh_token lib waits token client draws w).1.db ≡ w.db
  spent_issues_nothing client draws w quiet spent =
      ((spent_only_reads client draws w.db quiet).at w (refl, spent)).0
