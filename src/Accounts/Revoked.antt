-- ===== src/Accounts/Revoked.antt =====
-- Which refresh tokens are used up: those of a rotation, of a logout, and of a changed password.
use talepanel.Base.{
  ℕ, ◌+◌, String, true, false, none, List, [], ◌∷◌, all, find, update_where, str_eq, ◌≡◌, ◌≢◌, refl,
  sym, ap, subst, ◌∙◌, arith, All, Option-cases, inl, inr,
}
use talepanel.Store.Tables.{Time, User, Session, LoginResult, Tables}
use talepanel.Store.Exec.{World, ok, statement, query, execute, attempt}
use talepanel.Store.Redis.{redis_get, is_live}
use talepanel.Store.Laws.{bind-inv}
use talepanel.Accounts.Outside.{Outside, Draws, Client}
use talepanel.Accounts.Login.{set_revoked, revoke_token, blacklist, revoke_refresh, logout}
use talepanel.Accounts.Refresh.{
  Waits, has_token, refresh_token, session_with_user, refresh_session, rotated_result,
  rotated_attempts, refresh_grace_key, refresh_rotating_key,
}
use talepanel.Accounts.Stable.{FreshDraws}
use talepanel.Accounts.Calls.{Call, run_calls, DrawsOf}
use talepanel.Accounts.Spent.{
  spent_row, IsSpent, Other, IsSpent-run_calls, spent_issues_nothing, find-spent, with_user-session,
}
use talepanel.Accounts.Rotation.{unique_tokens, refresh_token-IsSpent}

-- A refresh token is rotated at most once: after a refresh that answers and any calls, a second
-- refresh with it changes no table, so it opens no session. New refresh tokens have other digests,
-- and nobody else writes while a refresh waits.
pub rotated_once :
    (lib : Outside) (waits later : Waits) (token : String) (client other : Client)
    (draws again : Draws) (calls : List Call) (w : World) (r : LoginResult)
    → ((n : ℕ) (v : World) → (waits.elapse n v).db ≡ v.db)
    → ((n : ℕ) (v : World) → (later.elapse n v).db ≡ v.db)
    → FreshDraws (Other lib (lib.digest token)) draws
    → All (DrawsOf (Other lib (lib.digest token))) calls
    → unique_tokens w.db.sessions ≡ true
    → (refresh_token lib waits token client draws w).0 ≡ ok r
    → (refresh_token lib later token other again
        (run_calls lib calls (refresh_token lib waits token client draws w).1)).1.db
      ≡ (run_calls lib calls (refresh_token lib waits token client draws w).1).db
rotated_once lib waits later token client other draws again calls w r quiet calm fresh others unique
      h =
    spent_issues_nothing lib later token other again
      (run_calls lib calls (refresh_token lib waits token client draws w).1) calm
      (IsSpent-run_calls lib (lib.digest token) calls
        (refresh_token lib waits token client draws w).1 others
        (refresh_token-IsSpent lib waits client draws token w r quiet fresh unique h))

all-revoked :
    (hash : String) (ss : List Session)
    → all (spent_row hash) (update_where (λ (s : Session). str_eq s.token_hash hash) set_revoked ss)
      ≡ true
all-revoked hash [] = refl
all-revoked hash (s ∷ ss) = ground (arith, all-revoked hash ss)

revoke_refresh-effect :
    (lib : Outside) (token : String) (w : World)
    → str_eq token "" ≡ false
    → (revoke_refresh lib token w).0 ≡ ok tt
    → (revoke_refresh lib token w).1.db ≡ revoke_token (lib.digest token) w.db
unfolding revoke_refresh execute statement
revoke_refresh-effect lib token w named h = ground (arith, named)

-- After a logout that succeeds, the refresh token it was given is used up.
logout-IsSpent :
    (lib : Outside) (jti token : String) (ttl : Time) (w : World)
    → str_eq token "" ≡ false
    → (logout lib jti token ttl w).0 ≡ ok tt
    → IsSpent (lib.digest token) (logout lib jti token ttl w).1.db
unfolding logout
logout-IsSpent lib jti token ttl w named h =
    let (_, listed, rest, same) =
      bind-inv (blacklist jti ttl) (λ _. revoke_refresh lib token) w h in
    let v = (blacklist jti ttl w).1 in
    subst (λ (x : World). IsSpent (lib.digest token) x.db) (sym same)
      (record {
        rows =
            ap (λ (db : Tables). all (spent_row (lib.digest token)) db.sessions)
              (revoke_refresh-effect lib token v named rest)
            ∙ all-revoked (lib.digest token) v.db.sessions;
      })

-- No live entry of Redis has this key.
abbrev pub IsAbsent : String → World → Type 0
IsAbsent key w = find (is_live key w.now) w.redis ≡ none

rotated_result-absent :
    (waits : Waits) (hash : String) (w : World) (r : LoginResult)
    → IsAbsent (refresh_grace_key hash) w
    → IsAbsent (refresh_rotating_key hash) w
    → (rotated_result waits hash w).0 ≢ ok r
unfolding rotated_result rotated_attempts attempt redis_get statement
rotated_result-absent waits hash w r grace rotating h = ground (arith, grace, rotating)

refresh_session-refused :
    (lib : Outside) (waits : Waits) (now : Time) (hash : String) (session : Session) (user : User)
    (client : Client) (draws : Draws) (w : World) (r : LoginResult)
    → session.revoked ≡ true
    → IsAbsent (refresh_grace_key hash) w
    → IsAbsent (refresh_rotating_key hash) w
    → (refresh_session lib waits now hash session user client draws w).0 ≢ ok r
unfolding refresh_session
refresh_session-refused lib waits now hash session user client draws w r revoked grace rotating h =
    rotated_result-absent waits hash w r grace rotating (ground (arith, revoked))

-- A used-up token whose rotation is not published yields no tokens, whatever statements fail.
spent_refused :
    (lib : Outside) (waits : Waits) (token : String) (client : Client) (draws : Draws) (w : World)
    (r : LoginResult)
    → IsSpent (lib.digest token) w.db
    → IsAbsent (refresh_grace_key (lib.digest token)) w
    → IsAbsent (refresh_rotating_key (lib.digest token)) w
    → (refresh_token lib waits token client draws w).0 ≢ ok r
unfolding refresh_token query statement
spent_refused lib waits token client draws w r spent grace rotating h =
    let hash = lib.digest token in
    let v = record w { calls = w.calls + 1 } in
    elim (Option-cases (session_with_user hash w.db)) [
      | inl absent ↦ ground (arith, absent)
      | inr (joined, found) ↦
          let used : joined.0.revoked ≡ true = find-spent hash w.db.sessions joined.0 spent.rows (
            with_user-session w.db (find (has_token hash) w.db.sessions) joined.0 joined.1 found) in
          let sent : w.faults w.calls ≡ false = ground arith in
          let same : (refresh_token lib waits token client draws w).0
              ≡ (refresh_session lib waits v.now hash joined.0 joined.1 client draws v).0 =
            ground (arith, found, sent) in
          refresh_session-refused lib waits v.now hash joined.0 joined.1 client draws v r used grace
            rotating (sym same ∙ h)
    ]

-- After a logout the refresh token it was given yields no tokens, as long as no rotation of it is
-- published in Redis: with the tables as the logout left them, whatever statements fail.
pub logged_out_refused :
    (lib : Outside) (waits : Waits) (jti token : String) (ttl : Time) (client : Client)
    (draws : Draws) (w v : World) (r : LoginResult)
    → str_eq token "" ≡ false
    → (logout lib jti token ttl w).0 ≡ ok tt
    → v.db ≡ (logout lib jti token ttl w).1.db
    → IsAbsent (refresh_grace_key (lib.digest token)) v
    → IsAbsent (refresh_rotating_key (lib.digest token)) v
    → (refresh_token lib waits token client draws v).0 ≢ ok r
logged_out_refused lib waits jti token ttl client draws w v r named out same grace rotating =
    spent_refused lib waits token client draws v r
      (subst (IsSpent (lib.digest token)) (sym same) (logout-IsSpent lib jti token ttl w named out))
      grace rotating
