-- ===== src/Accounts/Issue.antt =====
-- services/auth_service.go: on a steady database, issueFullTokens and the rotation yield tokens.
use talepanel.Base.{
  ℕ, ◌+◌, ◌*◌, ◌≤◌, String, Bool, true, false, ◌||◌, ◌==◌, some, List, [], ◌∷◌, ◌++◌, any, find,
  update_where, count_where, str_eq, ◌≡◌, ◌≢◌, refl, sym, ap, subst, ◌∙◌, arith,
}
use talepanel.Store.Tables.{second, Uuid, Time, User, Session, LoginResult, Tables}
use talepanel.Store.Exec.{World, IsSteady, Result, ok, RedisValue, flag, statement, attempt}
use talepanel.Store.Laws.{bind-ok}
use talepanel.Store.Redis.{redis_set}
use talepanel.Permissions.Service.{known_user}
use talepanel.Accounts.Outside.{Outside, Draws, Client}
use talepanel.Accounts.Tokens.{
  insert_session, sign_access_token, full_result, open_session, issue_full_tokens,
}
use talepanel.Accounts.Login.{set_revoked}
use talepanel.Accounts.Refresh.{
  Waits, has_token, claimable, claim_session, rotate, after_claim, claim_and_rotate,
  refresh_session, refresh_rotating_key,
}

pub find-append :
    (p : Session → Bool) (ss : List Session) (s : Session)
    → any p ss ≡ false
    → p s ≡ true
    → find p (ss ++ s ∷ []) ≡ some s
find-append p [] s absent h = ground (arith, h)
find-append p (t ∷ ss) s absent h = ground (arith, find-append p ss s)

pub count-append :
    (p : Session → Bool) (ss : List Session) (s : Session)
    → p s ≡ true
    → count_where p (ss ++ s ∷ []) ≢ 0
count-append p [] s h = ground (arith, h)
count-append p (t ∷ ss) s h = ground (arith, count-append p ss s)

-- Neither the key nor the token is in use.
abbrev pub taken : Uuid → String → Session → Bool
taken id hash s = s.id == id || str_eq s.token_hash hash

pub any-taken-hash :
    (id : Uuid) (hash : String) (ss : List Session)
    → any (taken id hash) ss ≡ false
    → any (has_token hash) ss ≡ false
any-taken-hash id hash [] h = refl
any-taken-hash id hash (s ∷ ss) h = ground (arith, any-taken-hash id hash ss)

any-taken-revoke :
    (id : Uuid) (hash : String) (chosen : Session → Bool) (ss : List Session)
    → any (taken id hash) ss ≡ false
    → any (taken id hash) (update_where chosen set_revoked ss) ≡ false
any-taken-revoke id hash chosen [] h = refl
any-taken-revoke id hash chosen (s ∷ ss) h = ground (arith, any-taken-revoke id hash chosen ss)

module _ (lib : Outside) (client : Client) (draws : Draws) where
  -- What tokens need: the draws, a signature, the user's row, and that neither the session's key
  -- nor its token is in use.
  pub record CanIssue (user : User) (now : Time) (db : Tables) (access token : String)
      : Type 0 where
    pub drawn_token : draws.refresh_token ≡ some token
    pub signed : sign_access_token lib user draws.jti now ≡ some access
    pub known : known_user user.id db ≡ true
    pub inet : lib.is_inet client.ip ≡ true
    pub fresh : any (taken draws.session_id (lib.digest token)) db.sessions ≡ false

  issue-ok :
      (user : User) (w : World) (access token : String)
      → IsSteady w
      → CanIssue user w.now w.db access token
      → (issue_full_tokens lib user client draws w).0 ≡ ok (full_result lib access token user)
  unfolding issue_full_tokens open_session insert_session statement attempt
  issue-ok user w access token steady can =
      ground
        (arith, steady.at_call w.calls, can.drawn_token, can.signed, can.known, can.inet, can.fresh)

  redis_set-same :
      (key : String) (value : RedisValue) (ttl : Time) (w : World)
      → ((redis_set key value ttl w).1.db ≡ w.db)
        × ((redis_set key value ttl w).1.now ≡ w.now)
        × ((redis_set key value ttl w).1.faults ≡ w.faults)
  unfolding redis_set statement
  redis_set-same key value ttl w = (ground arith, ground arith, ground arith)

  CanIssue-at :
      (user : User) (now now' : Time) (db db' : Tables) (access token : String)
      → now' ≡ now
      → db' ≡ db
      → CanIssue user now db access token
      → CanIssue user now' db' access token
  CanIssue-at user now now' db db' access token n d can =
      subst (λ t. CanIssue user t db' access token) (sym n)
        (subst (λ (x : Tables). CanIssue user now x access token) (sym d) can)

  rotate-ok :
      (hash : String) (user : User) (w : World) (access token : String)
      → IsSteady w
      → CanIssue user w.now w.db access token
      → (rotate lib hash user client draws w).0 ≡ ok (full_result lib access token user)
  unfolding rotate attempt
  rotate-ok hash user w access token steady can =
      let v = (redis_set (refresh_rotating_key hash) flag (5 * second) w).1 in
      let (same_db, same_now, same_faults) =
        redis_set-same (refresh_rotating_key hash) flag (5 * second) w in
      let calm : IsSteady v = record {
        at_call = λ n. ap (λ (f : ℕ → Bool). f n) same_faults ∙ steady.at_call n;
      } in
      let issued =
        issue-ok user v access token calm
          (CanIssue-at user w.now v.now w.db v.db access token same_now same_db can) in
      ap (λ (p : Result LoginResult × World). p.0)
        (bind-ok (issue_full_tokens lib user client draws) _ v issued)

  claim_session-steady :
      (id : Uuid) (w : World)
      → IsSteady w
      → claim_session id w ≡ (
        ok (count_where (claimable id) w.db.sessions),
        record w {
          calls = w.calls + 1;
          db = record w.db { sessions = update_where (claimable id) set_revoked w.db.sessions };
        },
      )
  unfolding claim_session statement
  claim_session-steady id w steady = ground (arith, steady.at_call w.calls)

  -- The session `row` is open, and its user is active.
  pub refresh_session-ok :
      (waits : Waits) (hash : String) (row : Session) (user : User) (w : World)
      (access token : String)
      → IsSteady w
      → w.now ≤ row.expires_at
      → row.revoked ≡ false
      → user.is_active ≡ true
      → count_where (claimable row.id) w.db.sessions ≢ 0
      → CanIssue user w.now w.db access token
      → (refresh_session lib waits w.now hash row user client draws w).0
        ≡ ok (full_result lib access token user)
  unfolding refresh_session claim_and_rotate after_claim
  refresh_session-ok waits hash row user w access token steady timely open_ active counted can =
      let v = record w {
        calls = w.calls + 1;
        db = record w.db { sessions = update_where (claimable row.id) set_revoked w.db.sessions };
      } in
      let calm : IsSteady v = record { at_call = λ n. steady.at_call n } in
      let can_then : CanIssue user v.now v.db access token = record {
        drawn_token = can.drawn_token;
        signed = can.signed;
        known = can.known;
        inet = can.inet;
        fresh =
            any-taken-revoke draws.session_id (lib.digest token) (claimable row.id) w.db.sessions
              can.fresh;
      } in
      ground (
        arith,
        timely,
        open_,
        active,
        counted,
        claim_session-steady row.id w steady,
        rotate-ok hash user v access token calm can_then,
      )
