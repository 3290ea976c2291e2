-- ===== src/Accounts/Renewal.antt =====
-- A session that was just opened can be renewed: the refresh token of a login works.
use talepanel.Base.{
  ◌+◌, ◌≤◌, String, Bool, true, false, some, List, [], ◌∷◌, ◌++◌, any, find, count_where, eq_refl,
  ◌≡◌, ◌≢◌, refl, sym, ap, subst, ◌∙◌, arith,
}
use talepanel.Store.Tables.{User, without_secret, Session, LoginResult, Tables}
use talepanel.Store.Exec.{World, IsSteady, ok, statement, query}
use talepanel.Accounts.Outside.{Outside, Draws, Client}
use talepanel.Accounts.Tokens.{
  refresh_token_duration, has_user_id, accepts_session, new_session, full_result, issue_full_tokens,
}
use talepanel.Accounts.Refresh.{
  Waits, has_token, with_user, session_with_user, claimable, refresh_token,
}
use talepanel.Accounts.Issued.{issue_full_tokens-inv}
use talepanel.Accounts.Issue.{
  refresh_session-ok, find-append, count-append, any-taken-hash, taken, CanIssue,
}

accepted-fresh :
    (is_inet : String → Bool) (row : Session) (db : Tables)
    → accepts_session is_inet row db ≡ true
    → any (taken row.id row.token_hash) db.sessions ≡ false
accepted-fresh is_inet row db h = ground (arith, h)

own_claim : (row : Session) → row.revoked ≡ false → claimable row.id row ≡ true
own_claim row open_ = ground (arith, open_)

module _ (lib : Outside) (client other : Client) (draws next : Draws) (waits : Waits) where
  joined-row :
      (hash : String) (row : Session) (stored : User) (db : Tables) (ss : List Session)
      → db.sessions ≡ ss ++ row ∷ []
      → any (has_token hash) ss ≡ false
      → has_token hash row ≡ true
      → find (has_user_id row.user_id) db.users ≡ some stored
      → session_with_user hash db ≡ some (row, without_secret stored)
  joined-row hash row stored db ss same absent own found =
      let picked : find (has_token hash) db.sessions ≡ some row =
        ap (find (has_token hash)) same ∙ find-append (has_token hash) ss row absent own in
      ap (with_user db) picked ∙ ground (arith, found)

  refresh-row :
      (token : String) (row : Session) (stored : User) (v : World) (access renewed : String)
      → IsSteady v
      → session_with_user (lib.digest token) v.db ≡ some (row, without_secret stored)
      → v.now ≤ row.expires_at
      → row.revoked ≡ false
      → stored.is_active ≡ true
      → count_where (claimable row.id) v.db.sessions ≢ 0
      → CanIssue lib other next (without_secret stored) v.now v.db access renewed
      → (refresh_token lib waits token other next v).0
        ≡ ok (full_result lib access renewed (without_secret stored))
  unfolding refresh_token query statement
  refresh-row token row stored v access renewed steady joined timely open_ active counted can =
      let u = record v { calls = v.calls + 1 } in
      let calm : IsSteady u = record { at_call = λ n. steady.at_call n } in
      ground (
        arith,
        steady.at_call v.calls,
        joined,
        refresh_session-ok lib other next waits (lib.digest token) row (without_secret stored) u
            access renewed calm timely open_ active counted
            (record {
              drawn_token = can.drawn_token;
              signed = can.signed;
              known = can.known;
              inet = can.inet;
              fresh = can.fresh;
            }),
      )

  -- The refresh token of tokens that were issued is good for its seven days: it yields new tokens
  -- while the tables are as they were left and no statement fails, if the account is active and new
  -- tokens can be issued then, which is that the random bytes are drawn, the access token is signed,
  -- the client's address is one that the database takes, and neither the identifier of the new
  -- session nor the digest of its token is in use.
  pub issued_token_renews :
      (user stored : User) (w v : World) (r : LoginResult) (access renewed : String)
      → (issue_full_tokens lib user client draws w).0 ≡ ok r
      → IsSteady v
      → v.db ≡ (issue_full_tokens lib user client draws w).1.db
      → v.now ≤ w.now + refresh_token_duration
      → find (has_user_id user.id) v.db.users ≡ some stored
      → stored.is_active ≡ true
      → CanIssue lib other next (without_secret stored) v.now v.db access renewed
      → (refresh_token lib waits r.refresh_token other next v).0
        ≡ ok (full_result lib access renewed (without_secret stored))
  issued_token_renews user stored w v r access renewed issued steady same timely found active can =
      let i = issue_full_tokens-inv lib client draws user w r issued in
      let row = new_session lib user client draws i.token w.now w.db_now in
      let sessions : v.db.sessions ≡ w.db.sessions ++ row ∷ [] =
        ap (λ (db : Tables). db.sessions) same ∙ i.sessions in
      let absent : any (taken draws.session_id (lib.digest i.token)) w.db.sessions ≡ false =
        accepted-fresh lib.is_inet row w.db i.accepted in
      let named : r.refresh_token ≡ i.token = ap (λ (x : LoginResult). x.refresh_token) i.answer in
      subst
        (λ t.
          (refresh_token lib waits t other next v).0
          ≡ ok (full_result lib access renewed (without_secret stored)))
        (sym named)
        (refresh-row i.token row stored v access renewed steady
          (joined-row (lib.digest i.token) row stored v.db w.db.sessions sessions
            (any-taken-hash draws.session_id (lib.digest i.token) w.db.sessions absent)
            (eq_refl (lib.digest i.token)) found)
          timely refl active
          (λ z.
            count-append (claimable row.id) w.db.sessions row (own_claim row refl)
              (ap (count_where (claimable row.id)) (sym sessions) ∙ z))
          can)
