-- ===== src/Accounts/Issued.antt =====
-- services/auth_service.go, issueFullTokens: what it has done when it answers.
use talepanel.Base.{
  ℕ, String, true, some, [], ◌∷◌, ◌++◌, ◌≡◌, sym, ap, ◌∙◌, arith, Option-cases, inl, inr,
}
use talepanel.Store.Tables.{Uuid, User, Session, LoginResult, Tables}
use talepanel.Store.Exec.{World, Result, ok, statement, attempt}
use talepanel.Store.Laws.{bind-inv}
use talepanel.Accounts.Outside.{Outside, Draws, Client}
use talepanel.Accounts.Tokens.{
  sign_access_token, new_session, add_session, insert_session, touch_login, full_result,
  issue_full_tokens, open_session, accepts_session,
}

module _ (lib : Outside) (client : Client) (draws : Draws) where
  -- The answer of a full login, and the session it has opened.
  pub record IsIssued (user : User) (w : World) (r : LoginResult) (db : Tables) : Type 0 where
    pub token : String
    pub drawn_token : draws.refresh_token ≡ some token
    pub access : String
    pub signed : sign_access_token lib user draws.jti w.now ≡ some access
    pub answer : r ≡ full_result lib access token user
    pub sessions :
        db.sessions ≡ w.db.sessions ++ new_session lib user client draws token w.now w.db_now ∷ []
    pub accepted :
        accepts_session lib.is_inet (new_session lib user client draws token w.now w.db_now) w.db
        ≡ true

  insert_session-inv :
      (row : Session) (w : World)
      → (insert_session lib.is_inet row w).0 ≡ ok tt
      → (accepts_session lib.is_inet row w.db ≡ true)
        × ((insert_session lib.is_inet row w).1.db ≡ add_session row w.db)
  unfolding insert_session statement
  insert_session-inv row w h = (ground arith, ground arith)

  touch_login-sessions :
      (id : Uuid) (w : World) → (attempt (touch_login id) w).1.db.sessions ≡ w.db.sessions
  unfolding touch_login attempt statement
  touch_login-sessions id w = ground arith

  open_session-inv :
      (user : User) (access token : String) (w : World) (r : LoginResult)
      → (open_session lib user client draws access token w.now w.db_now w).0 ≡ ok r
      → (r ≡ full_result lib access token user)
        × (accepts_session lib.is_inet (new_session lib user client draws token w.now w.db_now) w.db
            ≡ true)
        × ((open_session lib user client draws access token w.now w.db_now w).1.db.sessions
            ≡ w.db.sessions ++ new_session lib user client draws token w.now w.db_now ∷ [])
  unfolding open_session
  open_session-inv user access token w r h =
      let row = new_session lib user client draws token w.now w.db_now in
      let (_, added, h1, s1) = bind-inv (insert_session lib.is_inet row) _ w h in
      let (accepted, effect) = insert_session-inv row w added in
      let v = (insert_session lib.is_inet row w).1 in
      (
        ground arith,
        accepted,
        ap (λ (x : World). x.db.sessions) s1
            ∙ touch_login-sessions user.id v
            ∙ ap (λ (db : Tables). db.sessions) effect,
      )

  pub issue_full_tokens-inv :
      (user : User) (w : World) (r : LoginResult)
      → (issue_full_tokens lib user client draws w).0 ≡ ok r
      → IsIssued user w r (issue_full_tokens lib user client draws w).1.db
  unfolding issue_full_tokens
  issue_full_tokens-inv user w r h =
      elim (Option-cases (sign_access_token lib user draws.jti w.now)) [
        | inl unsigned ↦ absurd (ground (arith, unsigned))
        | inr (access, signed) ↦ elim (Option-cases draws.refresh_token) [
          | inl undrawn ↦ absurd (ground (arith, signed, undrawn))
          | inr (token, drawn_token) ↦
              let row = new_session lib user client draws token w.now w.db_now in
              let same : open_session lib user client draws access token w.now w.db_now w
                  ≡ issue_full_tokens lib user client draws w =
                ground (arith, signed, drawn_token) in
              let (answer, accepted, sessions) =
                open_session-inv user access token w r
                  (ap (λ (p : Result LoginResult × World). p.0) same ∙ h) in
              record {
                token = token;
                drawn_token = drawn_token;
                access = access;
                signed = signed;
                answer = answer;
                sessions =
                    ap (λ (p : Result LoginResult × World). p.1.db.sessions) (sym same) ∙ sessions;
                accepted = accepted;
              }
        ]
      ]

  pub IsIssued-calls :
      (user : User) (w : World) (r : LoginResult) (db : Tables) (n : ℕ)
      → IsIssued user (record w { calls = n }) r db
      → IsIssued user w r db
  IsIssued-calls user w r db n i = record {
    token = i.token;
    drawn_token = i.drawn_token;
    access = i.access;
    signed = i.signed;
    answer = i.answer;
    sessions = i.sessions;
    accepted = i.accepted;
  }
