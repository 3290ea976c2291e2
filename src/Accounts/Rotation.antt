-- ===== src/Accounts/Rotation.antt =====
-- A refresh token is rotated once: what a refresh that answers leaves behind, and what a second one
-- with the same token can do.
use talepanel.Base.{
  ℕ, String, Bool, true, false, not, ◌&&◌, ◌==◌, some, List, [], ◌∷◌, all, any, find, update_where,
  eq_iff, ◌≡◌, refl, sym, ap, subst, ◌∙◌, arith, Bool-cases, inl, inr, ltb,
}
use talepanel.Store.Tables.{Uuid, Time, User, Session, LoginResult, Tables}
use talepanel.Store.Exec.{World, session_expired, Result, ok, query, found_or}
use talepanel.Store.Laws.{bind-inv, query-inv, found_or-inv}
use talepanel.Store.Preserve.{Preserves, Preserves-if}
use talepanel.Accounts.Outside.{Outside, Draws, Client}
use talepanel.Accounts.Login.{set_revoked}
use talepanel.Accounts.Refresh.{
  Waits, has_token, with_user, session_with_user, rotated_result, claimable, claim_session,
  after_claim, claim_and_rotate, refresh_session, refresh_token,
}
use talepanel.Accounts.Stable.{FreshDraws, Preserves-rotated_result, Preserves-rotate}
use talepanel.Accounts.Spent.{spent_row, IsSpent, Other, IsSpent-stable, with_user-session}

-- The unique column token_hash of sessions.
abbrev pub unique_tokens : List Session → Bool
unique_tokens [] = true
unique_tokens (s ∷ ss) = not (any (has_token s.token_hash) ss) && unique_tokens ss

absent-spent :
    (hash : String) (ss : List Session)
    → any (has_token hash) ss ≡ false
    → all (spent_row hash) ss ≡ true
absent-spent hash [] h = refl
absent-spent hash (s ∷ ss) h = ground (arith, absent-spent hash ss)

-- The row of the token is the only one, so it decides.
only-spent :
    (hash : String) (ss : List Session) (s : Session)
    → unique_tokens ss ≡ true
    → find (has_token hash) ss ≡ some s
    → s.revoked ≡ true
    → all (spent_row hash) ss ≡ true
only-spent hash [] s unique found revoked = refl
only-spent hash (t ∷ ss) s unique found revoked =
    ground (arith, eq_iff t.token_hash hash, absent-spent hash ss, only-spent hash ss s)

absent-claim :
    (hash : String) (id : Uuid) (ss : List Session)
    → any (has_token hash) ss ≡ false
    → all (spent_row hash) (update_where (claimable id) set_revoked ss) ≡ true
absent-claim hash id [] h = refl
absent-claim hash id (s ∷ ss) h = ground (arith, absent-claim hash id ss)

-- Claiming the row of a token uses the token up.
claim-spent :
    (hash : String) (ss : List Session) (s : Session)
    → unique_tokens ss ≡ true
    → find (has_token hash) ss ≡ some s
    → all (spent_row hash) (update_where (claimable s.id) set_revoked ss) ≡ true
claim-spent hash [] s unique found = refl
claim-spent hash (t ∷ ss) s unique found =
    ground (arith, eq_iff t.token_hash hash, absent-claim hash s.id ss, claim-spent hash ss s)

module _ (lib : Outside) (waits : Waits) (client : Client) (draws : Draws) where
  module _ (hash : String) (quiet : (n : ℕ) (v : World) → (waits.elapse n v).db ≡ v.db)
      (fresh : FreshDraws (Other lib hash) draws) where
    kept-waiting : Preserves (IsSpent hash) (rotated_result waits hash)
    kept-waiting =
        Preserves-rotated_result waits (λ n v spent. subst (IsSpent hash) (sym (quiet n v)) spent)
          hash

    claim_session-effect :
        (id : Uuid) (w : World) (n : ℕ)
        → (claim_session id w).0 ≡ ok n
        → (claim_session id w).1.db.sessions ≡ update_where (claimable id) set_revoked w.db.sessions
    unfolding claim_session
    claim_session-effect id w n h = ground arith

    claimed-IsSpent :
        (session : Session) (user : User) (w : World) (r : LoginResult)
        → unique_tokens w.db.sessions ≡ true
        → find (has_token hash) w.db.sessions ≡ some session
        → (claim_and_rotate lib waits hash session user client draws w).0 ≡ ok r
        → IsSpent hash (claim_and_rotate lib waits hash session user client draws w).1.db
    unfolding claim_and_rotate after_claim
    claimed-IsSpent session user w r unique found h =
        let (n, claimed, rest, same) =
          bind-inv (claim_session session.id)
            (λ affected. after_claim lib waits affected hash user client draws) w h in
        let spent : IsSpent hash (claim_session session.id w).1.db = record {
          rows =
              ap (all (spent_row hash)) (claim_session-effect session.id w n claimed)
              ∙ claim-spent hash w.db.sessions session unique found;
        } in
        let kept : Preserves (IsSpent hash) (after_claim lib waits n hash user client draws) =
          Preserves-if (n == 0) kept-waiting
            (Preserves-rotate lib (IsSpent-stable lib hash) hash user client draws fresh) in
        subst (λ (v : World). IsSpent hash v.db) (sym same)
          (kept.at (claim_session session.id w).1 spent)

    refreshed-IsSpent :
        (now : Time) (session : Session) (user : User) (w : World) (r : LoginResult)
        → unique_tokens w.db.sessions ≡ true
        → find (has_token hash) w.db.sessions ≡ some session
        → (refresh_session lib waits now hash session user client draws w).0 ≡ ok r
        → IsSpent hash (refresh_session lib waits now hash session user client draws w).1.db
    unfolding refresh_session
    refreshed-IsSpent now session user w r unique found h =
        elim (Bool-cases (ltb session.expires_at now)) [
          | inl late ↦ absurd (ground (arith, late))
          | inr timely ↦ elim (Bool-cases session.revoked) [
            | inl revoked ↦
                let same : rotated_result waits hash w
                    ≡ refresh_session lib waits now hash session user client draws w =
                  ground (arith, timely, revoked) in
                subst (λ (p : Result LoginResult × World). IsSpent hash p.1.db) same
                  (kept-waiting.at w
                    (record { rows = only-spent hash w.db.sessions session unique found revoked }))
            | inr open_ ↦ elim (Bool-cases user.is_active) [
              | inr idle ↦ absurd (ground (arith, timely, open_, idle))
              | inl active ↦
                  let same : claim_and_rotate lib waits hash session user client draws w
                      ≡ refresh_session lib waits now hash session user client draws w =
                    ground (arith, timely, open_, active) in
                  subst (λ (p : Result LoginResult × World). IsSpent hash p.1.db) same
                    (claimed-IsSpent session user w r unique found
                      (ap (λ (p : Result LoginResult × World). p.0) same ∙ h))
            ]
          ]
        ]

  -- A refresh that answers with tokens leaves its own token used up.
  pub refresh_token-IsSpent :
      (token : String) (w : World) (r : LoginResult)
      → ((n : ℕ) (v : World) → (waits.elapse n v).db ≡ v.db)
      → FreshDraws (Other lib (lib.digest token)) draws
      → unique_tokens w.db.sessions ≡ true
      → (refresh_token lib waits token client draws w).0 ≡ ok r
      → IsSpent (lib.digest token) (refresh_token lib waits token client draws w).1.db
  unfolding refresh_token
  refresh_token-IsSpent token w r quiet fresh unique h =
      let hash = lib.digest token in
      let (found, asked, h1, s1) = bind-inv (query (session_with_user hash)) _ w h in
      let u = (query (session_with_user hash) w).1 in
      let (joined, known, h2, s2) = bind-inv (found_or session_expired found) _ u h1 in
      let (is_some, at) = found_or-inv session_expired found u known in
      let row : with_user w.db (find (has_token hash) w.db.sessions) ≡ some joined =
        query-inv (session_with_user hash) w asked ∙ is_some in
      let read : u.db ≡ w.db = ground arith in
      let here : (found_or session_expired found u).1.db ≡ w.db =
        ap (λ (p : Result (Session × User) × World). p.1.db) at ∙ read in
      let v = (found_or session_expired found u).1 in
      subst (λ (x : World). IsSpent hash x.db) (sym (s1 ∙ s2))
        (refreshed-IsSpent hash quiet fresh v.now joined.0 joined.1 v r
          (ap (λ (db : Tables). unique_tokens db.sessions) here ∙ unique)
          (ap (λ (db : Tables). find (has_token hash) db.sessions) here
            ∙ with_user-session w.db (find (has_token hash) w.db.sessions) joined.0 joined.1 row)
          h2)
