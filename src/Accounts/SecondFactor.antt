-- ===== src/Accounts/SecondFactor.antt =====
-- What VerifyTOTP has checked when it answers.
use talepanel.Base.{
  ◌+◌, String, true, some, find, ◌≡◌, sym, ap, subst, ◌∙◌, arith, Option-cases, Bool-cases, inl,
  inr,
}
use talepanel.Store.Tables.{Uuid, Time, User, LoginResult, Tables}
use talepanel.Store.Exec.{World, Exec, Result, ok, ◌>>=◌}
use talepanel.Store.Laws.{bind-inv}
use talepanel.Accounts.Outside.{Outside, Draws, Client, refresh_key}
use talepanel.Accounts.Tokens.{find_user_by_id, has_user_id, issue_full_tokens}
use talepanel.Accounts.Login.{check_code, verify_totp, partial_user}
use talepanel.Accounts.Found.{find_user_by_id-inv, opened}
use talepanel.Accounts.Issued.{IsIssued, IsIssued-calls, issue_full_tokens-inv}
use talepanel.Store.Exec.{after}

module _ (lib : Outside) (client : Client) (draws : Draws) where
  -- The user `id` is active, and the code fits the decrypted secret; then one session is issued.
  pub record IsCoded (id : Uuid) (code : String) (w : World) (r : LoginResult) (db : Tables)
      : Type 0 where
    pub stored : User
    pub found : find (has_user_id id) w.db.users ≡ some stored
    pub user : User
    pub decrypted_user : opened lib stored ≡ some user
    pub active : user.is_active ≡ true
    pub code_right : lib.validate_totp code user.totp_secret w.now ≡ true
    pub issued : IsIssued lib client draws user w r db

  check_code-inv :
      (user : User) (code : String) (now : Time) (w : World) (r : LoginResult)
      → (check_code lib user code now client draws w).0 ≡ ok r
      → (user.is_active ≡ true)
        × (lib.validate_totp code user.totp_secret now ≡ true)
        × (check_code lib user code now client draws w ≡ issue_full_tokens lib user client draws w)
  unfolding check_code
  check_code-inv user code now w r h = elim (Bool-cases user.is_active) [
    | inr idle ↦ absurd (ground (arith, idle))
    | inl active ↦ elim (Bool-cases (lib.validate_totp code user.totp_secret now)) [
      | inr wrong ↦ absurd (ground (arith, active, wrong))
      | inl right ↦ (active, right, ground (arith, active, right))
    ]
  ]

  found_user-inv :
      (id : Uuid) (code : String) (w : World) (r : LoginResult)
      → ((find_user_by_id lib id >>= λ user. check_code lib user code w.now client draws) w).0
        ≡ ok r
      → IsCoded id code w r
          ((find_user_by_id lib id >>= λ user. check_code lib user code w.now client draws) w).1.db
  found_user-inv id code w r h =
      let rest : User → Exec LoginResult = λ user. check_code lib user code w.now client draws in
      let (user, known, h1, s1) = bind-inv (find_user_by_id lib id) rest w h in
      let (stored, found, decrypted_user, at) = find_user_by_id-inv lib id w user known in
      let v = record w { calls = w.calls + 1 } in
      let same : (find_user_by_id lib id >>= rest) w ≡ rest user v =
        ap (λ (p : Result User × World). after p rest) at in
      let h2 : (rest user v).0 ≡ ok r =
        ap (λ (p : Result LoginResult × World). p.0) (sym same) ∙ h in
      let (active, right, step) = check_code-inv user code w.now v r h2 in
      let issued =
        issue_full_tokens-inv lib client draws user v r
          (ap (λ (p : Result LoginResult × World). p.0) (sym step) ∙ h2) in
      record {
        stored = stored;
        found = found;
        user = user;
        decrypted_user = decrypted_user;
        active = active;
        code_right = right;
        issued = IsIssued-calls lib client draws user w r _ (w.calls + 1) (
            subst (λ (p : Result LoginResult × World). IsIssued lib client draws user v r p.1.db)
              (sym (same ∙ step)) issued);
      }

  -- A code that is answered with tokens is right for the active user that the partial token names,
  -- and opens one session.
  pub verify_totp-IsCoded :
      (partial_token code : String) (w : World) (r : LoginResult)
      → (verify_totp lib partial_token code client draws w).0 ≡ ok r
      → (id : Uuid) × (partial_user lib (lib.parse_token refresh_key w.now partial_token) ≡ some id)
        × IsCoded id code w r (verify_totp lib partial_token code client draws w).1.db
  unfolding verify_totp
  verify_totp-IsCoded partial_token code w r h =
      elim (Option-cases (partial_user lib (lib.parse_token refresh_key w.now partial_token))) [
        | inl refused ↦ absurd (ground (arith, refused))
        | inr (id, named) ↦
            let same : (find_user_by_id lib id >>= λ user.
            check_code lib user code w.now client draws)
                  w
                ≡ verify_totp lib partial_token code client draws w =
              ground (arith, named) in
            (
              id,
              named,
              subst (λ (p : Result LoginResult × World). IsCoded id code w r p.1.db) same
                  (found_user-inv id code w r
                    (ap (λ (p : Result LoginResult × World). p.0) same ∙ h)),
            )
      ]
