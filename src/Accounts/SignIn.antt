-- ===== src/Accounts/SignIn.antt =====
-- What Login has checked when it answers, and what an answer tells of an account.
use talepanel.Base.{
  ℕ, ◌+◌, String, true, false, some, if◌then◌else◌, ◌≡◌, ◌⊎◌, ap, subst, ◌∙◌, arith, Option-cases,
  Bool-cases, inl, inr,
}
use talepanel.Store.Tables.{User, LoginResult, Tables}
use talepanel.Store.Exec.{World, Result, ok, err, database, invalid_creds, statement, query}
use talepanel.Accounts.Outside.{Outside, Draws, Client, normal_email}
use talepanel.Accounts.Tokens.{find_user_by_email, issue_partial_token, issue_full_tokens}
use talepanel.Accounts.Login.{partial_result, issue_partial, check_user, login}
use talepanel.Accounts.Found.{user_with_email}
use talepanel.Accounts.Issued.{IsIssued, IsIssued-calls, issue_full_tokens-inv}

module _ (lib : Outside) (client : Client) (draws : Draws) where
  -- A partial answer issues nothing.
  pub record IsPartial (user : User) (w : World) (r : LoginResult) (db : Tables) : Type 0 where
    pub token : String
    pub signed : issue_partial_token lib user.id w.now ≡ some token
    pub answer : r ≡ partial_result token
    pub unchanged : db ≡ w.db

  issue_partial-inv :
      (user : User) (w : World) (r : LoginResult)
      → (issue_partial lib user w).0 ≡ ok r
      → IsPartial user w r (issue_partial lib user w).1.db
  unfolding issue_partial
  issue_partial-inv user w r h = elim (Option-cases (issue_partial_token lib user.id w.now)) [
    | inl unsigned ↦ absurd (ground (arith, unsigned))
    | inr (token, signed) ↦ record {
      token = token;
      signed = signed;
      answer = ground (arith, signed);
      unchanged = ground (arith, signed);
    }
  ]

  -- What a login that answers has checked.
  pub record IsLogin (email password : String) (w : World) (r : LoginResult) (db : Tables)
      : Type 0 where
    pub user : User
    pub known : user_with_email lib (normal_email lib email) w.db ≡ some user
    pub password_right : lib.compare_password user.password_hash password ≡ true
    pub active : user.is_active ≡ true
    pub outcome :
        ((user.totp_enabled ≡ true) × IsPartial user w r db)
        ⊎ ((user.totp_enabled ≡ false) × IsIssued lib client draws user w r db)

  check_user-inv :
      (user : User) (password : String) (w : World) (r : LoginResult)
      → (check_user lib user password client draws w).0 ≡ ok r
      → (lib.compare_password user.password_hash password ≡ true)
        × (user.is_active ≡ true)
        × (((user.totp_enabled ≡ true)
              × IsPartial user w r (check_user lib user password client draws w).1.db)
            ⊎ ((user.totp_enabled ≡ false)
                × IsIssued lib client draws user w r
                    (check_user lib user password client draws w).1.db))
  unfolding check_user
  check_user-inv user password w r h =
      elim (Bool-cases (lib.compare_password user.password_hash password)) [
        | inr wrong ↦ absurd (ground (arith, wrong))
        | inl right ↦ elim (Bool-cases user.is_active) [
          | inr idle ↦ absurd (ground (arith, right, idle))
          | inl active ↦ elim (Bool-cases user.totp_enabled) [
            | inl gated ↦
                let same : issue_partial lib user w ≡ check_user lib user password client draws w =
                  ground (arith, right, active, gated) in
                (
                  right,
                  active,
                  inl (
                    gated,
                    subst (λ (p : Result LoginResult × World). IsPartial user w r p.1.db) same
                        (issue_partial-inv user w r
                          (ap (λ (p : Result LoginResult × World). p.0) same ∙ h)),
                  ),
                )
            | inr plain ↦
                let same : issue_full_tokens lib user client draws w
                    ≡ check_user lib user password client draws w =
                  ground (arith, right, active, plain) in
                (
                  right,
                  active,
                  inr (
                    plain,
                    subst
                        (λ (p : Result LoginResult × World).
                          IsIssued lib client draws user w r p.1.db)
                        same
                        (issue_full_tokens-inv lib client draws user w r
                          (ap (λ (p : Result LoginResult × World). p.0) same ∙ h)),
                  ),
                )
          ]
        ]
      ]

  IsPartial-calls :
      (user : User) (w : World) (r : LoginResult) (db : Tables) (n : ℕ)
      → IsPartial user (record w { calls = n }) r db
      → IsPartial user w r db
  IsPartial-calls user w r db n p = record {
    token = p.token;
    signed = p.signed;
    answer = p.answer;
    unchanged = p.unchanged;
  }

  -- A login that answers is for an active account with this email, whose password is right. With a
  -- second factor it issues nothing but the partial token; without one, one session.
  pub login-IsLogin :
      (email password : String) (w : World) (r : LoginResult)
      → (login lib email password client draws w).0 ≡ ok r
      → IsLogin email password w r (login lib email password client draws w).1.db
  unfolding login find_user_by_email query statement
  login-IsLogin email password w r h =
      let v = record w { calls = w.calls + 1 } in
      elim (Option-cases (user_with_email lib (normal_email lib email) w.db)) [
        | inl absent ↦ absurd (ground (arith, absent))
        | inr (user, known) ↦
            let sent : w.faults w.calls ≡ false = ground arith in
            let same : check_user lib user password client draws v
                ≡ login lib email password client draws w =
              ground (arith, known, sent) in
            let (right, active, outcome) =
              check_user-inv user password v r
                (ap (λ (p : Result LoginResult × World). p.0) same ∙ h) in
            subst (λ (p : Result LoginResult × World). IsLogin email password w r p.1.db) same
              (record {
                user = user;
                known = known;
                password_right = right;
                active = active;
                outcome = elim outcome [
                  | inl (gated, p) ↦ inl (gated, IsPartial-calls user w r _ (w.calls + 1) p)
                  | inr (plain, i) ↦
                      inr (plain, IsIssued-calls lib client draws user w r _ (w.calls + 1) i)
                ];
              })
      ]

  -- A wrong password and an unknown email have one answer, whatever the state of the account; the
  -- tables stay as they are.
  pub login_tells_nothing :
      (email password : String) (w : World)
      → ((user : User)
          → user_with_email lib (normal_email lib email) w.db ≡ some user
          → lib.compare_password user.password_hash password ≡ false)
      → ((login lib email password client draws w).0
          ≡ (if w.faults w.calls then err database else err invalid_creds))
        × ((login lib email password client draws w).1.db ≡ w.db)
  unfolding login find_user_by_email query statement check_user
  login_tells_nothing email password w wrong =
      elim (Option-cases (user_with_email lib (normal_email lib email) w.db)) [
        | inl absent ↦ (ground (arith, absent), ground (arith, absent))
        | inr (user, known) ↦
            (ground (arith, known, wrong user known), ground (arith, known, wrong user known))
      ]
