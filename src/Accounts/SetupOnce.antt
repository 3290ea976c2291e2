-- ===== src/Accounts/SetupOnce.antt =====
-- The setup runs once: what it has checked when it succeeds, and that no other one succeeds after it.
use talepanel.Base.{
  String, true, false, not, ◌==◌, List, [], ◌∷◌, any, length, str_eq, ◌≡◌, ◌≢◌, sym, ap, subst, ◌∙◌,
  arith, Bool-cases, inl, inr, trim_space,
}
use talepanel.Store.Tables.{Uuid, User, LoginResult, Tables}
use talepanel.Store.Exec.{
  World, Result, ok, transaction, attempt, found_or, lift, hashing_failed, ◌>>=◌, ◌>>◌,
}
use talepanel.Store.Laws.{bind-inv, transaction-inv, found_or-inv}
use talepanel.Store.Preserve.{Preserves, Preserves-bind, Preserves-attempt}
use talepanel.Roles.Weight.{role_owner}
use talepanel.Accounts.Outside.{Outside, Draws, Client, normal_email}
use talepanel.Accounts.Password.{validate_password_for_role}
use talepanel.Accounts.Tokens.{issue_full_tokens}
use talepanel.Accounts.Admin.{is_active_owner}
use talepanel.Accounts.Register.{NewUser, check_formats}
use talepanel.Accounts.Setup.{
  has_users, unless_users, check_setup_code, create_owner, setup_owner, login_or_failed,
  code_checked, complete_setup,
}
use talepanel.Accounts.Owners.{IsOwned, unique_ids}
use talepanel.Accounts.Stable.{Preserves-issue_full_tokens}
use talepanel.Accounts.StableUsers.{Preserves-login_or_failed}
use talepanel.Accounts.Calls.{Call, run_calls}
use talepanel.Accounts.History.{IsOwned-stable, active_owner_kept}
use talepanel.Accounts.FirstOwner.{IsFirst, create_owner-IsFirst, unless_users-inv, setup_refused}

IsFirst-IsOwned :
    (email username : String) (db : Tables) → IsFirst email username db.users → IsOwned db
IsFirst-IsOwned email username db first = record {
  unique = ap unique_ids first.only;
  owner = ap (any is_active_owner) first.only ∙ ground (arith, first.active);
}

IsOwned-users : (db : Tables) → IsOwned db → has_users db ≡ true
IsOwned-users db owned = some_user db.users owned.owner
  where
    some_user : (us : List User) → any is_active_owner us ≡ true → not (length us == 0) ≡ true
    some_user [] h = absurd (ground arith)
    some_user (u ∷ us) h = ground arith

module _ (lib : Outside) (fresh : NewUser) (log_id : Uuid) (password : String) (client : Client)
    (draws : Draws) where
  -- What a setup has shown when it succeeds.
  pub record IsSetup (code_hash code : String) (before after : Tables) : Type 0 where
    pub empty : before.users ≡ []
    pub enabled : str_eq code_hash "" ≡ false
    pub code_right : check_setup_code lib code_hash code ≡ true
    pub strong : validate_password_for_role role_owner password ≡ ok tt
    pub owned : IsOwned after

  setup_owner-inv :
      (email username : String) (w : World) (r : LoginResult)
      → (setup_owner lib fresh log_id email username password client draws w).0 ≡ ok r
      → (w.db.users ≡ [])
        × (validate_password_for_role role_owner password ≡ ok tt)
        × IsOwned (setup_owner lib fresh log_id email username password client draws w).1.db
  unfolding setup_owner
  setup_owner-inv email username w r h =
      let (_, formats, h0, s0) = bind-inv (lift (check_formats email username)) _ w h in
      let (_, strong, h1, s1) =
        bind-inv (lift (validate_password_for_role role_owner password)) _ w h0 in
      let (hash, hashed, h2, s2) =
        bind-inv (found_or hashing_failed (lib.hash_password fresh.salt password)) _ w h1 in
      let (_, at) = found_or-inv hashing_failed (lib.hash_password fresh.salt password) w hashed in
      let v = (found_or hashing_failed (lib.hash_password fresh.salt password) w).1 in
      let body = create_owner lib fresh log_id email username hash client in
      let (user, made, h3, s3) = bind-inv (transaction body) _ v h2 in
      let (x, read, created, effect) = transaction-inv body v made in
      let (empty, first) =
        create_owner-IsFirst lib fresh log_id email username hash client x user created in
      let v' = (transaction body v).1 in
      let owned : IsOwned v'.db =
        subst IsOwned (sym effect) (IsFirst-IsOwned email username (body x).1.db first) in
      let end =
        (λ (y : User). attempt (issue_full_tokens lib y client draws) >>= login_or_failed) in
      let kept : Preserves IsOwned (end user) =
        Preserves-bind
          (Preserves-attempt (
            Preserves-issue_full_tokens lib (IsOwned-stable lib) user client draws (λ token e. tt)))
          (Preserves-login_or_failed lib (IsOwned-stable lib)) in
      (
        sym (
              ap (λ (db : Tables). db.users) read.db
              ∙ ap (λ (p : Result String × World). p.1.db.users) at)
            ∙ empty,
        strong,
        subst (λ (y : World). IsOwned y.db) (sym (s0 ∙ s1 ∙ s2 ∙ s3)) (kept.at v' owned),
      )

  code_checked-inv :
      (code_hash code : String) (w : World)
      → (code_checked lib code_hash code w).0 ≡ ok tt
      → (check_setup_code lib code_hash code ≡ true)
        × (code_checked lib code_hash code w ≡ (ok tt, w))
  code_checked-inv code_hash code w h = elim (Bool-cases (check_setup_code lib code_hash code)) [
    | inl right ↦ (right, ground (arith, right))
    | inr wrong ↦ absurd (ground (arith, wrong))
  ]

  -- A setup that succeeds had no user before it, the right code and a strong password, and leaves an
  -- active owner.
  pub complete_setup-IsSetup :
      (code_hash code email username : String) (w : World) (r : LoginResult)
      → (complete_setup lib code_hash fresh log_id code email username password client draws w).0
        ≡ ok r
      → IsSetup code_hash code w.db
          (complete_setup lib code_hash fresh log_id code email username password client draws
            w).1.db
  unfolding complete_setup
  complete_setup-IsSetup code_hash code email username w r h =
      elim (Bool-cases (str_eq code_hash "")) [
        | inl off ↦ absurd (ground (arith, off))
        | inr on ↦
            let own =
              setup_owner lib fresh log_id (normal_email lib email) (trim_space username) password
                client draws in
            let rest = (λ (_ : Unit {0}). code_checked lib code_hash code >> own) in
            let same : (unless_users >>= rest) w
                ≡ complete_setup lib code_hash fresh log_id code email username password client
                    draws w =
              ground (arith, on) in
            let (_, none_before, h1, s1) =
              bind-inv unless_users rest w
                (ap (λ (p : Result LoginResult × World). p.0) same ∙ h) in
            let (empty, read) = unless_users-inv w none_before in
            let v = (unless_users w).1 in
            let (_, checked, h2, s2) = bind-inv (code_checked lib code_hash code) (λ _. own) v h1 in
            let (right, at) = code_checked-inv code_hash code v checked in
            let (_, strong, owned) =
              setup_owner-inv (normal_email lib email) (trim_space username)
                (code_checked lib code_hash code v).1 r h2 in
            record {
              empty = empty;
              enabled = on;
              code_right = right;
              strong = strong;
              owned =
                  subst (λ (y : World). IsOwned y.db)
                    (sym (s1 ∙ s2) ∙ ap (λ (p : Result LoginResult × World). p.1) same) owned;
            }
      ]

-- After a setup that succeeds and any calls, no setup succeeds, and none changes a table.
pub setup_runs_once :
    (lib : Outside) (first second : NewUser) (first_log second_log : Uuid)
    (code_hash code other_hash other_code : String)
    (email username password other_email other_username other_password : String)
    (client other : Client) (draws again : Draws) (calls : List Call) (w v : World)
    (r r' : LoginResult)
    → (complete_setup lib code_hash first first_log code email username password client draws w).0
      ≡ ok r
    → v.db
      ≡ (run_calls lib calls
          (complete_setup lib code_hash first first_log code email username password client draws
            w).1).db
    → ((complete_setup lib other_hash second second_log other_code other_email other_username
          other_password other again v).0
        ≢ ok r')
      × ((complete_setup lib other_hash second second_log other_code other_email other_username
            other_password other again v).1.db
          ≡ v.db)
setup_runs_once lib first second first_log second_log code_hash code other_hash other_code email
      username password other_email other_username other_password client other draws again calls w v
      r r' h same =
    let made =
      complete_setup-IsSetup lib first first_log password client draws code_hash code email username
        w r h in
    let behind =
      (complete_setup lib code_hash first first_log code email username password client draws
        w).1 in
    setup_refused lib other_hash second second_log other_code other_email other_username
      other_password other again v r'
      (IsOwned-users v.db
        (subst IsOwned (sym same) (active_owner_kept lib calls behind made.owned)))
