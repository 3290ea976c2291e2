-- ===== src/Accounts/Found.antt =====
-- What findUserByID and findUserByEmail return: the row of the table, with its secret decrypted or
-- left out.
use mathlib.Core.Option
use talepanel.Base.{
  ◌+◌, String, false, Option, some, none, str_eq, find, if◌then◌else◌, ◌≡◌, sym, ap, ◌∙◌, arith,
  Option-cases, Bool-cases, inl, inr,
}
use talepanel.Store.Tables.{Uuid, User, without_secret, Tables}
use talepanel.Store.Exec.{Result, ok, World, query, statement}
use talepanel.Accounts.Outside.{Outside, citext_eq}
use talepanel.Accounts.Tokens.{has_user_id, decrypted, with_secret, find_user_by_id}

module _ (lib : Outside) where
  abbrev decoded : User → Option String → Option User
  decoded user none = none
  decoded user (some secret) = some (record user { totp_secret = secret })

  -- A stored user with its secret decrypted, if there is one.
  abbrev pub opened : User → Option User
  opened stored =
      if str_eq stored.totp_secret ""
      then some stored
      else decoded stored (lib.decrypt stored.totp_secret)

  decrypted-inv :
      (stored user : User) (o : Option String) (w : World)
      → (decrypted lib stored o w).0 ≡ ok user
      → (decoded stored o ≡ some user) × (decrypted lib stored o w ≡ (ok user, w))
  decrypted-inv stored user none w h = cc
  decrypted-inv stored user (some secret) w h = (cc, cc)

  with_secret-inv :
      (stored user : User) (w : World)
      → (with_secret lib stored w).0 ≡ ok user
      → (opened stored ≡ some user) × (with_secret lib stored w ≡ (ok user, w))
  with_secret-inv stored user w h = elim (Bool-cases (str_eq stored.totp_secret "")) [
    | inl null ↦ (ground (arith, null), ground (arith, null))
    | inr kept ↦
        let same : with_secret lib stored w
            ≡ decrypted lib stored (lib.decrypt stored.totp_secret) w =
          ground (arith, kept) in
        let (a, b) =
          decrypted-inv stored user (lib.decrypt stored.totp_secret) w
            (ap (λ (p : Result User × World). p.0) (sym same) ∙ h) in
        (ground (arith, kept, a), same ∙ b)
  ]

  pub find_user_by_id-inv :
      (id : Uuid) (w : World) (user : User)
      → (find_user_by_id lib id w).0 ≡ ok user
      → (stored : User) × (find (has_user_id id) w.db.users ≡ some stored)
        × (opened stored ≡ some user)
        × (find_user_by_id lib id w ≡ (ok user, record w { calls = w.calls + 1 }))
  unfolding find_user_by_id query statement
  find_user_by_id-inv id w user h = elim (Option-cases (find (has_user_id id) w.db.users)) [
    | inl absent ↦ absurd (ground (arith, absent))
    | inr (stored, e) ↦
        let v = record w { calls = w.calls + 1 } in
        let sent : w.faults w.calls ≡ false = ground arith in
        let same : find_user_by_id lib id w ≡ with_secret lib stored v = ground (arith, e, sent) in
        let (a, b) =
          with_secret-inv stored user v (ap (λ (p : Result User × World). p.0) (sym same) ∙ h) in
        (stored, e, a, same ∙ b)
  ]

  with_secret-ok :
      (stored user : User) (w : World)
      → opened stored ≡ some user
      → with_secret lib stored w ≡ (ok user, w)
  with_secret-ok stored user w h = elim (Bool-cases (str_eq stored.totp_secret "")) [
    | inl null ↦ ground (arith, null)
    | inr kept ↦ elim (Option-cases (lib.decrypt stored.totp_secret)) [
      | inl sealed ↦ absurd (ground (arith, kept, sealed))
      | inr (secret, e) ↦ ground (arith, kept, e)
    ]
  ]

  -- When its query does not fail, a stored user whose secret can be decrypted is found.
  pub find_user_by_id-ok :
      (id : Uuid) (w : World) (stored user : User)
      → w.faults w.calls ≡ false
      → find (has_user_id id) w.db.users ≡ some stored
      → opened stored ≡ some user
      → find_user_by_id lib id w ≡ (ok user, record w { calls = w.calls + 1 })
  unfolding find_user_by_id query statement
  find_user_by_id-ok id w stored user sent found can =
      ground (arith, sent, found, with_secret-ok stored user (record w { calls = w.calls + 1 }) can)

  -- Decryption changes the secret alone.
  pub opened-same :
      (stored user : User)
      → opened stored ≡ some user
      → record user { totp_secret = "" } ≡ record stored { totp_secret = "" }
  opened-same stored user h = elim (Bool-cases (str_eq stored.totp_secret "")) [
    | inl null ↦ ground (arith, null)
    | inr kept ↦ elim (Option-cases (lib.decrypt stored.totp_secret)) [
      | inl sealed ↦ absurd (ground (arith, kept, sealed))
      | inr (secret, e) ↦ ground (arith, kept, e)
    ]
  ]

  -- The user with an email, as login sees it.
  abbrev pub user_with_email : String → Tables → Option User
  user_with_email email db =
      Option.map without_secret (find (λ (u : User). citext_eq lib u.email email) db.users)
