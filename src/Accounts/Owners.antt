-- ===== src/Accounts/Owners.antt =====
-- Whether a table of users has an active owner, and what keeps one: the list lemmas behind the
-- invariant of the accounts.
use talepanel.Base.{
  ℕ, Bool, true, false, not, ◌&&◌, ◌||◌, some, List, [], ◌∷◌, ◌++◌, any, find, select, count_where,
  update_where, ◌≡◌, ◌≢◌, arith,
}
use talepanel.Store.Tables.{Uuid, User, Tables}
use talepanel.Accounts.Tokens.{has_user_id}
use talepanel.Accounts.Admin.{is_active_owner}

abbrev pub unique_ids : List User → Bool
unique_ids [] = true
unique_ids (u ∷ us) = not (any (has_user_id u.id) us) && unique_ids us

-- The primary key of users, and an owner who can sign in.
pub record IsOwned (db : Tables) : Type 0 where
  pub unique : unique_ids db.users ≡ true
  pub owner : any is_active_owner db.users ≡ true

-- A change of a row that keeps its key.
abbrev pub KeepsId : (User → User) → Type 0
KeepsId f = (u : User) → (f u).id ≡ u.id

any_id-update :
    (id other : Uuid) (f : User → User) (us : List User)
    → KeepsId f
    → any (has_user_id other) (update_where (has_user_id id) f us) ≡ any (has_user_id other) us
any_id-update id other f [] keeps = ground arith
any_id-update id other f (u ∷ us) keeps = ground (arith, keeps u, any_id-update id other f us keeps)

pub unique_ids-update :
    (id : Uuid) (f : User → User) (us : List User)
    → KeepsId f
    → unique_ids us ≡ true
    → unique_ids (update_where (has_user_id id) f us) ≡ true
unique_ids-update id f [] keeps h = ground arith
unique_ids-update id f (u ∷ us) keeps h = ground (
  arith,
  keeps u,
  any_id-update id u.id f us keeps,
  any_id-update id (f u).id f us keeps,
  unique_ids-update id f us keeps,
)

any_id-select :
    (id other : Uuid) (us : List User)
    → any (has_user_id other) us ≡ false
    → any (has_user_id other) (select (λ u. not (has_user_id id u)) us) ≡ false
any_id-select id other [] h = ground arith
any_id-select id other (u ∷ us) h = ground (arith, any_id-select id other us)

pub unique_ids-select :
    (id : Uuid) (us : List User)
    → unique_ids us ≡ true
    → unique_ids (select (λ u. not (has_user_id id u)) us) ≡ true
unique_ids-select id [] h = ground arith
unique_ids-select id (u ∷ us) h = ground (arith, any_id-select id u.id us, unique_ids-select id us)

abbrev others : Uuid → List User → ℕ
others id us = count_where (λ (u : User). is_active_owner u && not (has_user_id id u)) us

-- Another active owner outlives whatever becomes of the row `id`.
pub other_owner-update :
    (id : Uuid) (f : User → User) (us : List User)
    → others id us ≢ 0
    → any is_active_owner (update_where (has_user_id id) f us) ≡ true
other_owner-update id f [] h = absurd (ground arith)
other_owner-update id f (u ∷ us) h = ground (arith, other_owner-update id f us)

pub other_owner-select :
    (id : Uuid) (us : List User)
    → others id us ≢ 0
    → any is_active_owner (select (λ u. not (has_user_id id u)) us) ≡ true
other_owner-select id [] h = absurd (ground arith)
other_owner-select id (u ∷ us) h = ground (arith, other_owner-select id us)

-- The row `id` is an active owner after its change.
pub owner_made-update :
    (id : Uuid) (f : User → User) (us : List User) (t : User)
    → find (has_user_id id) us ≡ some t
    → is_active_owner (f t) ≡ true
    → any is_active_owner (update_where (has_user_id id) f us) ≡ true
owner_made-update id f [] t found made = absurd (ground arith)
owner_made-update id f (u ∷ us) t found made = ground (arith, owner_made-update id f us t)

absent_others :
    (id : Uuid) (us : List User)
    → any (has_user_id id) us ≡ false
    → any is_active_owner us ≡ true
    → others id us ≢ 0
absent_others id [] absent owner = absurd (ground arith)
absent_others id (u ∷ us) absent owner = ground (arith, absent_others id us)

-- The row `id` is no active owner, so another one is.
pub idle_others :
    (id : Uuid) (us : List User) (t : User)
    → unique_ids us ≡ true
    → any is_active_owner us ≡ true
    → find (has_user_id id) us ≡ some t
    → is_active_owner t ≡ false
    → others id us ≢ 0
idle_others id [] t unique owner found idle = absurd (ground arith)
idle_others id (u ∷ us) t unique owner found idle =
    ground (arith, absent_others id us, absent_others u.id us, idle_others id us t)

-- A change that touches neither the role nor the state of a row.
pub owner-update :
    (id : Uuid) (f : User → User) (us : List User)
    → ((u : User) → is_active_owner (f u) ≡ is_active_owner u)
    → any is_active_owner (update_where (has_user_id id) f us) ≡ any is_active_owner us
owner-update id f [] same = ground arith
owner-update id f (u ∷ us) same = ground (arith, same u, owner-update id f us same)

pub owner-append :
    (us : List User) (u : User)
    → any is_active_owner us ≡ true
    → any is_active_owner (us ++ u ∷ []) ≡ true
owner-append [] u h = ground arith
owner-append (v ∷ us) u h = ground (arith, owner-append us u)

any_id-append :
    (id : Uuid) (us : List User) (u : User)
    → any (has_user_id id) (us ++ u ∷ []) ≡ (any (has_user_id id) us || has_user_id id u)
any_id-append id [] u = ground arith
any_id-append id (v ∷ us) u = ground (arith, any_id-append id us u)

pub unique_ids-append :
    (us : List User) (u : User)
    → unique_ids us ≡ true
    → any (has_user_id u.id) us ≡ false
    → unique_ids (us ++ u ∷ []) ≡ true
unique_ids-append [] u h fresh = ground arith
unique_ids-append (v ∷ us) u h fresh =
    ground (arith, any_id-append v.id us u, unique_ids-append us u)
