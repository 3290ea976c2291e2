-- ===== src/Store/Laws.antt =====
-- Rules for programs over the database: what only reads, what is atomic, and what a successful
-- chain has gone through.
use talepanel.Base.{◌+◌, ◌≡◌, refl, ap, ◌∙◌, arith, Option, some, none}
use talepanel.Store.Tables.{Tables}
use talepanel.Store.Exec.{
  Err, Result, ok, err, World, Exec, pure, raise, lift, after, gets, ◌>>=◌, query, transaction,
  found_or, drawn, random_failed, Reads, Reads-trans,
}

Reads-refl : (w : World) → Reads w w
Reads-refl w = record { db = refl; faults = refl; now = refl; db_now = refl }

-- Only queries, on every branch.
pub record ReadsOnly {A : Type 0} (m : Exec A) : Type 0 where
  pub at : (w : World) → Reads w (m w).1

-- An error leaves the tables as they were.
pub record IsAtomic {A : Type 0} (m : Exec A) : Type 0 where
  pub at : (w : World) (e : Err) → (m w).0 ≡ err e → (m w).1.db ≡ w.db

pub ReadsOnly-pure : {A : Type 0} (a : A) → ReadsOnly (pure a)
ReadsOnly-pure a = record { at = Reads-refl }

pub ReadsOnly-raise : {A : Type 0} (e : Err) → ReadsOnly (raise {A = A} e)
ReadsOnly-raise e = record { at = Reads-refl }

pub ReadsOnly-lift : {A : Type 0} (r : Result A) → ReadsOnly (lift r)
ReadsOnly-lift r = record { at = Reads-refl }

pub ReadsOnly-gets : {A : Type 0} (f : World → A) → ReadsOnly (gets f)
ReadsOnly-gets f = record { at = Reads-refl }

pub ReadsOnly-query : {A : Type 0} (f : Tables → A) → ReadsOnly (query f)
unfolding query
ReadsOnly-query f = record { at = λ w. ground arith }

module _ {A B : Type 0} (f : A → Exec B) where
  after-Reads :
      (w : World) (r : Result A × World)
      → Reads w r.1
      → ((a : A) → ReadsOnly (f a))
      → Reads w (after r f).1
  after-Reads w (ok a, w') h k = Reads-trans h ((k a).at w')
  after-Reads w (err e, w') h k = h

  after-atomic :
      (w : World) (r : Result A × World) (e : Err)
      → Reads w r.1
      → ((a : A) → IsAtomic (f a))
      → (after r f).0 ≡ err e
      → (after r f).1.db ≡ w.db
  after-atomic w (ok a, w') e h k p = (k a).at w' e p ∙ h.db
  after-atomic w (err x, w') e h k p = h.db

  after-inv :
      (r : Result A × World) {b : B}
      → (after r f).0 ≡ ok b
      → (a : A) × (r.0 ≡ ok a) × ((f a r.1).0 ≡ ok b) × ((after r f).1 ≡ (f a r.1).1)
  after-inv (ok a, w') p = (a, refl, p, refl)
  after-inv (err x, w') p = cc

module _ {A B : Type 0} (m : Exec A) (f : A → Exec B) where
  pub ReadsOnly-bind : ReadsOnly m → ((a : A) → ReadsOnly (f a)) → ReadsOnly (m >>= f)
  ReadsOnly-bind h k = record { at = λ w. after-Reads f w (m w) (h.at w) k }

  pub IsAtomic-bind : ReadsOnly m → ((a : A) → IsAtomic (f a)) → IsAtomic (m >>= f)
  IsAtomic-bind h k = record { at = λ w e. after-atomic f w (m w) e (h.at w) k }

  -- A chain that succeeds: its first part did, and the rest from there.
  pub bind-inv :
      (w : World) {b : B}
      → ((m >>= f) w).0 ≡ ok b
      → (a : A) × ((m w).0 ≡ ok a) × ((f a (m w).1).0 ≡ ok b) × (((m >>= f) w).1 ≡ (f a (m w).1).1)
  bind-inv w p = after-inv f (m w) p

pub IsAtomic-reads : {A : Type 0} (m : Exec A) → ReadsOnly m → IsAtomic m
IsAtomic-reads m h = record { at = λ w e p. (h.at w).db }

-- A transaction that does not succeed leaves no trace in the tables.
pub IsAtomic-transaction : {A : Type 0} (body : Exec A) → IsAtomic (transaction body)
unfolding transaction
IsAtomic-transaction body = record { at = λ w e p. ground arith }

-- A transaction that succeeds has the effect of its body.
pub transaction-inv :
    {A : Type 0} (body : Exec A) (w : World) {a : A}
    → (transaction body w).0 ≡ ok a
    → (v : World) × (Reads w v) × ((body v).0 ≡ ok a) × ((transaction body w).1.db ≡ (body v).1.db)
unfolding transaction
transaction-inv body w p =
    (record w { calls = w.calls + 1 }, ground arith, ground arith, ground arith)

pub ReadsOnly-found_or : {A : Type 0} (e : Err) (o : Option A) → ReadsOnly (found_or e o)
ReadsOnly-found_or e none = ReadsOnly-raise e
ReadsOnly-found_or e (some a) = ReadsOnly-pure a

pub ReadsOnly-drawn : {A : Type 0} (o : Option A) → ReadsOnly (drawn o)
ReadsOnly-drawn none = ReadsOnly-raise random_failed
ReadsOnly-drawn (some a) = ReadsOnly-pure a

pub found_or-inv :
    {A : Type 0} (e : Err) (o : Option A) (w : World) {a : A}
    → (found_or e o w).0 ≡ ok a
    → (o ≡ some a) × (found_or e o w ≡ (ok a, w))
found_or-inv e none w h = cc
found_or-inv e (some b) w h = (cc, cc)

pub query-inv :
    {A : Type 0} (f : Tables → A) (w : World) {a : A} → (query f w).0 ≡ ok a → f w.db ≡ a
unfolding query
query-inv f w h = ground arith

pub drawn-inv :
    {A : Type 0} (o : Option A) (w : World) {a : A}
    → (drawn o w).0 ≡ ok a
    → (o ≡ some a) × (drawn o w ≡ (ok a, w))
drawn-inv none w h = cc
drawn-inv (some b) w h = (cc, cc)

-- A chain goes on from a first part that succeeds.
pub bind-ok :
    {A B : Type 0} (m : Exec A) (f : A → Exec B) (w : World) {a : A}
    → (m w).0 ≡ ok a
    → (m >>= f) w ≡ f a (m w).1
bind-ok {A = A} {B = B} m f w h = ap (λ (r : Result A). after {A = A} {B = B} (r, (m w).1) f) h
