-- ===== src/Store/Preserve.antt =====
-- Invariants of the tables: programs that keep a property of the tables on every branch, whatever
-- statements fail.
use talepanel.Base.{
  ◌+◌, Bool, true, false, Option, some, none, if◌then◌else◌, ◌≡◌, refl, sym, subst, Bool-cases, inl,
  inr, String, arith,
}
use talepanel.Store.Tables.{Time, Tables}
use talepanel.Store.Exec.{
  Err, Result, ok, err, World, RedisValue, Exec, pure, raise, lift, after, gets, ◌>>=◌, write,
  statement, query, execute, attempt, transaction, restored, found_or, drawn, random_failed,
}
use talepanel.Store.Redis.{redis_get, redis_set}

pub record Preserves (P : Tables → Type 0) {A : Type 0} (m : Exec A) : Type 0 where
  pub at : (w : World) → P w.db → P (m w).1.db

-- Rolled back or committed.
restored-keeps :
    {A : Type 0} (P : Tables → Type 0) (before : Tables) (r : Result A × World)
    → P before
    → P r.1.db
    → P (restored before r).1.db
restored-keeps P before (ok a, w) h k = k
restored-keeps P before (err e, w) h k = h

module _ {P : Tables → Type 0} where
  pub Preserves-pure : {A : Type 0} (a : A) → Preserves P (pure a)
  Preserves-pure a = record { at = λ w h. h }

  pub Preserves-raise : {A : Type 0} (e : Err) → Preserves P (raise {A = A} e)
  Preserves-raise e = record { at = λ w h. h }

  pub Preserves-lift : {A : Type 0} (r : Result A) → Preserves P (lift r)
  Preserves-lift r = record { at = λ w h. h }

  pub Preserves-gets : {A : Type 0} (f : World → A) → Preserves P (gets f)
  Preserves-gets f = record { at = λ w h. h }

  pub Preserves-statement : Preserves P statement
  unfolding statement
  Preserves-statement = record { at = λ w h. h }

  pub Preserves-found_or : {A : Type 0} (e : Err) (o : Option A) → Preserves P (found_or e o)
  Preserves-found_or e none = Preserves-raise e
  Preserves-found_or e (some a) = Preserves-pure a

  pub Preserves-drawn : {A : Type 0} (o : Option A) → Preserves P (drawn o)
  Preserves-drawn none = Preserves-raise random_failed
  Preserves-drawn (some a) = Preserves-pure a

  pub Preserves-write :
      (f : Tables → Tables) → ((db : Tables) → P db → P (f db)) → Preserves P (write f)
  Preserves-write f k = record { at = λ w h. k w.db h }

  pub Preserves-if :
      {A : Type 0} (b : Bool) {m k : Exec A}
      → Preserves P m
      → Preserves P k
      → Preserves P (if b then m else k)
  Preserves-if true hm hk = hm
  Preserves-if false hm hk = hk

  after-Preserves :
      {A B : Type 0} (f : A → Exec B) (r : Result A × World)
      → P r.1.db
      → ((a : A) → Preserves P (f a))
      → P (after r f).1.db
  after-Preserves f (ok a, w) h k = (k a).at w h
  after-Preserves f (err e, w) h k = h

  pub Preserves-bind :
      {A B : Type 0} {m : Exec A} {f : A → Exec B}
      → Preserves P m
      → ((a : A) → Preserves P (f a))
      → Preserves P (m >>= f)
  Preserves-bind {m = m} {f = f} hm hf = record {
    at = λ w h. after-Preserves f (m w) (hm.at w h) hf;
  }

  -- What was drawn is known to the rest.
  pub Preserves-drawn_bind :
      {A B : Type 0} (o : Option A) {f : A → Exec B}
      → ((a : A) → o ≡ some a → Preserves P (f a))
      → Preserves P (drawn o >>= f)
  Preserves-drawn_bind none k = record { at = λ w h. h }
  Preserves-drawn_bind (some a) k = record { at = (k a refl).at }

  -- What was found is known to the rest.
  pub Preserves-found_bind :
      {A B : Type 0} (e : Err) (o : Option A) {f : A → Exec B}
      → ((a : A) → o ≡ some a → Preserves P (f a))
      → Preserves P (found_or e o >>= f)
  Preserves-found_bind e none k = record { at = λ w h. h }
  Preserves-found_bind e (some a) k = record { at = (k a refl).at }

  -- The outcome of a test is known to its branches.
  pub Preserves-test :
      {A : Type 0} (b : Bool) {m k : Exec A}
      → (b ≡ true → Preserves P m)
      → (b ≡ false → Preserves P k)
      → Preserves P (if b then m else k)
  Preserves-test true hm hk = record { at = (hm refl).at }
  Preserves-test false hm hk = record { at = (hk refl).at }

  pub Preserves-query : {A : Type 0} (f : Tables → A) → Preserves P (query f)
  unfolding query
  Preserves-query f = Preserves-bind Preserves-statement λ _. Preserves-gets (λ w. f w.db)

  pub Preserves-execute :
      (f : Tables → Tables) → ((db : Tables) → P db → P (f db)) → Preserves P (execute f)
  unfolding execute
  Preserves-execute f k = Preserves-bind Preserves-statement λ _. Preserves-write f k

  pub Preserves-attempt : {A : Type 0} {m : Exec A} → Preserves P m → Preserves P (attempt m)
  unfolding attempt
  Preserves-attempt hm = record { at = λ w h. hm.at w h }

  pub Preserves-redis_get : (key : String) → Preserves P (redis_get key)
  unfolding redis_get
  Preserves-redis_get key = Preserves-bind Preserves-statement λ _. record { at = λ w h. h }

  pub Preserves-redis_set :
      (key : String) (value : RedisValue) (ttl : Time) → Preserves P (redis_set key value ttl)
  unfolding redis_set
  Preserves-redis_set key value ttl =
      Preserves-bind Preserves-statement λ _. record { at = λ w h. h }

  pub Preserves-transaction :
      {A : Type 0} {body : Exec A} → Preserves P body → Preserves P (transaction body)
  unfolding transaction
  Preserves-transaction {body = body} kept =
      let chain =
        Preserves-bind Preserves-statement
          λ _. Preserves-bind kept λ r. Preserves-bind Preserves-statement λ _. Preserves-pure r in
      record { at = λ w h. restored-keeps P w.db _ h (chain.at w h) }

  -- The rest knows that the answer was read from tables with the property.
  pub Preserves-query_bind :
      {A B : Type 0} (f : Tables → A) (k : A → Exec B)
      → ((db : Tables) → P db → Preserves P (k (f db)))
      → Preserves P (query f >>= k)
  unfolding query statement
  Preserves-query_bind f k kept = record {
    at = λ w h.
        let v = record w { calls = w.calls + 1 } in
        elim (Bool-cases (w.faults w.calls)) [
          | inl lost ↦
              let same : ((query f >>= k) w).1.db ≡ w.db = ground (arith, lost) in
              subst P (sym same) h
          | inr sent ↦
              let same : (k (f w.db) v).1.db ≡ ((query f >>= k) w).1.db = ground (arith, sent) in
              subst P same ((kept w.db h).at v h)
        ];
  }
