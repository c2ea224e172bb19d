-- ===== src/Core/World/Keeps.antt =====
-- Invariants of the database under the actions of a service: one rule for each way to build an
-- action, so that a method keeps what the queries that it runs keep, whichever calls fail.
use seta_training.Prelude.{
  ℕ, String, Bool, true, false, Option, some, ◌≡◌, Result, ok, err, pure, raise, attempt, raise_if,
  continue, ◌>>=◌, later, arith, Option-cases, inl, inr, if◌then◌else◌,
}
use seta_training.Core.Db.{Database}
use seta_training.Core.World.State.{Error, Document, Event, World, Action, or_missing}
use seta_training.Core.World.Calls.{
  one, many, exec, transaction, redis_get, redis_set, redis_del, publish,
}

pub record Keeps {A : Type 0} (P : Database → Type 0) (m : Action A) : Type 0 where
  pub at : (w : World) → P w.db → P (m w).1.db

module _ {A : Type 0} {P : Database → Type 0} where
  pub Keeps-pure : (a : A) → Keeps P (pure {S = World} {E = Error} a)
  Keeps-pure a = record { at = λ w h. h }

  pub Keeps-raise : (e : Error) → Keeps P (raise {S = World} {A = A} e)
  Keeps-raise e = record { at = λ w h. h }

  pub Keeps-one : (f : Database → Option A) → Keeps P (one f)
  unfolding one
  Keeps-one f = record { at = λ w h. ground arith }

  pub Keeps-many : (f : Database → A) → Keeps P (many f)
  unfolding many
  Keeps-many f = record { at = λ w h. ground arith }

  -- A statement that writes keeps what its query keeps.
  pub Keeps-exec :
      (e : Error) (f : Database → Option (A × Database))
      → ((d : Database) (a : A) (d' : Database) → f d ≡ some (a, d') → P d → P d')
      → Keeps P (exec e f)
  unfolding exec
  Keeps-exec e f step = record {
    at = λ w h. elim (Option-cases (f w.db)) [
      | inl q ↦ ground (arith, h)
      | inr (a, q) ↦ ground (arith, h, step w.db a.0 a.1 q h)
    ];
  }

  -- A transaction that fails, in a statement or in its commit, is undone.
  pub Keeps-transaction : (m : Action A) → Keeps P m → Keeps P (transaction m)
  unfolding transaction
  Keeps-transaction m km = record {
    at = λ w h. ground (arith, h, km.at (record w { outages = later w.outages }) h);
  }

  pub Keeps-attempt : (m : Action A) → Keeps P m → Keeps P (attempt m)
  Keeps-attempt m km = record { at = λ w h. km.at w h }

  pub Keeps-or_missing : (e : Error) (m : Action A) → Keeps P m → Keeps P (or_missing e m)
  Keeps-or_missing e m km = record { at = λ w h. km.at w h }

  pub Keeps-if : (b : Bool) (m n : Action A) → Keeps P m → Keeps P n → Keeps P (if b then m else n)
  Keeps-if true m n km kn = km
  Keeps-if false m n km kn = kn

module _ {P : Database → Type 0} where
  pub Keeps-raise_if : (b : Bool) (e : Error) → Keeps P (raise_if {S = World} b e)
  Keeps-raise_if true e = record { at = λ w h. h }
  Keeps-raise_if false e = record { at = λ w h. h }

  pub Keeps-redis_get : (key : String) → Keeps P (redis_get key)
  unfolding redis_get
  Keeps-redis_get key = record { at = λ w h. ground arith }

  pub Keeps-redis_set : (key : String) (v : Document) (ttl : ℕ) → Keeps P (redis_set key v ttl)
  unfolding redis_set
  Keeps-redis_set key v ttl = record { at = λ w h. ground arith }

  pub Keeps-redis_del : (key : String) → Keeps P (redis_del key)
  unfolding redis_del
  Keeps-redis_del key = record { at = λ w h. ground arith }

  pub Keeps-publish : (topic : String) (e : Event) → Keeps P (publish topic e)
  unfolding publish
  Keeps-publish topic e = record { at = λ w h. ground arith }

module _ {A B : Type 0} {P : Database → Type 0} where
  Keeps-continue :
      (r : Result Error A) (f : A → Action B) (w : World)
      → ((a : A) → Keeps P (f a))
      → P w.db
      → P (continue r f w).1.db
  Keeps-continue (ok a) f w kf h = (kf a).at w h
  Keeps-continue (err e) f w kf h = h

  pub Keeps-bind :
      (m : Action A) (f : A → Action B) → Keeps P m → ((a : A) → Keeps P (f a)) → Keeps P (m >>= f)
  Keeps-bind m f km kf = record {
    at = λ w h. let (r, w') = m w in Keeps-continue r f w' kf (km.at w h);
  }

pub ruleset keeps_rules = (
  Keeps-pure, Keeps-raise, Keeps-one, Keeps-many, Keeps-transaction, Keeps-attempt,
  Keeps-or_missing, Keeps-raise_if, Keeps-redis_get, Keeps-redis_set, Keeps-redis_del,
  Keeps-publish, Keeps-if, Keeps-bind,
)
