-- ===== src/Auth/World/Keeps.antt =====
-- Invariants of auth-service's database under its actions: a rule for each way to build an action.
use seta_training.Prelude.{
  ℕ, String, Bool, true, false, Option, ◌≡◌, Result, ok, err, pure, raise, attempt, raise_if,
  continue, ◌>>=◌, arith, Result-cases, inl, inr,
}
use seta_training.Auth.Db.{Database, DbError}
use seta_training.Auth.World.{
  World, Error, Event, Action, one, many, exec, redis_has, redis_set, publish,
}

pub record Keeps {A : Type 0} (P : Database → Type 0) (m : Action A) : Type 0 where
  pub at : (w : World) → P w.db → P (m w).1.db

module _ {A : Type 0} {P : Database → Type 0} where
  pub Keeps-pure : (a : A) → Keeps P (pure {S = World} {E = Error} a)
  Keeps-pure a = record { at = λ w h. h }

  pub Keeps-raise : (e : Error) → Keeps P (raise {S = World} {A = A} e)
  Keeps-raise e = record { at = λ w h. h }

  pub Keeps-one : (f : Database → Option A) → Keeps P (one f)
  unfolding one
  Keeps-one f = record { at = λ w h. ground arith }

  pub Keeps-many : (f : Database → A) → Keeps P (many f)
  unfolding many
  Keeps-many f = record { at = λ w h. ground arith }

  -- A statement that writes keeps what its query keeps.
  pub Keeps-exec :
      (f : Database → Result DbError (A × Database))
      → ((d : Database) (a : A) (d' : Database) → f d ≡ ok (a, d') → P d → P d')
      → Keeps P (exec f)
  unfolding exec
  Keeps-exec f step = record {
    at = λ w h. elim (Result-cases (f w.db)) [
      | inr q ↦ ground (arith, h)
      | inl (a, q) ↦ ground (arith, h, step w.db a.0 a.1 q h)
    ];
  }

  pub Keeps-attempt : (m : Action A) → Keeps P m → Keeps P (attempt m)
  Keeps-attempt m km = record { at = λ w h. km.at w h }

module _ {P : Database → Type 0} where
  pub Keeps-raise_if : (b : Bool) (e : Error) → Keeps P (raise_if {S = World} b e)
  Keeps-raise_if true e = record { at = λ w h. h }
  Keeps-raise_if false e = record { at = λ w h. h }

  pub Keeps-redis_has : (key : String) → Keeps P (redis_has key)
  unfolding redis_has
  Keeps-redis_has key = record { at = λ w h. ground arith }

  pub Keeps-redis_set : (key : String) (ttl : ℕ) → Keeps P (redis_set key ttl)
  unfolding redis_set
  Keeps-redis_set key ttl = record { at = λ w h. ground arith }

  pub Keeps-publish : (topic : String) (e : Event) → Keeps P (publish topic e)
  unfolding publish
  Keeps-publish topic e = record { at = λ w h. ground arith }

module _ {A B : Type 0} {P : Database → Type 0} where
  Keeps-continue :
      (r : Result Error A) (f : A → Action B) (w : World)
      → ((a : A) → Keeps P (f a))
      → P w.db
      → P (continue r f w).1.db
  Keeps-continue (ok a) f w kf h = (kf a).at w h
  Keeps-continue (err e) f w kf h = h

  pub Keeps-bind :
      (m : Action A) (f : A → Action B) → Keeps P m → ((a : A) → Keeps P (f a)) → Keeps P (m >>= f)
  Keeps-bind m f km kf = record {
    at = λ w h. let (r, w') = m w in Keeps-continue r f w' kf (km.at w h);
  }

pub ruleset keeps_rules = (
  Keeps-pure, Keeps-raise, Keeps-one, Keeps-many, Keeps-attempt, Keeps-raise_if, Keeps-redis_has,
  Keeps-redis_set, Keeps-publish, Keeps-bind,
)
