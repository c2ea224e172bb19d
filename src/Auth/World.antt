-- ===== src/Auth/World.antt =====
-- What a request to auth-service reads and writes: PostgreSQL, Redis and Kafka. Each call takes the
-- next entry of the outages, which says whether it fails; a call that fails does nothing.
pub mod Keeps
use seta_training.Prelude.{
  ℕ, ◌+◌, String, Bool, true, false, List, [], ◌∷◌, Option, none, some, ◌==◌, ltb, Result, ok, err,
  Exec, pure, is_down, later, find, upsert, if◌then◌else◌,
}
use seta_training.Auth.Db.{Database, DbError, no_rows, unavailable}

-- auth/model.go, user/model.go, and the errors of the libraries and of the servers.
pub data Error : Type 0 where
  invalid_token token_revoked : Error
  email_in_use invalid_credentials : Error
  sign_failed hash_failed redis_failed cancelled : Error
  database : DbError → Error

-- user/model.go
pub data Event : Type 0 where
  user_event : (type user_id user_name email role : String) → Event
  users_imported : (succeeded failed : ℕ) → Event

pub record Message : Type 0 where
  pub topic : String
  pub payload : Event

-- A key of Redis with the time from which it is gone.
pub record Entry : Type 0 where
  pub key : String
  pub expires : ℕ

pub record World : Type 0 where
  pub db : Database
  pub redis : List Entry
  -- the newest first
  pub messages : List Message
  pub outages : List Bool

abbrev pub Action : Type 0 → Type 0
Action A = Exec World Error A

abbrev pub after_call : World → World
after_call w = record w { outages = later w.outages }

module _ {A : Type 0} where
  abbrev scanned : Option A → Result Error A
  scanned none = err (database no_rows)
  scanned (some a) = ok a

  -- `QueryRow(…).Scan(…)` of a `SELECT`.
  unfoldable pub one : (Database → Option A) → Action A
  one f w =
      if is_down w.outages
      then (err (database unavailable), after_call w)
      else (scanned (f w.db), after_call w)

  -- `Query(…)`, or a `SELECT` that always has a row.
  unfoldable pub many : (Database → A) → Action A
  many f w =
      if is_down w.outages
      then (err (database unavailable), after_call w)
      else (ok (f w.db), after_call w)

  abbrev written : Result DbError (A × Database) → World → Result Error A × World
  written (err e) w = (err (database e), w)
  written (ok (a, d)) w = (ok a, record w { db = d })

  -- A statement that writes.
  unfoldable pub exec : (Database → Result DbError (A × Database)) → Action A
  exec f w =
      if is_down w.outages
      then (err (database unavailable), after_call w)
      else written (f w.db) (after_call w)

abbrev pub is_unexpired : ℕ → Option Entry → Bool
is_unexpired now none = false
is_unexpired now (some e) = ltb now e.expires

-- `redis.Get(…).Err()`: true if there is such a key.
unfoldable pub redis_has : String → Action Bool
redis_has key w =
    if is_down w.outages
    then (err redis_failed, after_call w)
    else (ok (is_unexpired w.db.now (find (λ e. e.key == key) w.redis)), after_call w)

-- `redis.Set(…)`; `ttl` is in seconds.
unfoldable pub redis_set : String → ℕ → Action (Unit {0})
redis_set key ttl w = if is_down w.outages then (err redis_failed, after_call w) else (
  ok tt,
  record w {
    redis = upsert (λ e. e.key == key) (record { key = key; expires = w.db.now + ttl }) w.redis;
    outages = later w.outages;
  },
)

-- `publish`, whose error is logged and dropped.
unfoldable pub publish : String → Event → Action (Unit {0})
publish topic event w = if is_down w.outages then (ok tt, after_call w) else (
  ok tt,
  record w {
    messages = record { topic = topic; payload = event } ∷ w.messages;
    outages = later w.outages;
  },
)
