-- ===== src/Core/World/Calls.antt =====
-- One call of a server. Each takes one entry of the outages, and a call that fails does nothing.
use seta_training.Prelude.{
  ℕ, ◌+◌, String, ◌∷◌, Option, none, some, Result, ok, err, is_down, later, find, select, upsert,
  not, ◌==◌, ltb, if◌then◌else◌,
}
use seta_training.Core.Db.{Database}
use seta_training.Core.World.State.{
  Error, no_rows, unavailable, Document, Entry, Event, World, Action,
}

abbrev pub after_call : World → World
after_call w = record w { outages = later w.outages }

module _ {A : Type 0} where
  -- What `Scan` makes of the row.
  abbrev pub scanned : Option A → Result Error A
  scanned none = err no_rows
  scanned (some a) = ok a

  -- `QueryRow(…).Scan(…)` of a `SELECT`.
  unfoldable pub one : (Database → Option A) → Action A
  one f w =
      if is_down w.outages
      then (err unavailable, after_call w)
      else (scanned (f w.db), after_call w)

  -- `Query(…)`, or a `SELECT` that always has a row.
  unfoldable pub many : (Database → A) → Action A
  many f w =
      if is_down w.outages then (err unavailable, after_call w) else (ok (f w.db), after_call w)

  abbrev pub written : Error → Option (A × Database) → World → Result Error A × World
  written e none w = (err e, w)
  written e (some (a, d)) w = (ok a, record w { db = d })

  -- A statement that writes. `e` is the error of the one that writes nothing: a violation for an
  -- `INSERT`, no row for an `UPDATE … RETURNING`.
  unfoldable pub exec : Error → (Database → Option (A × Database)) → Action A
  exec e f w =
      if is_down w.outages
      then (err unavailable, after_call w)
      else written e (f w.db) (after_call w)

  -- `tx.Commit(ctx)`: the deferred `tx.Rollback` undoes the writes of a transaction that returns
  -- early or cannot commit.
  abbrev pub commit : Database → Result Error A → World → Result Error A × World
  commit before (err e) w = (err e, record w { db = before })
  commit before (ok a) w =
      if is_down w.outages
      then (err unavailable, record w { db = before; outages = later w.outages })
      else (ok a, after_call w)

  unfoldable pub transaction : Action A → Action A
  transaction m w =
      if is_down w.outages
      then (err unavailable, after_call w)
      else let (r, w') = m (after_call w) in commit w.db r w'

abbrev pub if_unexpired : ℕ → Option Entry → Option Document
if_unexpired now none = none
if_unexpired now (some e) = if ltb now e.expires then some e.document else none

-- `rdb.Get(…).Result()`; the callers do not tell a missing key from an error.
unfoldable pub redis_get : String → Action (Option Document)
redis_get key w =
    if is_down w.outages
    then (ok none, after_call w)
    else (ok (if_unexpired w.db.now (find (λ e. e.key == key) w.redis)), after_call w)

-- `rdb.Set(…)`, whose error the callers drop. `ttl` is in seconds.
unfoldable pub redis_set : String → Document → ℕ → Action (Unit {0})
redis_set key document ttl w = if is_down w.outages then (ok tt, after_call w) else (
  ok tt,
  record w {
    redis =
        upsert (λ e. e.key == key)
          (record { key = key; document = document; expires = w.db.now + ttl }) w.redis;
    outages = later w.outages;
  },
)

-- `rdb.Del(…)`, whose error the callers drop.
unfoldable pub redis_del : String → Action (Unit {0})
redis_del key w = if is_down w.outages then (ok tt, after_call w) else (
  ok tt,
  record w { redis = select (λ e. not (e.key == key)) w.redis; outages = later w.outages },
)

-- `publisher.Publish(…)`, whose error the callers log and drop.
unfoldable pub publish : String → Event → Action (Unit {0})
publish topic event w = if is_down w.outages then (ok tt, after_call w) else (
  ok tt,
  record w {
    messages = record { topic = topic; payload = event } ∷ w.messages;
    outages = later w.outages;
  },
)
