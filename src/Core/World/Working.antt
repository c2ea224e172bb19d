-- ===== src/Core/World/Working.antt =====
-- The calls while all of them succeed: no entry of the outages is left.
use seta_training.Prelude.{
  ℕ, String, not, List, [], ◌∷◌, Option, ◌==◌, ◌≡◌, ok, arith, select, upsert, is_down, later, ◌+◌,
  find, Option-cases, inl, inr,
}
use seta_training.Core.Db.{Database}
use seta_training.Core.World.State.{Error, Document, Entry, Event, World, Action}
use seta_training.Core.World.Triple.{Preserves}
use seta_training.Core.World.Calls.{
  after_call, scanned, written, commit, one, many, exec, transaction, redis_get, redis_set,
  redis_del, publish, if_unexpired,
}

module _ (w : World) (up : w.outages ≡ []) where
  -- A call takes nothing of no outages.
  pub after_call-same : after_call w ≡ w
  unfolding later
  after_call-same = ground arith

  module _ {A : Type 0} where
    pub one_works : (f : Database → Option A) → one f w ≡ (scanned (f w.db), w)
    unfolding one is_down
    one_works f = ground (arith, after_call-same)

    pub many_works : (f : Database → A) → many f w ≡ (ok (f w.db), w)
    unfolding many is_down
    many_works f = ground (arith, after_call-same)

    pub exec_works :
        (e : Error) (f : Database → Option (A × Database)) → exec e f w ≡ written e (f w.db) w
    unfolding exec is_down
    exec_works e f = ground (arith, after_call-same)

  pub redis_get_works :
      (k : String)
      → redis_get k w ≡ (ok (if_unexpired w.db.now (find (λ e. e.key == k) w.redis)), w)
  unfolding redis_get is_down
  redis_get_works k = ground (arith, after_call-same)

  pub redis_del_works :
      (k : String)
      → redis_del k w ≡ (ok tt, record w { redis = select (λ e. not (e.key == k)) w.redis })
  unfolding redis_del is_down
  redis_del_works k = ground (arith, after_call-same)

  pub redis_set_works :
      (k : String) (v : Document) (ttl : ℕ)
      → redis_set k v ttl w ≡ (
        ok tt,
        record w {
          redis =
              upsert
                (λ e. e.key == k)
                (record { key = k; document = v; expires = w.db.now + ttl })
                w.redis;
        },
      )
  unfolding redis_set is_down
  redis_set_works k v ttl = ground (arith, after_call-same)

  pub publish_works :
      (topic : String) (e : Event)
      → publish topic e w
        ≡ (ok tt, record w { messages = record { topic = topic; payload = e } ∷ w.messages })
  unfolding publish is_down
  publish_works topic e = ground (arith, after_call-same)

  pub commit_works : {A : Type 0} (d : Database) (a : A) → commit d (ok a) w ≡ (ok a, w)
  unfolding is_down
  commit_works d a = ground (arith, after_call-same)

  pub transaction_works :
      {A : Type 0} (m : Action A) → transaction m w ≡ commit w.db (m w).0 (m w).1
  unfolding transaction is_down
  transaction_works m = ground (arith, after_call-same)

-- The calls of PostgreSQL leave Redis alone, and take nothing of no outages.
abbrev pub Quiet : List Entry → World → Type 0
Quiet r w = (w.redis ≡ r) × (w.outages ≡ [])

module _ (r : List Entry) {A : Type 0} where
  pub Quiet-many : (f : Database → A) → Preserves (Quiet r) (many f)
  Quiet-many f = record { at = λ w h. rw (many_works w h.1 f) h }

  pub Quiet-exec :
      (e : Error) (f : Database → Option (A × Database)) → Preserves (Quiet r) (exec e f)
  Quiet-exec e f = record {
    at = λ w h.
        rw (exec_works w h.1 e f)
          (elim (Option-cases (f w.db)) [ inl refused ↦ rw refused h | inr (y, done) ↦ rw done h ]);
  }
