-- ===== src/Core/Asset/Published.antt =====
-- What the asset service publishes while no call fails: one event for each change that succeeds and
-- that has one, and nothing for a request that is refused.
pub mod Requests
pub mod Shares
pub mod Run
use seta_training.Prelude.{
  ℕ, String, Bool, true, false, List, [], ◌∷◌, ◌++◌, Option, none, some, ◌≡◌, refl, ◌==◌, arith,
  Result, ok, err, Option-cases, inl, inr, if◌then◌else◌, select, upsert, pure,
}
use seta_training.Core.Db.{Database}
use seta_training.Core.Db.Assets
use seta_training.Core.World.{
  Error, World, Message, Document, Asset, asset_event, Action, one, many, exec, transaction, commit,
  redis_get, redis_set, redis_del,
}
use seta_training.Core.World.Triple.{Triple, Preserves, Preserves-state, Outcome}
use seta_training.Core.World.Working.{
  one_works, many_works, exec_works, redis_get_works, redis_set_works, redis_del_works,
  publish_works, transaction_works, commit_works,
}
use seta_training.Core.Asset.Repository
use seta_training.Core.Asset.{publish_event, when}
use seta_training.Core.Asset.Fresh.{asset_of}

-- The message of a change.
abbrev pub change : String → String → String → ℕ → Message
change event asset_id owner_id n = record {
  topic = "asset.changes";
  payload = asset_event event asset_id owner_id n;
}

-- The message, if it is sent.
abbrev pub sent_if : Bool → Message → List Message
sent_if true m = m ∷ []
sent_if false m = []

-- No call fails, the messages are these, and it is this time.
abbrev pub Sent : List Message → ℕ → World → Type 0
Sent ms n w = (w.messages ≡ ms) × (w.outages ≡ []) × (w.db.now ≡ n)

module _ (ms : List Message) (n : ℕ) where
  module _ {A : Type 0} where
    pub Sent-one : (f : Database → Option A) → Preserves (Sent ms n) (one f)
    Sent-one f = record {
      at = λ w h. rw (one_works w h.1 f) (elim (Option-cases (f w.db)) [
        | inl missing ↦ rw missing h
        | inr (a, found) ↦ rw found h
      ]);
    }

    pub Sent-many : (f : Database → A) → Preserves (Sent ms n) (many f)
    Sent-many f = record { at = λ w h. rw (many_works w h.1 f) h }

    -- A statement that leaves the clock alone.
    pub Sent-exec :
        (e : Error) (f : Database → Option (A × Database))
        → ((d : Database) (a : A) (d' : Database) → f d ≡ some (a, d') → d'.now ≡ d.now)
        → Preserves (Sent ms n) (exec e f)
    Sent-exec e f clock = record {
      at = λ w h. rw (exec_works w h.1 e f) (elim (Option-cases (f w.db)) [
        | inl refused ↦ rw refused h
        | inr (y, done) ↦ rw done (h.0, h.1, ground (arith, clock w.db y.0 y.1 done))
      ]);
    }

    commit-Sent :
        (d : Database) (r : Result Error A) (v : World)
        → d.now ≡ n
        → Sent ms n v
        → Outcome (λ (a : A). Sent ms n) (Sent ms n) (commit d r v)
    commit-Sent d (ok a) v same h = rw (commit_works v h.1 d a) h
    commit-Sent d (err e) v same h = (h.0, h.1, same)

    pub Sent-transaction :
        (m : Action A) → Preserves (Sent ms n) m → Preserves (Sent ms n) (transaction m)
    Sent-transaction m t = record {
      at = λ w h.
          rw (transaction_works w h.1 m)
            (let (r, v) = m w in commit-Sent w.db r v h.2 (Preserves-state (Sent ms n) m t w h));
    }

  pub Sent-redis_get : (k : String) → Preserves (Sent ms n) (redis_get k)
  Sent-redis_get k = record { at = λ w h. rw (redis_get_works w h.1 k) h }

  pub Sent-redis_set :
      (k : String) (v : Document) (ttl : ℕ) → Preserves (Sent ms n) (redis_set k v ttl)
  Sent-redis_set k v ttl = record { at = λ w h. rw (redis_set_works w h.1 k v ttl) h }

  module _ (R : World → Type 0) where
    pub Sent-redis_del : (k : String) → Triple (Sent ms n) (redis_del k) (λ _. Sent ms n) R
    Sent-redis_del k = record { at = λ w h. rw (redis_del_works w h.1 k) h }

    pub Sent-publish :
        (t a o : String)
        → Triple (Sent ms n) (publish_event t a o) (λ _. Sent (change t a o n ∷ ms) n) R
    unfolding publish_event
    Sent-publish t a o = record {
      at = λ w h.
          rw (publish_works w h.1 "asset.changes" (asset_event t a o w.db.now))
            (ground arith, h.1, h.2);
    }

    pub Sent-when :
        (b : Bool) (t a o : String)
        → Triple
            (Sent ms n)
            (when b (publish_event t a o))
            (λ _. Sent (sent_if b (change t a o n) ++ ms) n)
            R
    Sent-when true t a o = Sent-publish t a o
    Sent-when false t a o = record { at = λ w h. h }

  -- The repository finds the asset that the tables hold, if any.
  pub Sent-get_found :
      (a : String) (o : Option Asset)
      → Triple
          (λ w. Sent ms n w × (asset_of a w.db ≡ o))
          (Repository.get_by_id a)
          (λ x w. Sent ms n w × (o ≡ some x))
          (Sent ms n)
  unfolding Repository.get_by_id
  Sent-get_found a o = record {
    at = λ w h.
        rw (one_works w h.0.1 (Assets.get_asset_by_id a))
          (elim (Option-cases (Assets.get_asset_by_id a w.db)) [
            | inl missing ↦ rw missing h.0
            | inr (row, found) ↦ rw found (h.0, ground arith)
          ]);
  }
