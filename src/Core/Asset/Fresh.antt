-- ===== src/Core/Asset/Fresh.antt =====
-- The cached assets and grants against the database: what each call of the servers keeps of it.
pub mod Reads
pub mod Answers
pub mod Changes
pub mod Writes
pub mod Grants
pub mod Shares
pub mod Deletes
pub mod Requests
use seta_training.Prelude.{
  ℕ, String, Bool, true, false, ◌||◌, List, map, Option, none, some, ◌≡◌, ◌==◌, refl, Result, ok,
  err, arith, eq_iff, Option-cases, Bool-cases, inl, inr, [],
}
use seta_training.Core.Db.{Database}
use seta_training.Core.Db.Assets
use seta_training.Core.Db.Acl
use seta_training.Core.World.{
  Error, Event, World, Asset, AssetAcl, one, many, exec, redis_get, redis_del, redis_set, publish,
  asset_document, acl_document,
}
use seta_training.Core.World.Keys.{asset_key, asset_acl_key, asset_key-==, asset_acl_key-==}
use seta_training.Core.World.Triple.{Triple, Preserves}
use seta_training.Core.World.Working.{
  one_works, many_works, exec_works, redis_get_works, redis_del_works, redis_set_works,
  publish_works,
}
use seta_training.Core.World.Redis.{find-dropped, find-put}
use seta_training.Core.Asset.Repository.{row_to_acl}
use seta_training.Core.Asset.Reading.{asset_in_cache, acl_in_cache, asset_in_db}

-- The assets and the grants in the database.
abbrev pub asset_of : String → Database → Option Asset
asset_of b d = asset_in_db (Assets.get_asset_by_id b d)

abbrev pub grants_of : String → Database → List AssetAcl
grants_of b d = map row_to_acl (Acl.list_asset_acl b d)

-- No call fails, and what the cache holds is what the database holds, but perhaps of the assets that
-- `sa` admits and of the grants on those that `sg` admits.
pub record IsFresh (sa sg : String → Bool) (w : World) : Type 0 where
  pub calls : w.outages ≡ []
  pub assets :
      (b : String) (x : Asset)
      → sa b ≡ false
      → asset_in_cache b w ≡ some x
      → asset_of b w.db ≡ some x
  pub grants :
      (b : String) (es : List AssetAcl)
      → sg b ≡ false
      → acl_in_cache b w ≡ some es
      → grants_of b w.db ≡ es

abbrev pub nothing : String → Bool
nothing b = false

-- A database that has lost or changed assets and grants only where it may; it may have more assets.
pub record Agrees (sa sg : String → Bool) (d d' : Database) : Type 0 where
  pub clock : d'.now ≡ d.now
  pub assets :
      (b : String) (x : Asset) → sa b ≡ false → asset_of b d ≡ some x → asset_of b d' ≡ some x
  pub grants : (b : String) → sg b ≡ false → grants_of b d' ≡ grants_of b d

-- What is excepted may be more.
pub IsFresh-wider :
    (sa sg sa' sg' : String → Bool) (w : World)
    → ((b : String) → sa' b ≡ false → sa b ≡ false)
    → ((b : String) → sg' b ≡ false → sg b ≡ false)
    → IsFresh sa sg w
    → IsFresh sa' sg' w
IsFresh-wider sa sg sa' sg' w wa wg h = record {
  calls = h.calls;
  assets = λ b x n c. h.assets b x (wa b n) c;
  grants = λ b es n c. h.grants b es (wg b n) c;
}

module _ (sa sg : String → Bool) where
  pub IsFresh-db :
      (w : World) (d : Database)
      → Agrees sa sg w.db d
      → IsFresh sa sg w
      → IsFresh sa sg (record w { db = d })
  IsFresh-db w d same h = record {
    calls = h.calls;
    assets = λ b x n c. ground (arith, same.clock, same.assets b x n, h.assets b x n);
    grants = λ b es n c. ground (arith, same.clock, same.grants b n, h.grants b es n);
  }

  module _ {A : Type 0} where
    pub Fresh-one : (f : Database → Option A) → Preserves (IsFresh sa sg) (one f)
    Fresh-one f = record {
      at = λ w h. rw (one_works w h.calls f) (elim (Option-cases (f w.db)) [
        | inl missing ↦ rw missing h
        | inr (a, found) ↦ rw found h
      ]);
    }

    pub Fresh-many : (f : Database → A) → Preserves (IsFresh sa sg) (many f)
    Fresh-many f = record { at = λ w h. rw (many_works w h.calls f) h }

    -- A statement that changes only what is excepted.
    pub Fresh-exec :
        (e : Error) (f : Database → Option (A × Database))
        → ((d : Database) (a : A) (d' : Database) → f d ≡ some (a, d') → Agrees sa sg d d')
        → Preserves (IsFresh sa sg) (exec e f)
    Fresh-exec e f step = record {
      at = λ w h. rw (exec_works w h.calls e f) (elim (Option-cases (f w.db)) [
        | inl refused ↦ rw refused h
        | inr (y, done) ↦ rw done (IsFresh-db w y.1 (step w.db y.0 y.1 done) h)
      ]);
    }

    -- A statement on the tables as they are, that changes what is excepted from then on.
    pub Fresh-exec_to :
        (P : Database → Type 0) (e : Error) (f : Database → Option (A × Database))
        → ((d : Database) (a : A) (d' : Database) → P d → f d ≡ some (a, d') → Agrees sa sg d d')
        → Triple
            (λ w. IsFresh nothing nothing w × P w.db)
            (exec e f)
            (λ _. IsFresh sa sg)
            (IsFresh nothing nothing)
    Fresh-exec_to P e f step = record {
      at = λ w h. rw (exec_works w h.0.calls e f) (elim (Option-cases (f w.db)) [
        | inl refused ↦ rw refused h.0
        | inr (y, done) ↦ rw done (
            IsFresh-db w y.1 (step w.db y.0 y.1 h.1 done)
              (IsFresh-wider nothing nothing sa sg w (λ b n. refl) (λ b n. refl) h.0))
      ]);
    }

  pub Fresh-redis_get : (k : String) → Preserves (IsFresh sa sg) (redis_get k)
  Fresh-redis_get k = record { at = λ w h. rw (redis_get_works w h.calls k) h }

  pub Fresh-publish :
      (R : World → Type 0) (topic : String) (e : Event)
      → Triple (IsFresh sa sg) (publish topic e) (λ _. IsFresh sa sg) R
  Fresh-publish R topic e = record {
    at = λ w h.
        rw (publish_works w h.calls topic e) (record {
          calls = h.calls;
          assets = λ b x. h.assets b x;
          grants = λ b es. h.grants b es;
        });
  }

  module _ (R : World → Type 0) (i : String) where
    -- The drop of the entry of an asset, of which nothing is excepted any more.
    pub Fresh-drop_asset :
        Triple (IsFresh (λ b. i == b || sa b) sg) (redis_del (asset_key i)) (λ _. IsFresh sa sg) R
    Fresh-drop_asset = record {
      at = λ w h. rw (redis_del_works w h.calls (asset_key i)) (record {
        calls = h.calls;
        assets = λ b x n c. ground (
          arith,
          n,
          find-dropped (asset_key i) (asset_key b) w.redis,
          asset_key-== i b,
          h.assets b x,
        );
        grants = λ b es n c.
            ground
              (arith, n, find-dropped (asset_key i) (asset_acl_key b) w.redis, h.grants b es n);
      });
    }

    pub Fresh-drop_grants :
        Triple
          (IsFresh sa (λ b. i == b || sg b))
          (redis_del (asset_acl_key i))
          (λ _. IsFresh sa sg)
          R
    Fresh-drop_grants = record {
      at = λ w h. rw (redis_del_works w h.calls (asset_acl_key i)) (record {
        calls = h.calls;
        assets = λ b x n c.
            ground (arith, n, find-dropped (asset_acl_key i) (asset_key b) w.redis, h.assets b x n);
        grants = λ b es n c. ground (
          arith,
          n,
          find-dropped (asset_acl_key i) (asset_acl_key b) w.redis,
          asset_acl_key-== i b,
          h.grants b es,
        );
      });
    }
