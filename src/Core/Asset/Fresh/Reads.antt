-- ===== src/Core/Asset/Fresh/Reads.antt =====
-- The reads of an asset: they answer as the database says, and fill the cache with what it holds.
use seta_training.Prelude.{
  ◌+◌, String, Bool, List, Option, none, some, ◌≡◌, ◌==◌, refl, arith, eq_iff, not, Option-cases,
  inl, inr, pure,
}
use seta_training.Core.Db.{Database}
use seta_training.Core.Db.Teams
use seta_training.Core.Db.Assets
use seta_training.Core.Db.Acl
use seta_training.Core.World.{
  forbidden, World, Asset, AssetAcl, redis_set, asset_document, acl_document,
}
use seta_training.Core.World.Keys.{asset_key, asset_acl_key, asset_key-==, asset_acl_key-==}
use seta_training.Core.World.Triple.{
  Triple, Preserves, Triple-bind, Triple-before, Triple-if, Preserves-raise_if,
}
use seta_training.Core.World.Working.{one_works, many_works, redis_set_works}
use seta_training.Core.World.Redis.{find-put}
use seta_training.Core.Asset.Repository
use seta_training.Core.Asset.{
  get_by_id, cached_asset, load_asset, decode_asset, cached_acl, load_acl, decode_acl,
  require_read_access,
}
use seta_training.Core.Asset.Reading.{has_grant}
use seta_training.Core.Asset.Fresh.{
  IsFresh, nothing, asset_of, grants_of, Fresh-many, Fresh-redis_get,
}

module _ (sa sg : String → Bool) (R : World → Type 0) (i : String) where
  -- Values that are the database's are written to the cache.
  Fresh-put_asset :
      (x : Asset)
      → Triple
          (λ w. IsFresh sa sg w × (asset_of i w.db ≡ some x))
          (redis_set (asset_key i) (asset_document x) 300)
          (λ _. IsFresh sa sg)
          R
  Fresh-put_asset x = record {
    at = λ w h. rw (redis_set_works w h.0.calls (asset_key i) (asset_document x) 300) (record {
      calls = h.0.calls;
      assets = λ b y n c. ground (
        arith,
        find-put (asset_key i) (asset_key b) (asset_document x) (w.db.now + 300) w.redis,
        asset_key-== i b,
        eq_iff i b,
        h.1,
        h.0.assets b y n,
      );
      grants = λ b es n c. ground (
        arith,
        find-put (asset_key i) (asset_acl_key b) (asset_document x) (w.db.now + 300) w.redis,
        h.0.grants b es n,
      );
    });
  }

  Fresh-put_grants :
      (es : List AssetAcl)
      → Triple
          (λ w. IsFresh sa sg w × (grants_of i w.db ≡ es))
          (redis_set (asset_acl_key i) (acl_document es) 300)
          (λ _. IsFresh sa sg)
          R
  Fresh-put_grants es = record {
    at = λ w h. rw (redis_set_works w h.0.calls (asset_acl_key i) (acl_document es) 300) (record {
      calls = h.0.calls;
      assets = λ b y n c. ground (
        arith,
        find-put (asset_acl_key i) (asset_key b) (acl_document es) (w.db.now + 300) w.redis,
        h.0.assets b y n,
      );
      grants = λ b fs n c. ground (
        arith,
        find-put (asset_acl_key i) (asset_acl_key b) (acl_document es) (w.db.now + 300) w.redis,
        asset_acl_key-== i b,
        eq_iff i b,
        h.1,
        h.0.grants b fs n,
      );
    });
  }

module _ (a : String) where
  -- What the repository finds is what the database holds, which the search leaves as it is.
  pub Fresh-get_found :
      (P : Database → Type 0)
      → Triple
          (λ w. IsFresh nothing nothing w × P w.db)
          (Repository.get_by_id a)
          (λ x w. IsFresh nothing nothing w × (asset_of a w.db ≡ some x) × P w.db)
          (IsFresh nothing nothing)
  unfolding Repository.get_by_id
  Fresh-get_found P = record {
    at = λ w h.
        rw (one_works w h.0.calls (Assets.get_asset_by_id a))
          (elim (Option-cases (Assets.get_asset_by_id a w.db)) [
            | inl missing ↦ rw missing h.0
            | inr (row, found) ↦ rw found (h.0, rw found refl, h.1)
          ]);
  }

  Fresh-list_acl :
      Triple
        (IsFresh nothing nothing)
        (Repository.list_acl_by_asset a)
        (λ es w. IsFresh nothing nothing w × (grants_of a w.db ≡ es))
        (IsFresh nothing nothing)
  unfolding Repository.list_acl_by_asset
  Fresh-list_acl = record { at = λ w h. rw (many_works w h.calls (Acl.list_asset_acl a)) (h, refl) }

  Fresh-load_asset : (o : Option Asset) → Preserves (IsFresh nothing nothing) (load_asset a o)
  Fresh-load_asset (some x) = record { at = λ w h. h }
  Fresh-load_asset none =
      Triple-bind _ _ _ _ _ _ (Triple-before (λ w h. (h, tt)) (Fresh-get_found (λ d. Unit))) (λ x.
        Triple-bind _ _ _ _ _ _
          (Triple-before (λ w h. (h.0, h.1)) (Fresh-put_asset nothing nothing _ a x))
          (λ _. record { at = λ w h. h }))

  pub Fresh-cached_asset : Preserves (IsFresh nothing nothing) (cached_asset a)
  unfolding cached_asset
  Fresh-cached_asset =
      Triple-bind _ _ _ _ _ _ (Fresh-redis_get nothing nothing (asset_key a))
        (λ d. Fresh-load_asset (decode_asset d))

  Fresh-load_acl : (o : Option (List AssetAcl)) → Preserves (IsFresh nothing nothing) (load_acl a o)
  Fresh-load_acl (some es) = record { at = λ w h. h }
  Fresh-load_acl none = Triple-bind _ _ _ _ _ _ Fresh-list_acl (λ es.
      Triple-bind _ _ _ _ _ _ (Fresh-put_grants nothing nothing _ a es)
        (λ _. record { at = λ w h. h }))

  pub Fresh-cached_acl : Preserves (IsFresh nothing nothing) (cached_acl a)
  unfolding cached_acl
  Fresh-cached_acl =
      Triple-bind _ _ _ _ _ _ (Fresh-redis_get nothing nothing (asset_acl_key a))
        (λ d. Fresh-load_acl (decode_acl d))

module _ (c a : String) where
  require_read_access-Fresh :
      (x : Asset) → Preserves (IsFresh nothing nothing) (require_read_access x c a)
  unfolding require_read_access Repository.is_manager_of_owner
  require_read_access-Fresh x = Triple-bind _ _ _ _ _ _ (Fresh-cached_acl a) (λ es.
      Triple-if (has_grant c es) (pure tt) _ _ (record { at = λ w h. h })
        (Triple-bind _ _ _ _ _ _
          (Fresh-many nothing nothing (Teams.is_manager_of_member c x.owner_id))
          (λ is_manager. Preserves-raise_if _ (not is_manager) forbidden)))

  -- A read keeps the cache as the database is.
  pub Fresh-read : Preserves (IsFresh nothing nothing) (get_by_id c a)
  unfolding get_by_id
  Fresh-read = Triple-bind _ _ _ _ _ _ (Fresh-cached_asset a) (λ x.
      Triple-if (x.owner_id == c) (pure x) _ _ (record { at = λ w h. h })
        (Triple-bind _ _ _ _ _ _ (require_read_access-Fresh x) (λ _. record { at = λ w h. h })))
