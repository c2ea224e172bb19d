-- ===== src/Core/Asset/Fresh/Answers.antt =====
-- What a read answers, by the database alone.
use seta_training.Prelude.{
  String, ◌||◌, Option, none, some, ◌≡◌, ◌==◌, refl, Result, ok, err, arith, Option-cases, inl, inr,
  if◌then◌else◌,
}
use seta_training.Core.Db.{Database}
use seta_training.Core.Db.Teams
use seta_training.Core.Db.Assets
use seta_training.Core.Db.Acl
use seta_training.Core.World.{
  Error, asset_not_found, forbidden, World, Asset, asset_document, acl_document,
}
use seta_training.Core.World.Keys.{asset_key, asset_acl_key}
use seta_training.Core.World.Triple.{Preserves-state}
use seta_training.Core.World.Working.{one_works, many_works, redis_get_works, redis_set_works}
use seta_training.Core.Asset.Repository
use seta_training.Core.Asset.{get_by_id, cached_asset, cached_acl, require_read_access}
use seta_training.Core.Asset.Reading.{
  asset_in_cache, acl_in_cache, db-cached_asset, db-cached_acl, has_grant,
}
use seta_training.Core.Asset.Fresh.{IsFresh, nothing, asset_of, grants_of}
use seta_training.Core.Asset.Fresh.Reads.{Fresh-cached_asset, Fresh-cached_acl}

-- The answer that the database gives to a read: the asset, for its owner, for a user with a grant and
-- for a manager of a team of the owner.
abbrev found_for : String → String → Option Asset → Database → Result Error Asset
found_for c a none d = err asset_not_found
found_for c a (some x) d =
    if x.owner_id == c || has_grant c (grants_of a d) || Teams.is_manager_of_member c x.owner_id d
    then ok x
    else err forbidden

abbrev pub read_answer : String → String → Database → Result Error Asset
read_answer c a d = found_for c a (asset_of a d) d

abbrev found : Option Asset → Result Error Asset
found none = err asset_not_found
found (some x) = ok x

cached_asset-answer :
    (a : String) (w : World)
    → IsFresh nothing nothing w
    → (cached_asset a w).0 ≡ found (asset_of a w.db)
unfolding cached_asset Repository.get_by_id
cached_asset-answer a w h = elim (Option-cases (asset_in_cache a w)) [
  | inr (x, cached) ↦
      ground (arith, redis_get_works w h.calls (asset_key a), h.assets a x refl cached)
  | inl missing ↦ elim (Option-cases (Assets.get_asset_by_id a w.db)) [
    | inl none_there ↦ ground (
      arith,
      redis_get_works w h.calls (asset_key a),
      one_works w h.calls (Assets.get_asset_by_id a),
    )
    | inr (row, there) ↦ ground (
      arith,
      redis_get_works w h.calls (asset_key a),
      one_works w h.calls (Assets.get_asset_by_id a),
      redis_set_works w h.calls (asset_key a) (asset_document (Repository.row_to_asset row)) 300,
    )
  ]
]

cached_acl-answer :
    (a : String) (w : World)
    → IsFresh nothing nothing w
    → (cached_acl a w).0 ≡ ok (grants_of a w.db)
unfolding cached_acl Repository.list_acl_by_asset
cached_acl-answer a w h = elim (Option-cases (acl_in_cache a w)) [
  | inr (es, cached) ↦
      ground (arith, redis_get_works w h.calls (asset_acl_key a), h.grants a es refl cached)
  | inl missing ↦ ground (
    arith,
    redis_get_works w h.calls (asset_acl_key a),
    many_works w h.calls (Acl.list_asset_acl a),
    redis_set_works w h.calls (asset_acl_key a) (acl_document (grants_of a w.db)) 300,
  )
]

require_read_access-answer :
    (x : Asset) (c a : String) (w : World)
    → IsFresh nothing nothing w
    → (require_read_access x c a w).0 ≡ (
        if has_grant c (grants_of a w.db) || Teams.is_manager_of_member c x.owner_id w.db
        then ok tt
        else err forbidden)
unfolding require_read_access Repository.is_manager_of_owner
require_read_access-answer x c a w h =
    let after : IsFresh nothing nothing (cached_acl a w).1 =
      Preserves-state (IsFresh nothing nothing) (cached_acl a) (Fresh-cached_acl a) w h in
    ground (
      arith,
      cached_acl-answer a w h,
      db-cached_acl a w,
      many_works (cached_acl a w).1 after.calls (Teams.is_manager_of_member c x.owner_id),
    )

-- While no call fails and the cache is as the database, a read answers as the database does.
pub get_by_id-answer :
    (c a : String) (w : World)
    → IsFresh nothing nothing w
    → (get_by_id c a w).0 ≡ read_answer c a w.db
unfolding get_by_id
get_by_id-answer c a w h =
    let after : IsFresh nothing nothing (cached_asset a w).1 =
      Preserves-state (IsFresh nothing nothing) (cached_asset a) (Fresh-cached_asset a) w h in
    elim (Option-cases (asset_of a w.db)) [
      | inl missing ↦ ground (arith, cached_asset-answer a w h)
      | inr (x, there) ↦ ground (
        arith,
        cached_asset-answer a w h,
        db-cached_asset a w,
        require_read_access-answer x c a (cached_asset a w).1 after,
      )
    ]
