-- ===== src/Core/Asset/Reading.antt =====
-- Who may read an asset, by what the caches and the database show.
use seta_training.Prelude.{
  String, Bool, true, List, map, Option, none, some, ◌≡◌, ◌⊎◌, inl, inr, ◌==◌, ok, ◌+◌,
  find-upsert_miss, is_ok, arith, eq_iff, exists, find, upsert, Result-cases, refl, Bool-cases, ap,
}
use seta_training.Core.Db.{AssetRow}
use seta_training.Core.Db.Teams
use seta_training.Core.Db.Assets
use seta_training.Core.Db.Acl
use seta_training.Core.World.{
  World, Asset, AssetAcl, asset_document, if_unexpired, one, many, redis_get, redis_set,
}
use seta_training.Core.World.Keys.{asset_key, asset_acl_key, asset_acl_key-apart}
use seta_training.Core.Asset.Repository
use seta_training.Core.Asset.Repository.{row_to_asset, row_to_acl}
use seta_training.Core.Asset.{
  get_by_id, cached_asset, load_asset, cached_acl, decode_asset, decode_acl, require_read_access,
}

-- What the cache holds of an asset, and of its grants.
abbrev pub asset_in_cache : String → World → Option Asset
asset_in_cache a w = decode_asset (if_unexpired w.db.now (find (λ e. e.key == asset_key a) w.redis))

abbrev pub acl_in_cache : String → World → Option (List AssetAcl)
acl_in_cache a w = decode_acl (if_unexpired w.db.now (find (λ e. e.key == asset_acl_key a) w.redis))

abbrev pub asset_in_db : Option AssetRow → Option Asset
asset_in_db none = none
asset_in_db (some row) = some (row_to_asset row)

-- The asset, as the cache or the database has it.
abbrev pub IsSeen : String → Asset → World → Type 0
IsSeen a x w =
    (asset_in_cache a w ≡ some x) ⊎ (asset_in_db (Assets.get_asset_by_id a w.db) ≡ some x)

-- The grants of the asset, as the cache or the database has them.
abbrev pub IsSeenAcl : String → List AssetAcl → World → Type 0
IsSeenAcl a es w = (acl_in_cache a w ≡ some es) ⊎ (map row_to_acl (Acl.list_asset_acl a w.db) ≡ es)

cached_asset-IsSeen :
    (a : String) (w : World) (x : Asset) → (cached_asset a w).0 ≡ ok x → IsSeen a x w
unfolding cached_asset Repository.get_by_id one redis_get redis_set
cached_asset-IsSeen a w x h = ground arith

pub db-cached_asset : (a : String) (w : World) → (cached_asset a w).1.db ≡ w.db
unfolding cached_asset Repository.get_by_id one redis_get redis_set
db-cached_asset a w = ground arith

cached_acl-IsSeenAcl :
    (a : String) (w : World) (es : List AssetAcl) → (cached_acl a w).0 ≡ ok es → IsSeenAcl a es w
unfolding cached_acl Repository.list_acl_by_asset many redis_get redis_set
cached_acl-IsSeenAcl a w es h = ground arith

pub db-cached_acl : (a : String) (w : World) → (cached_acl a w).1.db ≡ w.db
unfolding cached_acl Repository.list_acl_by_asset many redis_get redis_set
db-cached_acl a w = ground arith

-- Writing the asset to the cache leaves the cached grants.
find-asset_stored :
    (a : String) (x : Asset) (w : World)
    → find
        (λ e. e.key == asset_acl_key a)
        (upsert
          (λ e. e.key == asset_key a)
          (record { key = asset_key a; document = asset_document x; expires = w.db.now + 300 })
          w.redis)
      ≡ find (λ e. e.key == asset_acl_key a) w.redis
find-asset_stored a x w =
    find-upsert_miss (λ e. e.key == asset_key a) (λ e. e.key == asset_acl_key a) _ w.redis
      (ground (
        arith,
        asset_acl_key-apart a,
        eq_iff (asset_acl_key a) (asset_key a),
        eq_iff (asset_key a) (asset_acl_key a),
      ))
      (λ e k. ground (
        arith,
        asset_acl_key-apart a,
        eq_iff (asset_acl_key a) (asset_key a),
        eq_iff e.key (asset_key a),
        eq_iff e.key (asset_acl_key a),
      ))

-- The calls of the read of an asset leave the cached grants.
acl_in_cache-redis_get :
    (a k : String) (w : World) → acl_in_cache a (redis_get k w).1 ≡ acl_in_cache a w
unfolding redis_get
acl_in_cache-redis_get a k w = ground arith

acl_in_cache-get_by_id :
    (a : String) (w : World) → acl_in_cache a (Repository.get_by_id a w).1 ≡ acl_in_cache a w
unfolding Repository.get_by_id one
acl_in_cache-get_by_id a w = ground arith

acl_in_cache-redis_set :
    (a : String) (x : Asset) (w : World)
    → acl_in_cache a (redis_set (asset_key a) (asset_document x) 300 w).1 ≡ acl_in_cache a w
unfolding redis_set
acl_in_cache-redis_set a x w = ground (arith, find-asset_stored a x w)

acl_in_cache-load_asset :
    (a : String) (o : Option Asset) (w : World)
    → acl_in_cache a (load_asset a o w).1 ≡ acl_in_cache a w
acl_in_cache-load_asset a (some x) w = refl
acl_in_cache-load_asset a none w = elim (Result-cases (Repository.get_by_id a w).0) [
  | inr (e, failed) ↦ ground (arith, acl_in_cache-get_by_id a w)
  | inl (x, found) ↦
      ground
        (arith, acl_in_cache-get_by_id a w, acl_in_cache-redis_set a x (Repository.get_by_id a w).1)
]

acl_in_cache-cached_asset :
    (a : String) (w : World) → acl_in_cache a (cached_asset a w).1 ≡ acl_in_cache a w
unfolding cached_asset
acl_in_cache-cached_asset a w = elim (Result-cases (redis_get (asset_key a) w).0) [
  | inr (e, failed) ↦ ground (arith, acl_in_cache-redis_get a (asset_key a) w)
  | inl (d, cached) ↦ ground (
    arith,
    acl_in_cache-redis_get a (asset_key a) w,
    acl_in_cache-load_asset a (decode_asset d) (redis_get (asset_key a) w).1,
  )
]

-- Whether one of some grants is the user's.
abbrev pub has_grant : String → List AssetAcl → Bool
has_grant c es = exists (λ e. e.user_id == c) es

require_read_access_sound :
    (x : Asset) (c a : String) (w : World)
    → is_ok (require_read_access x c a w).0 ≡ true
    → ((es : List AssetAcl) × IsSeenAcl a es w × (has_grant c es ≡ true))
      ⊎ (Teams.is_manager_of_member c x.owner_id w.db ≡ true)
unfolding require_read_access Repository.is_manager_of_owner many
require_read_access_sound x c a w h = elim (Result-cases (cached_acl a w).0) [
  | inr (e, failed) ↦ absurd (ground arith)
  | inl (es, done) ↦ elim (Bool-cases (has_grant c es)) [
    | inl granted ↦ inl (es, cached_acl-IsSeenAcl a w es done, granted)
    | inr not_granted ↦ inr (ground (arith, db-cached_acl a w))
  ]
]

-- The grants that are seen after the read of the asset were to be seen before it.
seen_before :
    (a : String) (w : World) (es : List AssetAcl)
    → IsSeenAcl a es (cached_asset a w).1
    → IsSeenAcl a es w
seen_before a w es (inl cached) = inl (rw acl_in_cache-cached_asset at cached)
seen_before a w es (inr stored) = inr (rw db-cached_asset at stored)

-- What lets user `c` read an asset of owner `o`.
abbrev pub MayRead : String → String → String → World → Type 0
MayRead c a o w =
    (o ≡ c)
    ⊎ (((es : List AssetAcl) × IsSeenAcl a es w × (has_grant c es ≡ true))
        ⊎ (Teams.is_manager_of_member c o w.db ≡ true))

-- The checks behind the owner's, after the read of the asset.
allowed_reader :
    (y : Asset) (c a : String) (w : World)
    → is_ok (require_read_access y c a (cached_asset a w).1).0 ≡ true
    → MayRead c a y.owner_id w
allowed_reader y c a w h = elim (require_read_access_sound y c a (cached_asset a w).1 h) [
  | inl (es, seen, granted) ↦ inr (inl (es, seen_before a w es seen, granted))
  | inr manager ↦ inr (inr (rw db-cached_asset at manager))
]

-- An asset is read, whichever calls fail, only as the cache or the database has it, and only by its
-- owner, by a user with a grant of any level in the cached or stored grants, or by a manager of a
-- team of the owner.
pub get_by_id_authorized :
    (c a : String) (w : World) (x : Asset)
    → (get_by_id c a w).0 ≡ ok x
    → IsSeen a x w × MayRead c a x.owner_id w
unfolding get_by_id
get_by_id_authorized c a w x h = elim (Result-cases (cached_asset a w).0) [
  | inr (e, failed) ↦ absurd (ground arith)
  | inl (y, found) ↦ elim (Bool-cases (y.owner_id == c)) [
    | inl own ↦
        let is : x ≡ y = ground arith in
        (rw is (cached_asset-IsSeen a w y found), rw is (inl ((eq_iff y.owner_id c).0 own)))
    | inr other ↦ elim (Result-cases (require_read_access y c a (cached_asset a w).1).0) [
      | inr (e, failed) ↦ absurd (ground arith)
      | inl (u, allowed) ↦
          let is : x ≡ y = ground arith in
          (
            rw is (cached_asset-IsSeen a w y found),
            rw is (allowed_reader y c a w (ap is_ok allowed)),
          )
    ]
  ]
]
