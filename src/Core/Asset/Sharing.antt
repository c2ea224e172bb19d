-- ===== src/Core/Asset/Sharing.antt =====
-- What sharing an asset and revoking the share make of the grants.
use seta_training.Prelude.{
  String, Bool, true, false, List, [], ◌∷◌, Option, none, some, ◌≡◌, inl, inr, ◌==◌, ◌&&◌, ◌||◌,
  Result, ok, is_ok, ap, arith, ◌>>◌, if◌then◌else◌, Option-cases, Result-cases, Bool-cases, refl,
  exists,
}
use seta_training.Core.Db.{Database, AssetRow}
use seta_training.Core.Db.Assets
use seta_training.Core.Db.Assets.{contains}
use seta_training.Core.Db.Acl
use seta_training.Core.Db.Grants.{
  grant, grant-upsert, grant-delete, assets-upsert, assets-delete, descendants_of_same,
}
use seta_training.Core.World.{
  Error, violation, no_rows, World, Action, Asset, after_call, one, many, exec, transaction,
  redis_del, publish,
}
use seta_training.Core.World.Keys.{asset_acl_key}
use seta_training.Core.Asset.Access.{db-get_by_id, get_by_id_sound}
use seta_training.Core.Asset.Repository
use seta_training.Core.Asset.{
  share, check_share, after_share, revoke_share, evict_acls, publish_event,
}

-- One statement of a cascade sets, for user `u`, the grant of one asset to `l`.
abbrev Sets : (String → Action (Unit {0})) → String → Option String → Type 0
Sets m u l =
    (a : String) (w : World)
    → is_ok (m a w).0 ≡ true
    → ((b v : String) → grant b v (m a w).1.db ≡ (if a == b && u == v then l else grant b v w.db))
      × ((m a w).1.db.assets ≡ w.db.assets)

insert_Sets :
    (e : Error) (u level : String)
    → Sets (λ a. exec e (Acl.upsert_asset_acl a u level)) u (some level)
unfolding exec
insert_Sets e u level a w h = elim (Option-cases (Acl.upsert_asset_acl a u level w.db)) [
  | inl refused ↦ absurd (ground arith)
  | inr (x, done) ↦ (
    λ b v. ground (arith, grant-upsert a u level b v w.db {d' = x.1} done),
    ground (arith, assets-upsert a u level w.db x.1 done),
  )
]

delete_Sets : (e : Error) (u : String) → Sets (λ a. exec e (Acl.delete_asset_acl_entry a u)) u none
unfolding exec
delete_Sets e u a w h = elim (Option-cases (Acl.delete_asset_acl_entry a u w.db)) [
  | inl refused ↦ absurd (ground arith)
  | inr (x, done) ↦ (
    λ b v. ground (arith, grant-delete a u b v w.db {d' = x.1} done),
    ground (arith, assets-delete a u w.db x.1 done),
  )
]

module _ (m : String → Action (Unit {0})) (u : String) (l : Option String) (sets : Sets m u l) where
  for_each_Sets :
      (ids : List String) (w : World)
      → is_ok (Repository.for_each m ids w).0 ≡ true
      → ((b v : String)
          → grant b v (Repository.for_each m ids w).1.db
            ≡ (if contains ids b && u == v then l else grant b v w.db))
        × ((Repository.for_each m ids w).1.db.assets ≡ w.db.assets)
  unfolding Repository.for_each contains exists
  for_each_Sets [] w h = (λ b v. refl, refl)
  for_each_Sets (a ∷ ids) w h = elim (Result-cases (m a w).0) [
    | inr (e, failed) ↦ absurd (ground arith)
    | inl (x, done) ↦
        let here = sets a w (ground arith) in
        let rest = for_each_Sets ids (m a w).1 (ground arith) in
        (λ b v. ground (arith, here.0 b v, rest.0 b v), ground (arith, here.1, rest.1))
  ]

  -- Whether `b` is what a grant on `a` reaches: `a`, and below a folder its descendants.
  cascade_Sets :
      (a ty : String) (w : World)
      → is_ok (Repository.cascade m a ty w).0 ≡ true
      → (b v : String)
      → grant b v (Repository.cascade m a ty w).1.db ≡ (
          if (ty == "folder" && contains (Assets.get_descendant_ids a w.db) b) && u == v
          then l
          else grant b v w.db)
  unfolding Repository.cascade many
  cascade_Sets a ty w h b v = ground (
    arith,
    λ (k : is_ok (Repository.for_each m (Assets.get_descendant_ids a w.db) (after_call w)).0
          ≡ true).
        (for_each_Sets (Assets.get_descendant_ids a w.db) (after_call w) k).0 b v,
  )

  -- The statement on the asset itself and the cascade, in one transaction.
  rows_Sets :
      (a ty : String) (w : World)
      → is_ok (transaction (m a >> Repository.cascade m a ty) w).0 ≡ true
      → (b v : String)
      → grant b v (transaction (m a >> Repository.cascade m a ty) w).1.db ≡ (
          if (a == b || (ty == "folder" && contains (Assets.get_descendant_ids a w.db) b)) && u == v
          then l
          else grant b v w.db)
  unfolding transaction
  rows_Sets a ty w h b v = elim (Result-cases (m a (after_call w)).0) [
    | inr (e, failed) ↦ absurd (ground arith)
    | inl (x, done) ↦
        let here = sets a (after_call w) (ground arith) in
        let w' : World = (m a (after_call w)).1 in
        let good : is_ok (Repository.cascade m a ty w').0 ≡ true = ground arith in
        let below = cascade_Sets a ty w' good b v in
        ground (arith, here.0 b v, below, descendants_of_same a w.db w'.db here.1)
  ]

-- The calls after a transaction write nothing to the database and do not fail.
abbrev pub Quiet : World → Result Error (Unit {0}) × World → Type 0
Quiet w (r, w') = (r ≡ ok tt) × (w'.db ≡ w.db)

pub redis_del-Quiet : (key : String) (w : World) → Quiet w (redis_del key w)
unfolding redis_del
redis_del-Quiet key w = (ground arith, ground arith)

pub evict_acls-Quiet : (ids : List String) (w : World) → Quiet w (evict_acls ids w)
unfolding evict_acls
evict_acls-Quiet [] w = (refl, refl)
evict_acls-Quiet (a ∷ ids) w =
    let del = redis_del-Quiet (asset_acl_key a) w in
    let rest = evict_acls-Quiet ids (redis_del (asset_acl_key a) w).1 in
    (ground (arith, del.0, rest.0), ground (arith, del.0, del.1, rest.1))

pub publish_event-Quiet : (t a o : String) (w : World) → Quiet w (publish_event t a o w)
unfolding publish_event publish
publish_event-Quiet t a o w = (ground arith, ground arith)

pub after_share-Quiet :
    (x : Asset) (a : String) (ids : List String) (w : World) → Quiet w (after_share x a ids w)
unfolding after_share
after_share-Quiet x a ids w = elim (Bool-cases (x.type == "folder")) [
  | inr note ↦
      let del = redis_del-Quiet (asset_acl_key a) w in
      (ground (arith, del.0), ground (arith, del.0, del.1))
  | inl folder ↦
      let event = publish_event-Quiet "FOLDER_SHARED" a x.owner_id w in
      let w1 : World = (publish_event "FOLDER_SHARED" a x.owner_id w).1 in
      let acls = evict_acls-Quiet ids w1 in
      let del = redis_del-Quiet (asset_acl_key a) (evict_acls ids w1).1 in
      (
        ground (arith, event.0, acls.0, del.0),
        ground (arith, event.0, event.1, acls.0, acls.1, del.0, del.1),
      )
]

abbrev pub is_folder : Option AssetRow → Bool
is_folder none = false
is_folder (some r) = r.type == "folder"

pub db-check_share : (x : Asset) (c u : String) (w : World) → (check_share x c u w).1.db ≡ w.db
unfolding check_share Repository.user_exists one
db-check_share x c u w = ground arith

-- Whether a grant on asset `a` reaches `b`: `a` itself, and below a folder its descendants.
abbrev pub reaches : String → String → Database → Bool
reaches a b d =
    a == b || (is_folder (Assets.get_asset_by_id a d) && contains (Assets.get_descendant_ids a d) b)

-- The rows that a share or a revocation writes, seen from the service.
share_query :
    (c a u level : String) (w : World)
    → is_ok (share c a u level w).0 ≡ true
    → (x : Asset) × (w' : World) × (w'.db ≡ w.db)
      × ((Repository.get_by_id a w).0 ≡ ok x)
      × (is_ok (Repository.upsert_acl_with_cascade a x.type u level w').0 ≡ true)
      × ((share c a u level w).1.db ≡ (Repository.upsert_acl_with_cascade a x.type u level w').1.db)
unfolding share
share_query c a u level w h = elim (Result-cases (Repository.get_by_id a w).0) [
  | inr (e, failed) ↦ absurd (ground arith)
  | inl (x, found) ↦
      let w1 : World = (Repository.get_by_id a w).1 in
      let w2 : World = (check_share x c u w1).1 in
      elim (Result-cases (Repository.upsert_acl_with_cascade a x.type u level w2).0) [
        | inr (e, failed) ↦ absurd (ground arith)
        | inl (ids, done) ↦ (
          x,
          w2,
          ground (arith, db-check_share x c u w1, db-get_by_id a w),
          found,
          ground arith,
          ground (
            arith,
            after_share-Quiet x a ids (Repository.upsert_acl_with_cascade a x.type u level w2).1,
          ),
        )
      ]
]

-- A share that succeeds, whichever calls fail, gives the user the level on the asset and, if that is
-- a folder, on each of the descendants that the query finds, and leaves every other grant.
pub grant-share :
    (c a u level b v : String) (w : World)
    → is_ok (share c a u level w).0 ≡ true
    → grant b v (share c a u level w).1.db
      ≡ (if reaches a b w.db && u == v then some level else grant b v w.db)
unfolding Repository.upsert_acl_with_cascade
grant-share c a u level b v w h =
    let (x, w', same, found, good, end) = share_query c a u level w h in
    let (row, there, is, id) = get_by_id_sound a w x found in
    let rows =
      rows_Sets (λ i. exec violation (Acl.upsert_asset_acl i u level)) u (some level)
        (insert_Sets violation u level) a x.type w' good b v in
    ground (arith, end, rows, same, there, ap (λ (y : Asset). y.type) is)

revoke_query :
    (c a u : String) (w : World)
    → is_ok (revoke_share c a u w).0 ≡ true
    → (x : Asset) × (w' : World) × (w'.db ≡ w.db)
      × ((Repository.get_by_id a w).0 ≡ ok x)
      × (is_ok (Repository.delete_acl_with_cascade a x.type u w').0 ≡ true)
      × ((revoke_share c a u w).1.db ≡ (Repository.delete_acl_with_cascade a x.type u w').1.db)
unfolding revoke_share
revoke_query c a u w h = elim (Result-cases (Repository.get_by_id a w).0) [
  | inr (e, failed) ↦ absurd (ground arith)
  | inl (x, found) ↦
      let w1 : World = (Repository.get_by_id a w).1 in
      elim (Result-cases (Repository.delete_acl_with_cascade a x.type u w1).0) [
        | inr (e, failed) ↦ absurd (ground arith)
        | inl (ids, done) ↦
            let w2 : World = (Repository.delete_acl_with_cascade a x.type u w1).1 in
            let acls = evict_acls-Quiet ids w2 in
            let del = redis_del-Quiet (asset_acl_key a) (evict_acls ids w2).1 in
            (
              x,
              w1,
              db-get_by_id a w,
              found,
              ground arith,
              ground (arith, acls.0, acls.1, del.0, del.1),
            )
      ]
]

-- A revocation that succeeds, whichever calls fail, takes the user's grant on the asset and, if that
-- is a folder, on each of the descendants that the query finds, and leaves every other grant.
pub grant-revoke_share :
    (c a u b v : String) (w : World)
    → is_ok (revoke_share c a u w).0 ≡ true
    → grant b v (revoke_share c a u w).1.db
      ≡ (if reaches a b w.db && u == v then none else grant b v w.db)
unfolding Repository.delete_acl_with_cascade
grant-revoke_share c a u b v w h =
    let (x, w', same, found, good, end) = revoke_query c a u w h in
    let (row, there, is, id) = get_by_id_sound a w x found in
    let rows =
      rows_Sets (λ i. exec no_rows (Acl.delete_asset_acl_entry i u)) u none (delete_Sets no_rows u)
        a x.type w' good b v in
    ground (arith, end, rows, same, there, ap (λ (y : Asset). y.type) is)
