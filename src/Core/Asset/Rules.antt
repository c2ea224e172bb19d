-- ===== src/Core/Asset/Rules.antt =====
-- Who may change assets, and that a request that fails has changed nothing.
use seta_training.Prelude.{
  ℕ, String, true, false, List, [], ◌∷◌, Option, none, some, ◌≡◌, inl, inr, eq_iff, is_ok, arith,
  Result-cases, refl,
}
use seta_training.Core.Db.Assets
use seta_training.Core.Db.Tree.{type_of}
use seta_training.Core.World.{World, Action, Asset, many, exec, transaction, redis_del}
use seta_training.Core.World.Keys.{asset_key, asset_acl_key}
use seta_training.Core.Asset.{
  check_request, delete, after_delete, share, check_share, revoke_share, get_by_id, list, evict_all,
  evict_acls, descendants_of, require_read_access, cached_asset,
}
use seta_training.Core.Asset.Repository
use seta_training.Core.Asset.Requests.{
  Request, create, read, delete as delete_request, update, share as share_request, revoke,
  list as list_request, serve,
}
use seta_training.Core.Asset.Access.{
  MayWrite, Owns, db-get_by_id, check_parent_sound, update-MayWrite, delete-Owns, share-Owns,
  revoke_share-Owns,
}
use seta_training.Core.Asset.Structure.{Leaves, create_cases, create-Leaves, update-Leaves}
use seta_training.Core.Asset.Sharing.{
  Quiet, redis_del-Quiet, evict_acls-Quiet, publish_event-Quiet, after_share-Quiet, db-check_share,
}
use seta_training.Core.Asset.Reading.{db-cached_asset, db-cached_acl}

evict_all-Quiet : (ids : List String) (w : World) → Quiet w (evict_all ids w)
unfolding evict_all
evict_all-Quiet [] w = (refl, refl)
evict_all-Quiet (a ∷ ids) w =
    let first = redis_del-Quiet (asset_key a) w in
    let w1 : World = (redis_del (asset_key a) w).1 in
    let second = redis_del-Quiet (asset_acl_key a) w1 in
    let rest = evict_all-Quiet ids (redis_del (asset_acl_key a) w1).1 in
    (
      ground (arith, first.0, second.0, rest.0),
      ground (arith, first.0, first.1, second.0, second.1, rest.1),
    )

after_delete-Quiet :
    (x : Asset) (a : String) (ids : List String) (w : World) → Quiet w (after_delete x a ids w)
unfolding after_delete
after_delete-Quiet x a ids w =
    let first = redis_del-Quiet (asset_key a) w in
    let w1 : World = (redis_del (asset_key a) w).1 in
    let second = redis_del-Quiet (asset_acl_key a) w1 in
    let w2 : World = (redis_del (asset_acl_key a) w1).1 in
    let all = evict_all-Quiet ids w2 in
    let event = publish_event-Quiet "FOLDER_DELETED" a x.owner_id (evict_all ids w2).1 in
    (ground (arith, first.0, second.0, all.0, event.0), ground (arith, first, second, all, event))

db-descendants_of : (x : Asset) (a : String) (w : World) → (descendants_of x a w).1.db ≡ w.db
unfolding Repository.get_descendant_ids many
db-descendants_of x a w = ground arith

-- One statement that fails writes nothing.
row-Leaves : (a : String) (w : World) → Leaves w (Repository.delete a w)
unfolding Repository.delete exec
row-Leaves a w = ground arith

transaction-Leaves : {A : Type 0} (m : Action A) (w : World) → Leaves w (transaction m w)
unfolding transaction
transaction-Leaves m w = ground arith

delete-Leaves : (c a : String) (w : World) → Leaves w (delete c a w)
unfolding delete
delete-Leaves c a w = elim (Result-cases (Repository.get_by_id a w).0) [
  | inr (e, failed) ↦ ground (arith, db-get_by_id a w)
  | inl (x, found) ↦
      let w1 : World = (Repository.get_by_id a w).1 in
      let w2 : World = (descendants_of x a w1).1 in
      elim (Result-cases (descendants_of x a w1).0) [
        | inr (e, failed) ↦ ground (arith, db-get_by_id a w, db-descendants_of x a w1)
        | inl (ids, listed) ↦ ground (
          arith,
          db-get_by_id a w,
          db-descendants_of x a w1,
          row-Leaves a w2,
          after_delete-Quiet x a ids (Repository.delete a w2).1,
        )
      ]
]

share_rows-Leaves :
    (a ty u level : String) (w : World)
    → Leaves w (Repository.upsert_acl_with_cascade a ty u level w)
unfolding Repository.upsert_acl_with_cascade
share_rows-Leaves a ty u level w = transaction-Leaves _ w

revoke_rows-Leaves :
    (a ty u : String) (w : World) → Leaves w (Repository.delete_acl_with_cascade a ty u w)
unfolding Repository.delete_acl_with_cascade
revoke_rows-Leaves a ty u w = transaction-Leaves _ w

share-Leaves : (c a u level : String) (w : World) → Leaves w (share c a u level w)
unfolding share
share-Leaves c a u level w = elim (Result-cases (Repository.get_by_id a w).0) [
  | inr (e, failed) ↦ ground (arith, db-get_by_id a w)
  | inl (x, found) ↦
      let w1 : World = (Repository.get_by_id a w).1 in
      let w2 : World = (check_share x c u w1).1 in
      elim (Result-cases (Repository.upsert_acl_with_cascade a x.type u level w2).0) [
        | inr (e, failed) ↦ ground (
          arith,
          db-get_by_id a w,
          db-check_share x c u w1,
          share_rows-Leaves a x.type u level w2,
        )
        | inl (ids, done) ↦ ground (
          arith,
          db-get_by_id a w,
          db-check_share x c u w1,
          after_share-Quiet x a ids (Repository.upsert_acl_with_cascade a x.type u level w2).1,
        )
      ]
]

revoke_share-Leaves : (c a u : String) (w : World) → Leaves w (revoke_share c a u w)
unfolding revoke_share
revoke_share-Leaves c a u w = elim (Result-cases (Repository.get_by_id a w).0) [
  | inr (e, failed) ↦ ground (arith, db-get_by_id a w)
  | inl (x, found) ↦
      let w1 : World = (Repository.get_by_id a w).1 in
      elim (Result-cases (Repository.delete_acl_with_cascade a x.type u w1).0) [
        | inr (e, failed) ↦ ground (arith, db-get_by_id a w, revoke_rows-Leaves a x.type u w1)
        | inl (ids, done) ↦
            let w2 : World = (Repository.delete_acl_with_cascade a x.type u w1).1 in
            let acls = evict_acls-Quiet ids w2 in
            let del = redis_del-Quiet (asset_acl_key a) (evict_acls ids w2).1 in
            ground (arith, db-get_by_id a w, acls.0, acls.1, del.0, del.1)
      ]
]

-- Reads write nothing.
db-require_read_access :
    (x : Asset) (c a : String) (w : World) → (require_read_access x c a w).1.db ≡ w.db
unfolding require_read_access Repository.is_manager_of_owner many
db-require_read_access x c a w = ground (arith, db-cached_acl a w)

db-read : (c a : String) (w : World) → (get_by_id c a w).1.db ≡ w.db
unfolding get_by_id
db-read c a w = elim (Result-cases (cached_asset a w).0) [
  | inr (e, failed) ↦ ground (arith, db-cached_asset a w)
  | inl (x, found) ↦
      ground (arith, db-cached_asset a w, db-require_read_access x c a (cached_asset a w).1)
]

db-list : (c : String) (page limit : ℕ) (w : World) → (list c page limit w).1.db ≡ w.db
unfolding list Repository.list Repository.count_by_owner many
db-list c page limit w = ground arith

-- A request to the asset service that fails, whatever fails in it, leaves the database as it was:
-- a share or a revocation that stops among the descendants of a folder is undone as a whole.
pub failed_request_keeps_db :
    (r : Request) (w : World) → is_ok (serve r w).0 ≡ false → (serve r w).1.db ≡ w.db
unfolding serve
failed_request_keeps_db (create c p ty ti co) w h = ground (arith, create-Leaves c p ty ti co w)
failed_request_keeps_db (read c a) w h = ground (arith, db-read c a w)
failed_request_keeps_db (delete_request c a) w h = ground (arith, delete-Leaves c a w)
failed_request_keeps_db (update c a ti co) w h = ground (arith, update-Leaves c a ti co w)
failed_request_keeps_db (share_request c a u level) w h = ground (arith, share-Leaves c a u level w)
failed_request_keeps_db (revoke c a u) w h = ground (arith, revoke_share-Leaves c a u w)
failed_request_keeps_db (list_request c page limit) w h = ground (arith, db-list c page limit w)

-- Whom the rules let change assets: a creator below a folder, and whoever updates, need to own it or
-- to have a grant to write; the owner deletes, shares and revokes. Reads have rules of their own.
abbrev pub MayChange : Request → World → Type 0
MayChange (create c none ty ti co) w = ty ≡ "folder"
MayChange (create c (some p) ty ti co) w =
    MayWrite c p w.db × (type_of (Assets.get_asset_by_id p w.db) ≡ some "folder")
MayChange (read c a) w = Unit
MayChange (delete_request c a) w = Owns c a w.db
MayChange (update c a ti co) w = MayWrite c a w.db
MayChange (share_request c a u level) w = Owns c a w.db
MayChange (revoke c a u) w = Owns c a w.db
MayChange (list_request c page limit) w = Unit

root-IsFolder :
    (c ty : String) (co : Option String) (w : World)
    → is_ok (check_request none ty co w).0 ≡ true
    → ty ≡ "folder"
unfolding check_request
root-IsFolder c ty co w h = ground (arith, eq_iff ty "folder", eq_iff ty "note")

-- A request to the asset service that succeeds, whatever fails in it, comes from someone whom the
-- rules let make it: the owner deletes, shares and revokes; the owner and users with a grant to
-- write update, and create below a folder; and only folders are created at the root.
pub serve-MayChange : (r : Request) (w : World) → is_ok (serve r w).0 ≡ true → MayChange r w
unfolding serve
serve-MayChange (create c none ty ti co) w h =
    root-IsFolder c ty co w (create_cases c none ty ti co w (ground arith)).0
serve-MayChange (create c (some p) ty ti co) w h =
    check_parent_sound p c w (create_cases c (some p) ty ti co w (ground arith)).1
serve-MayChange (read c a) w h = tt
serve-MayChange (delete_request c a) w h = delete-Owns c a w h
serve-MayChange (update c a ti co) w h = update-MayWrite c a ti co w (ground arith)
serve-MayChange (share_request c a u level) w h = share-Owns c a u level w h
serve-MayChange (revoke c a u) w h = revoke_share-Owns c a u w h
serve-MayChange (list_request c page limit) w h = tt
