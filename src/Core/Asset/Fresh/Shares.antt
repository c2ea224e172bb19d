-- ===== src/Core/Asset/Fresh/Shares.antt =====
-- Shares and revocations: the grants of the asset and of all that is below it change, in one
-- transaction, and the entries of all of them are dropped.
use seta_training.Prelude.{String, true, ◌||◌, not, List, ◌≡◌, ◌==◌, arith, Bool-cases, inl, inr}
use seta_training.Core.Db.Assets.{contains}
use seta_training.Core.Db.Acl
use seta_training.Core.World.{no_rows, violation, forbidden, Asset}
use seta_training.Core.World.Triple.{
  Triple, Preserves, Triple-bind, Triple-before, Preserves-bind, Preserves-raise_if,
}
use seta_training.Core.Asset.Repository
use seta_training.Core.Asset.Repository.{for_each, cascade, type_folder}
use seta_training.Core.Asset.{share, after_share, revoke_share, evict_acls}
use seta_training.Core.Asset.Fresh.{IsFresh, IsFresh-wider, nothing, Fresh-one, Fresh-drop_grants}
use seta_training.Core.Asset.Fresh.Changes.{
  upsert_asset_acl-Agrees, delete_acl-Agrees, Fresh-evict_acls,
}
use seta_training.Core.Asset.Fresh.Writes.{AllFresh, Fresh-publish_event}
use seta_training.Core.Asset.Checks.{Preserves-get, Preserves-check_share}
use seta_training.Core.Asset.Fresh.Grants.{shared_below, Fresh-cascade}

module _ (x : Asset) (a : String) where
  Fresh-evict_shared :
      (ty : String) (ids : List String)
      → (ty == type_folder) ≡ true
      → Triple
          (IsFresh nothing (shared_below a ty ids))
          (evict_acls ids)
          (λ _. IsFresh nothing (λ b. a == b || nothing b))
          AllFresh
  Fresh-evict_shared ty ids is_folder =
      Triple-before
        (λ w h.
          IsFresh-wider _ _ nothing (λ b. contains ids b || (a == b || nothing b)) w (λ b n. n)
            (λ b n. ground (arith, is_folder)) h)
        (Fresh-evict_acls AllFresh nothing (λ b. a == b || nothing b) ids)

  Fresh-after_share :
      (ids : List String)
      → Triple
          (IsFresh nothing (shared_below a x.type ids))
          (after_share x a ids)
          (λ _. AllFresh)
          AllFresh
  unfolding after_share
  Fresh-after_share ids = elim (Bool-cases (x.type == type_folder)) [
    | inl is_folder ↦
        Triple-bind _ _ _ _ _ _
          (rw is_folder (
            Triple-bind _ _ _ _ _ _
              (Fresh-publish_event nothing (shared_below a x.type ids) AllFresh "FOLDER_SHARED" a
                x.owner_id)
              (λ _. Fresh-evict_shared x.type ids is_folder)))
          (λ _. Fresh-drop_grants nothing nothing AllFresh a)
    | inr is_note ↦
        Triple-bind _ _ _ _ _ _
          (rw is_note (record {
            at = λ w h.
                IsFresh-wider _ _ nothing (λ b. a == b || nothing b) w (λ b n. n)
                  (λ b n. ground (arith, is_note)) h;
          }))
          (λ _. Fresh-drop_grants nothing nothing AllFresh a)
  ]

pub Fresh-share : (c a u level : String) → Preserves AllFresh (share c a u level)
unfolding share Repository.upsert_acl_with_cascade
Fresh-share c a u level =
    Preserves-bind AllFresh _ _ (Preserves-get AllFresh (λ A. Fresh-one nothing nothing) a) (λ x.
      Preserves-bind AllFresh _ _
        (Preserves-check_share AllFresh (λ A. Fresh-one nothing nothing) x c u)
        (λ _.
          Triple-bind _ _ _ _ _ _
            (Fresh-cascade violation (λ id. Acl.upsert_asset_acl id u level)
              (λ s i out d d' h. upsert_asset_acl-Agrees s i out u level d d' h) a x.type)
            (Fresh-after_share x a)))

pub Fresh-revoke : (c a u : String) → Preserves AllFresh (revoke_share c a u)
unfolding revoke_share Repository.delete_acl_with_cascade
Fresh-revoke c a u =
    Preserves-bind AllFresh _ _ (Preserves-get AllFresh (λ A. Fresh-one nothing nothing) a) (λ x.
      Preserves-bind AllFresh _ _ (Preserves-raise_if AllFresh (not (x.owner_id == c)) forbidden)
        (λ _.
          Triple-bind _ _ _ _ _ _
            (Fresh-cascade no_rows (λ id. Acl.delete_asset_acl_entry id u)
              (λ s i out d d' h. delete_acl-Agrees s i out u d d' h) a x.type)
            (λ ids.
              Triple-bind _ _ _ _ _ _
                (Triple-before
                  (λ w h.
                    IsFresh-wider _ _ nothing (λ b. contains ids b || (a == b || nothing b)) w
                      (λ b n. n) (λ b n. ground arith) h)
                  (Fresh-evict_acls AllFresh nothing (λ b. a == b || nothing b) ids))
                (λ _. Fresh-drop_grants nothing nothing AllFresh a))))
