-- ===== src/Core/Asset/Fresh/Writes.antt =====
-- Creations and rewritings of assets keep the cache as the database is.
use seta_training.Prelude.{String, Bool, true, false, ◌||◌, Option, ◌==◌, arith}
use seta_training.Core.Db.Assets
use seta_training.Core.World.{no_rows, violation, asset_event, World, Asset}
use seta_training.Core.World.Triple.{
  Triple, Preserves, Triple-bind, Triple-before, Triple-or_missing, Preserves-bind, Preserves-pure,
  preserve_rules,
}
use seta_training.Core.Asset.Repository
use seta_training.Core.Asset.Repository.{type_note}
use seta_training.Core.Asset.{create, check_request, store, update, rewrite, publish_event, when}
use seta_training.Core.Asset.Checks.{Preserves-get, Preserves-check_parent, Preserves-check_update}
use seta_training.Core.Asset.Fresh.{
  IsFresh, nothing, Fresh-one, Fresh-exec, Fresh-exec_to, Fresh-publish, Fresh-drop_asset,
}
use seta_training.Core.Asset.Fresh.Changes.{create_asset-Agrees, update_asset-Agrees}

module _ (sa sg : String → Bool) where
  pub Fresh-publish_event :
      (R : World → Type 0) (t a o : String)
      → Triple (IsFresh sa sg) (publish_event t a o) (λ _. IsFresh sa sg) R
  unfolding publish_event
  Fresh-publish_event R t a o = record {
    at = λ w h. (Fresh-publish sa sg R "asset.changes" (asset_event t a o w.db.now)).at w h;
  }

  -- A message that is sent if a test holds.
  pub Fresh-when_publish :
      (R : World → Type 0) (b : Bool) (t a o : String)
      → Triple (IsFresh sa sg) (when b (publish_event t a o)) (λ _. IsFresh sa sg) R
  Fresh-when_publish R true t a o = Fresh-publish_event R t a o
  Fresh-when_publish R false t a o = record { at = λ w h. h }

abbrev pub AllFresh : World → Type 0
AllFresh = IsFresh nothing nothing

Fresh-create_row :
    (c : String) (p : Option String) (ty ti : String) (co : Option String)
    → Preserves AllFresh (Repository.create c p ty ti co)
unfolding Repository.create
Fresh-create_row c p ty ti co =
    Preserves-bind AllFresh _ _
      (Fresh-exec nothing nothing violation (Assets.create_asset c p ty ti co)
        (create_asset-Agrees c p ty ti co))
      (λ row. Preserves-pure AllFresh _)

Fresh-store :
    (c : String) (p : Option String) (ty ti : String) (co : Option String)
    → Preserves AllFresh (store c p ty ti co)
unfolding store
Fresh-store c p ty ti co = Preserves-bind AllFresh _ _ (Fresh-create_row c p ty ti co) (λ x.
    Preserves-bind AllFresh _ _
      (Fresh-when_publish nothing nothing AllFresh (ty == type_note) "NOTE_CREATED" x.asset_id
        x.owner_id)
      (λ _. Preserves-pure AllFresh _))

pub Fresh-create :
    (c : String) (p : Option String) (ty ti : String) (co : Option String)
    → Preserves AllFresh (create c p ty ti co)
unfolding create check_request
Fresh-create c p ty ti co =
    search
      (
        preserve_rules,
        Preserves-check_parent AllFresh (λ A. Fresh-one nothing nothing),
        Fresh-store,
      )
      depth 10

Fresh-update_row :
    (a ti : String) (co : Option String)
    → Triple AllFresh
        (Repository.update a ti co)
        (λ _. IsFresh (λ b. a == b || nothing b) nothing)
        AllFresh
unfolding Repository.update
Fresh-update_row a ti co =
    Triple-bind _ _ _ _ _ _
      (Triple-or_missing _ _ _ _ _ (
        Triple-before (λ w h. (h, tt))
          (Fresh-exec_to (λ b. a == b || nothing b) nothing (λ d. Unit) no_rows
            (Assets.update_asset a ti co)
            (λ d row d' u h.
              update_asset-Agrees (λ b. a == b || nothing b) a (λ b n. ground arith) ti co d row d'
                h))))
      (λ row. record { at = λ w h. h })

-- The row is rewritten, and its entry is dropped.
Fresh-rewrite :
    (x : Asset) (a ti : String) (co : Option String) → Preserves AllFresh (rewrite x a ti co)
unfolding rewrite
Fresh-rewrite x a ti co = Triple-bind _ _ _ _ _ _ (Fresh-update_row a ti co) (λ y.
    Triple-bind _ _ _ _ _ _
      (Fresh-when_publish (λ b. a == b || nothing b) nothing AllFresh (x.type == type_note)
        "NOTE_UPDATED" a x.owner_id)
      (λ _.
        Triple-bind _ _ _ _ _ _ (Fresh-drop_asset nothing nothing AllFresh a)
          (λ _. record { at = λ w h. h })))

pub Fresh-update : (c a ti : String) (co : Option String) → Preserves AllFresh (update c a ti co)
unfolding update
Fresh-update c a ti co =
    search
      (
        preserve_rules,
        Preserves-get AllFresh (λ A. Fresh-one nothing nothing),
        Preserves-check_update AllFresh (λ A. Fresh-one nothing nothing),
        Fresh-rewrite,
      )
      depth 10
