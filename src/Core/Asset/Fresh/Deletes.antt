-- ===== src/Core/Asset/Fresh/Deletes.antt =====
-- Deletions: the entries of the asset and of the descendants that are found are dropped.
use seta_training.Prelude.{
  String, Bool, ◌||◌, not, List, [], ◌∷◌, Option, none, some, ◌≡◌, ◌==◌, arith, exists, Bool-cases,
  inl, inr, if◌then◌else◌,
}
use seta_training.Core.Db.{Database}
use seta_training.Core.Db.Assets
use seta_training.Core.Db.Assets.{contains, orphan_ids}
use seta_training.Core.Db.Cascade.{cascade_ids-within}
use seta_training.Core.World.{no_rows, forbidden, Asset}
use seta_training.Core.World.Triple.{Triple, Triple-bind, Triple-weaken, Preserves-raise_if}
use seta_training.Core.World.Working.{many_works}
use seta_training.Core.Asset.Repository
use seta_training.Core.Asset.Repository.{type_folder}
use seta_training.Core.Asset.{delete, descendants_of, after_delete}
use seta_training.Core.Asset.Fresh.{
  IsFresh, nothing, asset_of, Fresh-exec_to, Fresh-drop_asset, Fresh-drop_grants,
}
use seta_training.Core.Asset.Fresh.Reads.{Fresh-get_found}
use seta_training.Core.Asset.Fresh.Changes.{delete_asset-Agrees, Fresh-evict_all}
use seta_training.Core.Asset.Fresh.Writes.{AllFresh, Fresh-when_publish}

-- The assets of which a deletion drops the entries, besides `a`.
abbrev evicted_of : String → Option Asset → Database → List String
evicted_of a none d = []
evicted_of a (some x) d = if x.type == type_folder then Assets.get_descendant_ids a d else []

-- Nothing else lies below `a` than the descendants that its deletion finds.
abbrev pub IsFound : String → Database → Type 0
IsFound a d = orphan_ids (a ∷ evicted_of a (asset_of a d) d) d.assets ≡ []

-- A deletion that goes on with `ids` has found all there is.
abbrev AllFound : String → List String → Database → Type 0
AllFound a ids d = orphan_ids (a ∷ ids) d.assets ≡ []

abbrev below : String → List String → String → Bool
below a ids b = a == b || (contains ids b || nothing b)

module _ (a : String) where
  Fresh-descendants_of :
      (x : Asset)
      → Triple
          (λ w. AllFresh w × (asset_of a w.db ≡ some x) × IsFound a w.db)
          (descendants_of x a)
          (λ ids w. AllFresh w × AllFound a ids w.db)
          AllFresh
  unfolding Repository.get_descendant_ids
  Fresh-descendants_of x = record {
    at = λ w h.
        let found = rw h.1 at h.2 in
        elim (Bool-cases (x.type == type_folder)) [
          | inl is_folder ↦ rw is_folder (
              rw (many_works w h.0.calls (Assets.get_descendant_ids a))
                (h.0, rw is_folder at found))
          | inr is_note ↦ rw is_note (h.0, rw is_note at found)
        ];
  }

  Fresh-delete_rows :
      (ids : List String)
      → Triple
          (λ w. AllFresh w × AllFound a ids w.db)
          (Repository.delete a)
          (λ _. IsFresh (below a ids) (below a ids))
          AllFresh
  unfolding Repository.delete contains exists
  Fresh-delete_rows ids =
      Fresh-exec_to (below a ids) (below a ids) (AllFound a ids) no_rows (Assets.delete_asset a)
        (λ d z d' found h.
          delete_asset-Agrees a (below a ids) d z d'
            (λ b k. ground (arith, cascade_ids-within a ids d b found k)) h)

  Fresh-after_delete :
      (x : Asset) (ids : List String)
      → Triple (IsFresh (below a ids) (below a ids)) (after_delete x a ids) (λ _. AllFresh) AllFresh
  unfolding after_delete
  Fresh-after_delete x ids =
      Triple-bind _ _ _ _ _ _
        (Fresh-drop_asset (λ b. contains ids b || nothing b) (below a ids) AllFresh a)
        (λ _.
          Triple-bind _ _ _ _ _ _
            (Fresh-drop_grants (λ b. contains ids b || nothing b) (λ b. contains ids b || nothing b)
              AllFresh a)
            (λ _. Triple-bind _ _ _ _ _ _ (Fresh-evict_all AllFresh nothing nothing ids) (λ _.
              Fresh-when_publish nothing nothing AllFresh (x.type == type_folder) "FOLDER_DELETED" a
                x.owner_id)))

  -- A deletion keeps the cache as the database is, if it finds all that lies below the asset.
  pub Fresh-delete :
      (c : String) → Triple (λ w. AllFresh w × IsFound a w.db) (delete c a) (λ _. AllFresh) AllFresh
  unfolding delete
  Fresh-delete c = Triple-bind _ _ _ _ _ _ (Fresh-get_found a (IsFound a)) (λ x.
      Triple-bind _ _ _ _ _ _
        (Triple-weaken _ _ _ _ _ _ (λ z w h. h) (λ w h. h.0)
          (Preserves-raise_if (λ w. AllFresh w × (asset_of a w.db ≡ some x) × IsFound a w.db)
            (not (x.owner_id == c)) forbidden))
        (λ _.
          Triple-bind _ _ _ _ _ _ (Fresh-descendants_of x) (λ ids.
            Triple-bind _ _ _ _ _ _ (Fresh-delete_rows ids) (λ _. Fresh-after_delete x ids))))
