-- ===== src/Core/Asset/Published/Requests.antt =====
-- The requests of the asset service, and the messages that each of them sends.
use seta_training.Prelude.{
  ℕ, String, List, [], ◌∷◌, ◌++◌, Option, none, some, ◌≡◌, ◌==◌, not, arith,
}
use seta_training.Core.Db.Assets
use seta_training.Core.World.{no_rows, violation, forbidden, World, Message, Asset, Action, exec}
use seta_training.Core.World.Triple.{
  Triple, Preserves, Triple-bind, Preserves-bind, Preserves-raise_if, preserve_rules,
}
use seta_training.Core.Asset.Repository
use seta_training.Core.Asset.Repository.{for_each, type_note, type_folder}
use seta_training.Core.Asset.{
  create, check_request, store, update, rewrite, delete, descendants_of, after_delete, evict_all,
  evict_acls,
}
use seta_training.Core.Asset.Checks.{Preserves-check_parent, Preserves-check_update}
use seta_training.Core.Asset.Fresh.{asset_of}
use seta_training.Core.Asset.Published.{
  change, sent_if, Sent, Sent-one, Sent-many, Sent-exec, Sent-redis_del, Sent-when, Sent-get_found,
}

-- The message of a change of an asset of one type.
abbrev pub of_type : String → String → String → ℕ → Option Asset → List Message
of_type ty event a n none = []
of_type ty event a n (some x) = sent_if (x.type == ty) (change event a x.owner_id n)

-- What is known of a value is used.
pub given :
    {A : Type 0} {P : World → Type 0} {m : Action A} {Q : A → World → Type 0} {R : World → Type 0}
    {o o' : Option Asset}
    → (o ≡ o' → Triple P m Q R)
    → Triple (λ w. P w × (o ≡ o')) m Q R
given t = record { at = λ w h. (t h.1).at w h.0 }

module _ (ms : List Message) (n : ℕ) where
  abbrev Same : World → Type 0
  Same = Sent ms n

  Sent-create_row :
      (c : String) (p : Option String) (ty ti : String) (co : Option String)
      → Preserves Same (Repository.create c p ty ti co)
  unfolding Repository.create Assets.create_asset
  Sent-create_row c p ty ti co =
      Preserves-bind Same _ _
        (Sent-exec ms n violation (Assets.create_asset c p ty ti co) (λ d r d' h. ground arith))
        (λ row. record { at = λ w h. h })

  Sent-check_request :
      (p : Option String) (ty : String) (co : Option String)
      → Preserves Same (check_request p ty co)
  unfolding check_request
  Sent-check_request p ty co = search preserve_rules

  -- A creation sends a message for a note.
  pub Sent-create :
      (c : String) (p : Option String) (ty ti : String) (co : Option String)
      → Triple Same
          (create c p ty ti co)
          (λ x.
            Sent
              (sent_if (ty == type_note) (change "NOTE_CREATED" x.asset_id x.owner_id n) ++ ms)
              n)
          Same
  unfolding create store
  Sent-create c p ty ti co = Triple-bind _ _ _ _ _ _ (Sent-check_request p ty co) (λ _.
      Triple-bind _ _ _ _ _ _ (Preserves-check_parent Same (λ A. Sent-one ms n) p c) (λ _.
        Triple-bind _ _ _ _ _ _ (Sent-create_row c p ty ti co) (λ x.
          Triple-bind _ _ _ _ _ _
            (Sent-when ms n Same (ty == type_note) "NOTE_CREATED" x.asset_id x.owner_id)
            (λ _. record { at = λ w h. h }))))

  Sent-update_exec :
      (a ti : String) (co : Option String)
      → Preserves Same (exec no_rows (Assets.update_asset a ti co))
  unfolding Assets.update_asset
  Sent-update_exec a ti co =
      Sent-exec ms n no_rows (Assets.update_asset a ti co) (λ d r d' h. ground arith)

  Sent-update_row :
      (a ti : String) (co : Option String) → Preserves Same (Repository.update a ti co)
  unfolding Repository.update
  Sent-update_row a ti co = search (preserve_rules, Sent-update_exec) depth 8

  Sent-evict_all :
      (R : World → Type 0) (ids : List String) → Triple Same (evict_all ids) (λ _. Same) R
  unfolding evict_all
  Sent-evict_all R [] = record { at = λ w h. h }
  Sent-evict_all R (i ∷ ids) =
      Triple-bind _ _ _ _ _ _ (Sent-redis_del ms n R _)
        (λ _. Triple-bind _ _ _ _ _ _ (Sent-redis_del ms n R _) (λ _. Sent-evict_all R ids))

  pub Sent-evict_acls :
      (R : World → Type 0) (ids : List String) → Triple Same (evict_acls ids) (λ _. Same) R
  unfolding evict_acls
  Sent-evict_acls R [] = record { at = λ w h. h }
  Sent-evict_acls R (i ∷ ids) =
      Triple-bind _ _ _ _ _ _ (Sent-redis_del ms n R _) (λ _. Sent-evict_acls R ids)

  Sent-descendants : (x : Asset) (a : String) → Preserves Same (descendants_of x a)
  unfolding Repository.get_descendant_ids
  Sent-descendants x a = search (preserve_rules, Sent-many ms n) depth 8

  Sent-delete_row : (a : String) → Preserves Same (Repository.delete a)
  unfolding Repository.delete Assets.delete_asset
  Sent-delete_row a = Sent-exec ms n no_rows (Assets.delete_asset a) (λ d z d' h. ground arith)

  -- An update sends a message for a note.
  pub Sent-update :
      (c a ti : String) (co : Option String) (o : Option Asset)
      → Triple
          (λ w. Same w × (asset_of a w.db ≡ o))
          (update c a ti co)
          (λ _. Sent (of_type type_note "NOTE_UPDATED" a n o ++ ms) n)
          Same
  unfolding update rewrite
  Sent-update c a ti co o = Triple-bind _ _ _ _ _ _ (Sent-get_found ms n a o) (λ x. given (λ there.
      rw there (
        Triple-bind _ _ _ _ _ _ (Preserves-check_update Same (λ A. Sent-one ms n) x co c) (λ _.
          Triple-bind _ _ _ _ _ _ (Sent-update_row a ti co) (λ y.
            Triple-bind _ _ _ _ _ _
              (Sent-when ms n Same (x.type == type_note) "NOTE_UPDATED" a x.owner_id)
              (λ _.
                Triple-bind _ _ _ _ _ _ (Sent-redis_del _ n Same _)
                  (λ _. record { at = λ w h. h })))))))

  -- A deletion sends a message for a folder.
  pub Sent-delete :
      (c a : String) (o : Option Asset)
      → Triple
          (λ w. Same w × (asset_of a w.db ≡ o))
          (delete c a)
          (λ _. Sent (of_type type_folder "FOLDER_DELETED" a n o ++ ms) n)
          Same
  unfolding delete after_delete
  Sent-delete c a o = Triple-bind _ _ _ _ _ _ (Sent-get_found ms n a o) (λ x. given (λ there.
      rw there (
        Triple-bind _ _ _ _ _ _ (Preserves-raise_if Same (not (x.owner_id == c)) forbidden) (λ _.
          Triple-bind _ _ _ _ _ _ (Sent-descendants x a) (λ ids.
            Triple-bind _ _ _ _ _ _ (Sent-delete_row a) (λ _.
              Triple-bind _ _ _ _ _ _ (Sent-redis_del ms n Same _) (λ _.
                Triple-bind _ _ _ _ _ _ (Sent-redis_del ms n Same _) (λ _.
                  Triple-bind _ _ _ _ _ _ (Sent-evict_all Same ids) (λ _.
                    Sent-when ms n Same (x.type == type_folder) "FOLDER_DELETED" a
                      x.owner_id)))))))))
