-- ===== src/Core/Asset/Published/Shares.antt =====
-- Shares, revocations and reads, and the messages that each of them sends.
use seta_training.Prelude.{
  ℕ, String, List, [], ◌∷◌, ◌++◌, Option, none, some, ◌≡◌, ◌==◌, not, arith, ◌>>◌, Bool-cases, inl,
  inr,
}
use seta_training.Core.Db.{Database}
use seta_training.Core.Db.Acl
use seta_training.Core.World.{
  Error, no_rows, violation, forbidden, World, Message, Asset, AssetAcl, exec, transaction,
}
use seta_training.Core.World.Keys.{asset_acl_key}
use seta_training.Core.World.Triple.{
  Triple, Preserves, Triple-bind, Preserves-bind, Preserves-raise_if, preserve_rules,
}
use seta_training.Core.Asset.Repository
use seta_training.Core.Asset.Repository.{for_each, cascade, type_folder}
use seta_training.Core.Asset.{
  get_by_id, cached_asset, load_asset, cached_acl, load_acl, require_read_access, share,
  after_share, revoke_share, list,
}
use seta_training.Core.Asset.Checks.{Preserves-check_share, Preserves-get}
use seta_training.Core.Asset.Fresh.{asset_of}
use seta_training.Core.Asset.Published.{
  change, sent_if, Sent, Sent-one, Sent-many, Sent-exec, Sent-transaction, Sent-redis_get,
  Sent-redis_set, Sent-redis_del, Sent-publish, Sent-get_found,
}
use seta_training.Core.Asset.Published.Requests.{of_type, given, Sent-evict_acls}

module _ (ms : List Message) (n : ℕ) where
  abbrev Same : World → Type 0
  Same = Sent ms n

  module _ (e : Error) (f : String → Database → Option (Unit {0} × Database))
      (clock : (i : String) (d : Database) (z : Unit {0}) (d' : Database)
        → f i d ≡ some (z, d')
        → d'.now ≡ d.now) where
    Sent-for_each : (ids : List String) → Preserves Same (for_each (λ id. exec e (f id)) ids)
    unfolding for_each
    Sent-for_each [] = record { at = λ w h. h }
    Sent-for_each (i ∷ ids) =
        Preserves-bind Same _ _ (Sent-exec ms n e (f i) (clock i)) (λ _. Sent-for_each ids)

    Sent-cascade : (a ty : String) → Preserves Same (cascade (λ id. exec e (f id)) a ty)
    unfolding cascade
    Sent-cascade a ty = search (preserve_rules, Sent-many ms n, Sent-for_each) depth 10

    Sent-grants :
        (a ty : String)
        → Preserves Same (transaction (do exec e (f a); cascade (λ id. exec e (f id)) a ty))
    Sent-grants a ty =
        Sent-transaction ms n _
          (Preserves-bind Same _ _ (Sent-exec ms n e (f a) (clock a)) (λ _. Sent-cascade a ty))

  Sent-after_share :
      (x : Asset) (a : String) (ids : List String)
      → Triple Same
          (after_share x a ids)
          (λ _.
            Sent (sent_if (x.type == type_folder) (change "FOLDER_SHARED" a x.owner_id n) ++ ms) n)
          Same
  unfolding after_share
  Sent-after_share x a ids = elim (Bool-cases (x.type == type_folder)) [
    | inl is_folder ↦ rw is_folder (
        Triple-bind _ _ _ _ _ _
          (Triple-bind _ _ _ _ _ _ (Sent-publish ms n Same "FOLDER_SHARED" a x.owner_id)
            (λ _. Sent-evict_acls (change "FOLDER_SHARED" a x.owner_id n ∷ ms) n Same ids))
          (λ _. Sent-redis_del _ n Same _))
    | inr is_note ↦
        rw is_note (record { at = λ w h. (Sent-redis_del ms n Same (asset_acl_key a)).at w h })
  ]

  -- A share sends a message for a folder.
  pub Sent-share :
      (c a u level : String) (o : Option Asset)
      → Triple
          (λ w. Same w × (asset_of a w.db ≡ o))
          (share c a u level)
          (λ _. Sent (of_type type_folder "FOLDER_SHARED" a n o ++ ms) n)
          Same
  unfolding share Repository.upsert_acl_with_cascade Acl.upsert_asset_acl
  Sent-share c a u level o = Triple-bind _ _ _ _ _ _ (Sent-get_found ms n a o) (λ x. given (λ there.
      rw there (
        Triple-bind _ _ _ _ _ _ (Preserves-check_share Same (λ A. Sent-one ms n) x c u) (λ _.
          Triple-bind _ _ _ _ _ _
            (Sent-grants violation (λ id. Acl.upsert_asset_acl id u level)
              (λ i d z d' h. ground arith) a x.type)
            (λ ids. Sent-after_share x a ids)))))

  pub Sent-revoke : (c a u : String) → Preserves Same (revoke_share c a u)
  unfolding revoke_share Repository.delete_acl_with_cascade Acl.delete_asset_acl_entry
  Sent-revoke c a u = Preserves-bind Same _ _ (Preserves-get Same (λ A. Sent-one ms n) a) (λ x.
      Preserves-bind Same _ _ (Preserves-raise_if Same (not (x.owner_id == c)) forbidden) (λ _.
        Preserves-bind Same _ _
          (Sent-grants no_rows (λ id. Acl.delete_asset_acl_entry id u) (λ i d z d' h. ground arith)
            a x.type)
          (λ ids.
            Preserves-bind Same _ _ (Sent-evict_acls ms n Same ids)
              (λ _. Sent-redis_del ms n Same _))))

  Sent-load_asset : (a : String) (o : Option Asset) → Preserves Same (load_asset a o)
  Sent-load_asset a (some x) = record { at = λ w h. h }
  Sent-load_asset a none =
      search (preserve_rules, Preserves-get Same (λ A. Sent-one ms n), Sent-redis_set ms n) depth 8

  Sent-load_acl : (a : String) (o : Option (List AssetAcl)) → Preserves Same (load_acl a o)
  unfolding Repository.list_acl_by_asset
  Sent-load_acl a (some es) = record { at = λ w h. h }
  Sent-load_acl a none = search (preserve_rules, Sent-many ms n, Sent-redis_set ms n) depth 10

  Sent-cached_asset : (a : String) → Preserves Same (cached_asset a)
  unfolding cached_asset
  Sent-cached_asset a = search (preserve_rules, Sent-redis_get ms n, Sent-load_asset) depth 8

  Sent-cached_acl : (a : String) → Preserves Same (cached_acl a)
  unfolding cached_acl
  Sent-cached_acl a = search (preserve_rules, Sent-redis_get ms n, Sent-load_acl) depth 8

  Sent-require_read_access : (x : Asset) (c a : String) → Preserves Same (require_read_access x c a)
  unfolding require_read_access Repository.is_manager_of_owner
  Sent-require_read_access x c a = search (preserve_rules, Sent-cached_acl, Sent-many ms n) depth 10

  pub Sent-read : (c a : String) → Preserves Same (get_by_id c a)
  unfolding get_by_id
  Sent-read c a = search (preserve_rules, Sent-cached_asset, Sent-require_read_access) depth 10

  pub Sent-list : (c : String) (page limit : ℕ) → Preserves Same (list c page limit)
  unfolding list Repository.list Repository.count_by_owner
  Sent-list c page limit = search (preserve_rules, Sent-many ms n) depth 12
