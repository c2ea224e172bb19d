-- ===== src/Core/Asset/Fresh/Changes.antt =====
-- What the queries that write change of the assets and the grants, and the drops that follow them.
use seta_training.Prelude.{
  String, Bool, true, false, ◌||◌, not, List, [], ◌∷◌, Option, some, ◌≡◌, ◌==◌, arith, eq_iff,
  exists, find-append, find-select_keep, select-upsert_miss, select-select_keep,
}
use seta_training.Core.Db.{Database, AssetRow}
use seta_training.Core.Db.Assets
use seta_training.Core.Db.Assets.{is_asset, contains, cascade_ids}
use seta_training.Core.Db.Acl
use seta_training.Core.Db.Tree.{get_asset_by_id-update}
use seta_training.Core.World.{World}
use seta_training.Core.World.Triple.{Triple, Triple-bind, Triple-before}
use seta_training.Core.Asset.{evict_all, evict_acls}
use seta_training.Core.Asset.Fresh.{
  IsFresh, IsFresh-wider, Agrees, nothing, Fresh-drop_asset, Fresh-drop_grants,
}

pub create_asset-Agrees :
    (o : String) (p : Option String) (ty ti : String) (co : Option String) (d : Database)
    (row : AssetRow) (d' : Database)
    → Assets.create_asset o p ty ti co d ≡ some (row, d')
    → Agrees nothing nothing d d'
unfolding Assets.create_asset Assets.get_asset_by_id Acl.list_asset_acl
create_asset-Agrees o p ty ti co d row d' h = record {
  clock = ground arith;
  assets = λ b x n old. ground (arith, find-append (is_asset b) d.assets (row ∷ []));
  grants = λ b n. ground arith;
}

update_asset_frame :
    (a ti : String) (co : Option String) (d : Database) (row : AssetRow) (d' : Database)
    → Assets.update_asset a ti co d ≡ some (row, d')
    → (d'.now ≡ d.now) × (d'.acl ≡ d.acl)
unfolding Assets.update_asset
update_asset_frame a ti co d row d' h = (ground arith, ground arith)

module _ (s : String → Bool) (i : String)
    (out : (b : String) → s b ≡ false → (i == b) ≡ false) where
  pub update_asset-Agrees :
      (ti : String) (co : Option String) (d : Database) (row : AssetRow) (d' : Database)
      → Assets.update_asset i ti co d ≡ some (row, d')
      → Agrees s nothing d d'
  unfolding Acl.list_asset_acl
  update_asset-Agrees ti co d row d' h =
      let (now_same, acl_same) = update_asset_frame i ti co d row d' h in
      record {
        clock = now_same;
        assets = λ b x n old. ground (arith, out b n, get_asset_by_id-update i ti co b d h);
        grants = λ b n. ground (arith, acl_same);
      }

  pub upsert_asset_acl-Agrees :
      (u level : String) (d d' : Database)
      → Acl.upsert_asset_acl i u level d ≡ some (tt, d')
      → Agrees nothing s d d'
  unfolding Acl.upsert_asset_acl Assets.get_asset_by_id Acl.list_asset_acl
  upsert_asset_acl-Agrees u level d d' h = record {
    clock = ground arith;
    assets = λ b x n old. ground arith;
    grants = λ b n. ground (
      arith,
      select-upsert_miss (Acl.is_grant i u) (λ r. r.asset_id == b)
          (record { asset_id = i; user_id = u; access_level = level }) d.acl (out b n)
          (λ x k. ground (arith, out b n, eq_iff x.asset_id i)),
    );
  }

  pub delete_acl-Agrees :
      (u : String) (d d' : Database)
      → Acl.delete_asset_acl_entry i u d ≡ some (tt, d')
      → Agrees nothing s d d'
  unfolding Acl.delete_asset_acl_entry Assets.get_asset_by_id Acl.list_asset_acl
  delete_acl-Agrees u d d' h = record {
    clock = ground arith;
    assets = λ b x n old. ground arith;
    grants = λ b n. ground (
      arith,
      select-select_keep (λ r. not (Acl.is_grant i u r)) (λ r. r.asset_id == b) d.acl
          (λ x k. ground (arith, out b n, eq_iff x.asset_id i, eq_iff x.asset_id b, eq_iff i b)),
    );
  }

-- A deletion changes nothing of an asset that the cascade does not reach.
pub delete_asset-Agrees :
    (a : String) (s : String → Bool) (d : Database) (z : Unit {0}) (d' : Database)
    → ((b : String) → contains (cascade_ids a d) b ≡ true → s b ≡ true)
    → Assets.delete_asset a d ≡ some (z, d')
    → Agrees s s d d'
unfolding Assets.delete_asset Assets.get_asset_by_id Acl.list_asset_acl
delete_asset-Agrees a s d z d' covers h = record {
  clock = ground arith;
  assets = λ b x n old. ground (
    arith,
    find-select_keep (λ r. not (contains (cascade_ids a d) r.asset_id)) (is_asset b) d.assets
        (λ r k. ground (arith, eq_iff r.asset_id b, covers b)),
  );
  grants = λ b n. ground (
    arith,
    select-select_keep (λ r. not (contains (cascade_ids a d) r.asset_id)) (λ r. r.asset_id == b)
        d.acl (λ r k. ground (arith, eq_iff r.asset_id b, covers b)),
  );
}

module _ (R : World → Type 0) where
  -- The drops of the entries of some assets, of which nothing is excepted any more.
  pub Fresh-evict_acls :
      (sa sg : String → Bool) (ids : List String)
      → Triple (IsFresh sa (λ b. contains ids b || sg b)) (evict_acls ids) (λ _. IsFresh sa sg) R
  unfolding evict_acls contains exists
  Fresh-evict_acls sa sg [] = record { at = λ w h. h }
  Fresh-evict_acls sa sg (i ∷ ids) =
      Triple-bind _ _ _ _ _ _
        (Triple-before
          (λ w h.
            IsFresh-wider _ _ sa (λ b. i == b || (contains ids b || sg b)) w (λ b n. n)
              (λ b n. ground arith) h)
          (Fresh-drop_grants sa (λ b. contains ids b || sg b) R i))
        (λ _. Fresh-evict_acls sa sg ids)

  pub Fresh-evict_all :
      (sa sg : String → Bool) (ids : List String)
      → Triple
          (IsFresh (λ b. contains ids b || sa b) (λ b. contains ids b || sg b))
          (evict_all ids)
          (λ _. IsFresh sa sg)
          R
  unfolding evict_all contains exists
  Fresh-evict_all sa sg [] = record { at = λ w h. h }
  Fresh-evict_all sa sg (i ∷ ids) =
      Triple-bind _ _ _ _ _ _
        (Triple-before
          (λ w h.
            IsFresh-wider _ _ (λ b. i == b || (contains ids b || sa b))
              (λ b. i == b || (contains ids b || sg b)) w (λ b n. ground arith)
              (λ b n. ground arith) h)
          (Fresh-drop_asset (λ b. contains ids b || sa b) (λ b. i == b || (contains ids b || sg b))
            R i))
        (λ _.
          Triple-bind _ _ _ _ _ _
            (Fresh-drop_grants (λ b. contains ids b || sa b) (λ b. contains ids b || sg b) R i)
            (λ _. Fresh-evict_all sa sg ids))
