-- ===== src/Core/Db/Grants.antt =====
-- The grants as a map from an asset and a user to a level, under each query that writes.
use seta_training.Prelude.{
  String, not, ◌≡◌, ◌&&◌, ◌==◌, Option, none, some, arith, inl, inr, Bool-cases, find-upsert_hit,
  find-upsert_miss, find-select_keep, find-select_drop, pair_same, pair_apart, if◌then◌else◌,
}
use seta_training.Core.Db.Tables.{AclRow, Database}
use seta_training.Core.Db.Assets.{get_descendant_ids}
use seta_training.Core.Db.Acl.{is_grant, get_asset_acl, upsert_asset_acl, delete_asset_acl_entry}

abbrev pub level_of : Option AclRow → Option String
level_of none = none
level_of (some r) = some r.access_level

-- The level that a user has been granted of an asset.
abbrev pub grant : String → String → Database → Option String
grant a u d = level_of (get_asset_acl a u d)

module _ (a u level b v : String) (d : Database) {d' : Database}
    (done : upsert_asset_acl a u level d ≡ some (tt, d')) where
  pub grant-upsert : grant b v d' ≡ (if a == b && u == v then some level else grant b v d)
  unfolding get_asset_acl upsert_asset_acl
  grant-upsert = elim (Bool-cases (a == b && u == v)) [
    | inl hit ↦ ground (
      arith,
      find-upsert_hit (is_grant a u) (is_grant b v)
          (record { asset_id = a; user_id = u; access_level = level }) d.acl hit
          (λ x. pair_same a u b v x.asset_id x.user_id hit),
    )
    | inr miss ↦ ground (
      arith,
      find-upsert_miss (is_grant a u) (is_grant b v)
          (record { asset_id = a; user_id = u; access_level = level }) d.acl miss
          (λ x. pair_apart a u b v x.asset_id x.user_id miss),
    )
  ]

pub assets-upsert :
    (a u level : String) (d d' : Database)
    → upsert_asset_acl a u level d ≡ some (tt, d')
    → d'.assets ≡ d.assets
unfolding upsert_asset_acl
assets-upsert a u level d d' h = ground arith

module _ (a u b v : String) (d : Database) {d' : Database}
    (done : delete_asset_acl_entry a u d ≡ some (tt, d')) where
  pub grant-delete : grant b v d' ≡ (if a == b && u == v then none else grant b v d)
  unfolding get_asset_acl delete_asset_acl_entry
  grant-delete = elim (Bool-cases (a == b && u == v)) [
    | inl hit ↦ ground (
      arith,
      find-select_drop (λ r. not (is_grant a u r)) (is_grant b v) d.acl
          (λ x h. ground (arith, pair_same a u b v x.asset_id x.user_id hit)),
    )
    | inr miss ↦ ground (
      arith,
      find-select_keep (λ r. not (is_grant a u r)) (is_grant b v) d.acl
          (λ x h. ground (arith, pair_apart a u b v x.asset_id x.user_id miss)),
    )
  ]

pub assets-delete :
    (a u : String) (d d' : Database)
    → delete_asset_acl_entry a u d ≡ some (tt, d')
    → d'.assets ≡ d.assets
unfolding delete_asset_acl_entry
assets-delete a u d d' h = ground arith

-- The descendants depend on the table of assets.
pub descendants_of_same :
    (a : String) (d d' : Database)
    → d'.assets ≡ d.assets
    → get_descendant_ids a d' ≡ get_descendant_ids a d
unfolding get_descendant_ids
descendants_of_same a d d' h = rw h
