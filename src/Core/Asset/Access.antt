-- ===== src/Core/Asset/Access.antt =====
-- Who may read and change an asset.
use seta_training.Prelude.{
  String, true, Option, none, some, ◌≡◌, ◌⊎◌, inl, inr, ok, is_ok, arith, eq_iff, find_sound,
  Option-cases, Result-cases, ap, sym, ◌∙◌,
}
use seta_training.Core.Db.{Database, AssetRow}
use seta_training.Core.Db.Assets
use seta_training.Core.Db.Acl
use seta_training.Core.Db.Tree.{type_of}
use seta_training.Core.Db.Grants.{level_of, grant}
use seta_training.Core.World.{World, after_call, Asset, one}
use seta_training.Core.Asset.Repository
use seta_training.Core.Asset.Repository.{row_to_asset}
use seta_training.Core.Asset.{
  check_folder, check_parent, update, check_update, rewrite, delete, share, check_share,
  revoke_share, require_write_access,
}

abbrev pub owner_of : Option AssetRow → Option String
owner_of none = none
owner_of (some r) = some r.owner_id

-- The caller owns the asset.
abbrev pub Owns : String → String → Database → Type 0
Owns c a d = owner_of (Assets.get_asset_by_id a d) ≡ some c

-- The caller owns the asset or has a grant to write.
abbrev pub MayWrite : String → String → Database → Type 0
MayWrite c a d = Owns c a d ⊎ (grant a c d ≡ some "write")

pub db-require_write_access :
    (x : Asset) (c : String) (w : World) → (require_write_access x c w).1.db ≡ w.db
unfolding require_write_access Repository.get_acl_entry one
db-require_write_access x c w = ground arith

pub require_write_access_sound :
    (x : Asset) (c : String) (w : World)
    → is_ok (require_write_access x c w).0 ≡ true
    → (x.owner_id ≡ c) ⊎ (level_of (Acl.get_asset_acl x.asset_id c w.db) ≡ some "write")
unfolding require_write_access Repository.get_acl_entry one
require_write_access_sound x c w h = grind (arith, eq_iff)

-- The row that a read by id finds has that id.
pub get_asset_by_id_sound :
    (a : String) (d : Database) (row : AssetRow)
    → Assets.get_asset_by_id a d ≡ some row
    → row.asset_id ≡ a
unfolding Assets.get_asset_by_id
get_asset_by_id_sound a d row h = (eq_iff row.asset_id a).0 (find_sound _ _ row h)

-- A read by id leaves the database, and gives its row.
pub get_by_id_sound :
    (a : String) (w : World) (x : Asset)
    → (Repository.get_by_id a w).0 ≡ ok x
    → (row : AssetRow) × (Assets.get_asset_by_id a w.db ≡ some row)
      × (x ≡ row_to_asset row)
      × (x.asset_id ≡ a)
unfolding Repository.get_by_id one
get_by_id_sound a w x h = elim (Option-cases (Assets.get_asset_by_id a w.db)) [
  | inl missing ↦ absurd (ground arith)
  | inr (row, there) ↦
      (row, there, ground arith, ground (arith, get_asset_by_id_sound a w.db row there))
]

pub db-get_by_id : (a : String) (w : World) → (Repository.get_by_id a w).1.db ≡ w.db
unfolding Repository.get_by_id one
db-get_by_id a w = ground arith

pub db-check_update :
    (x : Asset) (co : Option String) (c : String) (w : World) → (check_update x co c w).1.db ≡ w.db
unfolding check_update
db-check_update x co c w = ground (arith, db-require_write_access x c w)

pub check_update_sound :
    (x : Asset) (co : Option String) (c : String) (w : World)
    → is_ok (check_update x co c w).0 ≡ true
    → ((x.owner_id ≡ c) ⊎ (level_of (Acl.get_asset_acl x.asset_id c w.db) ≡ some "write"))
      × (x.type ≡ "folder" → co ≡ none)
unfolding check_update
check_update_sound x co c w h =
    (ground (arith, require_write_access_sound x c w), ground (arith, eq_iff x.type "folder"))

-- The servers after the read of an update.
abbrev pub read_first : String → World → World
read_first a w = (Repository.get_by_id a w).1

-- An update that succeeds has read the asset and passed its checks.
pub update_cases :
    (c a ti : String) (co : Option String) (w : World)
    → is_ok (update c a ti co w).0 ≡ true
    → (x : Asset) × ((Repository.get_by_id a w).0 ≡ ok x)
      × (is_ok (check_update x co c (read_first a w)).0 ≡ true)
      × (is_ok (rewrite x a ti co (check_update x co c (read_first a w)).1).0 ≡ true)
      × ((update c a ti co w).1 ≡ (rewrite x a ti co (check_update x co c (read_first a w)).1).1)
unfolding update
update_cases c a ti co w h = elim (Result-cases (Repository.get_by_id a w).0) [
  | inl (x, found) ↦ (x, found, ground arith, ground arith, ground arith)
  | inr (e, failed) ↦ absurd (ground arith)
]

owned_row :
    (c a : String) (w : World) (x : Asset)
    → (Repository.get_by_id a w).0 ≡ ok x
    → (x.owner_id ≡ c) ⊎ (level_of (Acl.get_asset_acl x.asset_id c w.db) ≡ some "write")
    → MayWrite c a w.db
owned_row c a w x found may =
    let (row, there, is, id) = get_by_id_sound a w x found in
    elim may [
      | inl own ↦ inl (rw there (ap (λ (y : Asset). some y.owner_id) (sym is) ∙ ap some own))
      | inr grant ↦ inr (rw id at grant)
    ]

pub update-MayWrite :
    (c a ti : String) (co : Option String) (w : World)
    → is_ok (update c a ti co w).0 ≡ true
    → MayWrite c a w.db
update-MayWrite c a ti co w h =
    let (x, found, allowed, _, _) = update_cases c a ti co w h in
    owned_row c a w x found
      (rw db-get_by_id at (check_update_sound x co c (read_first a w) allowed).0)

pub delete-Owns : (c a : String) (w : World) → is_ok (delete c a w).0 ≡ true → Owns c a w.db
unfolding delete Repository.get_by_id one
delete-Owns c a w h = elim (Option-cases (Assets.get_asset_by_id a w.db)) [
  | inl missing ↦ absurd (ground arith)
  | inr (row, there) ↦ ground (arith, eq_iff row.owner_id c)
]

pub share-Owns :
    (c a u level : String) (w : World) → is_ok (share c a u level w).0 ≡ true → Owns c a w.db
unfolding share check_share Repository.get_by_id one
share-Owns c a u level w h = elim (Option-cases (Assets.get_asset_by_id a w.db)) [
  | inl missing ↦ absurd (ground arith)
  | inr (row, there) ↦ ground (arith, eq_iff row.owner_id c)
]

pub revoke_share-Owns :
    (c a u : String) (w : World) → is_ok (revoke_share c a u w).0 ≡ true → Owns c a w.db
unfolding revoke_share Repository.get_by_id one
revoke_share-Owns c a u w h = elim (Option-cases (Assets.get_asset_by_id a w.db)) [
  | inl missing ↦ absurd (ground arith)
  | inr (row, there) ↦ ground (arith, eq_iff row.owner_id c)
]

check_folder_sound :
    (x : Asset) (c : String) (w : World)
    → is_ok (check_folder x c w).0 ≡ true
    → ((x.owner_id ≡ c) ⊎ (level_of (Acl.get_asset_acl x.asset_id c w.db) ≡ some "write"))
      × (x.type ≡ "folder")
unfolding check_folder
check_folder_sound x c w h =
    (ground (arith, require_write_access_sound x c w), ground (arith, eq_iff x.type "folder"))

pub check_parent_sound :
    (p c : String) (w : World)
    → is_ok (check_parent (some p) c w).0 ≡ true
    → MayWrite c p w.db × (type_of (Assets.get_asset_by_id p w.db) ≡ some "folder")
unfolding check_parent Repository.get_by_id one
check_parent_sound p c w h = elim (Option-cases (Assets.get_asset_by_id p w.db)) [
  | inl missing ↦ absurd (ground arith)
  | inr (row, there) ↦ (
    ground (
      arith,
      get_asset_by_id_sound p w.db row there,
      check_folder_sound (row_to_asset row) c (after_call w),
    ),
    ground (arith, check_folder_sound (row_to_asset row) c (after_call w)),
  )
]
