-- ===== src/Core/Db/Tree.antt =====
-- The assets as a map from ids to rows under each query that writes, and the tree that they form.
use seta_training.Prelude.{
  String, true, not, List, [], ◌∷◌, Option, none, some, ◌≡◌, ◌≢◌, ◌==◌, arith, eq_iff,
  if◌then◌else◌, Bool-cases, Option-cases, inl, inr, find, find-append, find-map, find-select_keep,
  find-select_drop, exists-eq-find, find_sound,
}
use seta_training.Core.Db.Tables.{AssetRow, Database}
use seta_training.Core.Db.Assets.{
  is_asset, get_asset_by_id, create_asset, update_asset, delete_asset, rewritten, contains,
  has_parent_in, orphan_ids, cascade_ids,
}
use seta_training.Core.Db.Cascade.{cascade_ids-closed}

pub get_asset_by_id-create :
    (owner : String) (parent : Option String) (type title : String) (content : Option String)
    (a : String) (d : Database) {row : AssetRow} {d' : Database}
    → create_asset owner parent type title content d ≡ some (row, d')
    → get_asset_by_id a d' ≡ (if row.asset_id == a then some row else get_asset_by_id a d)
unfolding create_asset get_asset_by_id find
get_asset_by_id-create owner parent type title content a d {row} h = ground (
  arith,
  find-append (is_asset a) d.assets (row ∷ []),
  exists-eq-find (is_asset row.asset_id) d.assets,
  eq_iff row.asset_id a,
)

-- The new row has the columns that were given.
pub create_asset_row :
    (owner : String) (parent : Option String) (type title : String) (content : Option String)
    (d : Database) {row : AssetRow} {d' : Database}
    → create_asset owner parent type title content d ≡ some (row, d')
    → (row.owner_id ≡ owner)
      × (row.parent_id ≡ parent)
      × (row.type ≡ type)
      × (row.title ≡ title)
      × (row.content ≡ content)
      × (get_asset_by_id row.asset_id d ≡ none)
unfolding create_asset get_asset_by_id
create_asset_row owner parent type title content d {row} h =
    ground (arith, exists-eq-find (is_asset row.asset_id) d.assets)

pub get_asset_by_id-update :
    (a title : String) (content : Option String) (b : String) (d : Database) {row : AssetRow}
    {d' : Database}
    → update_asset a title content d ≡ some (row, d')
    → get_asset_by_id b d' ≡ (if a == b then some row else get_asset_by_id b d)
unfolding update_asset get_asset_by_id
get_asset_by_id-update a title content b d h = elim (Option-cases (find (is_asset b) d.assets)) [
  | inl missing ↦ ground (
    arith,
    eq_iff a b,
    find-map (λ r. if is_asset a r then rewritten title content r else r) (is_asset b) d.assets
        (λ x. ground arith),
  )
  | inr (r, there) ↦ ground (
    arith,
    eq_iff a b,
    eq_iff r.asset_id a,
    eq_iff r.asset_id b,
    find_sound (is_asset b) d.assets r there,
    find-map (λ r. if is_asset a r then rewritten title content r else r) (is_asset b) d.assets
        (λ x. ground arith),
  )
]

-- An update finds the row, and changes its title and content.
pub update_asset_row :
    (a title : String) (content : Option String) (d : Database) {row : AssetRow} {d' : Database}
    → update_asset a title content d ≡ some (row, d')
    → (r : AssetRow) × (get_asset_by_id a d ≡ some r) × (row ≡ rewritten title content r)
unfolding update_asset
update_asset_row a title content d h = elim (Option-cases (get_asset_by_id a d)) [
  | inl missing ↦ absurd (ground arith)
  | inr (r, there) ↦ (r, there, ground arith)
]

pub get_asset_by_id-delete :
    (a b : String) (d : Database) {d' : Database}
    → delete_asset a d ≡ some (tt, d')
    → get_asset_by_id b d' ≡ (if contains (cascade_ids a d) b then none else get_asset_by_id b d)
unfolding delete_asset get_asset_by_id
get_asset_by_id-delete a b d {d'} h = elim (Bool-cases (contains (cascade_ids a d) b)) [
  | inl gone ↦ ground (
    arith,
    find-select_drop (λ r. not (contains (cascade_ids a d) r.asset_id)) (is_asset b) d.assets
        (λ x k. ground (arith, eq_iff x.asset_id b)),
  )
  | inr kept ↦ ground (
    arith,
    find-select_keep (λ r. not (contains (cascade_ids a d) r.asset_id)) (is_asset b) d.assets
        (λ x k. ground (arith, eq_iff x.asset_id b)),
  )
]

-- A row below the removed ones is among them.
below_gone :
    (gone : List String) (a : String) (rows : List AssetRow) (row : AssetRow)
    → orphan_ids gone rows ≡ []
    → find (is_asset a) rows ≡ some row
    → has_parent_in gone row.parent_id ≡ true
    → contains gone a ≡ true
unfolding orphan_ids find
below_gone gone a [] row closed h below = cc
below_gone gone a (r ∷ rs) row closed h below =
    ground (arith, below_gone gone a rs row, eq_iff r.asset_id a)

parent_gone :
    (a b : String) (d : Database) (row : AssetRow)
    → get_asset_by_id b d ≡ some row
    → has_parent_in (cascade_ids a d) row.parent_id ≡ true
    → contains (cascade_ids a d) b ≡ true
unfolding get_asset_by_id
parent_gone a b d row e below =
    below_gone (cascade_ids a d) b d.assets row (cascade_ids-closed a d) e below

-- The type of the asset with an id.
abbrev pub type_of : Option AssetRow → Option String
type_of none = none
type_of (some r) = some r.type

-- A note has a parent, a folder has no content, and a parent is a folder that exists.
pub record IsTree (d : Database) : Type 0 where
  pub note_parent :
      (a : String) (row : AssetRow)
      → get_asset_by_id a d ≡ some row
      → row.type ≡ "note"
      → row.parent_id ≢ none
  pub folder_content :
      (a : String) (row : AssetRow)
      → get_asset_by_id a d ≡ some row
      → row.type ≡ "folder"
      → row.content ≡ none
  pub parent_folder :
      (a p : String) (row : AssetRow)
      → get_asset_by_id a d ≡ some row
      → row.parent_id ≡ some p
      → type_of (get_asset_by_id p d) ≡ some "folder"

-- The table of assets alone decides.
pub IsTree-of_same :
    (d d' : Database)
    → ((a : String) → get_asset_by_id a d' ≡ get_asset_by_id a d)
    → IsTree d
    → IsTree d'
IsTree-of_same d d' same t = record {
  note_parent = λ a row e. ground (arith, same a, t.note_parent a row);
  folder_content = λ a row e. ground (arith, same a, t.folder_content a row);
  parent_folder = λ a p row e. ground (arith, same a, same p, t.parent_folder a p row);
}

pub delete_asset-IsTree :
    (a : String) (d d' : Database) → delete_asset a d ≡ some (tt, d') → IsTree d → IsTree d'
delete_asset-IsTree a d d' h t = record {
  note_parent = λ b row e. ground (arith, get_asset_by_id-delete a b d h, t.note_parent b row);
  folder_content =
      λ b row e. ground (arith, get_asset_by_id-delete a b d h, t.folder_content b row);
  parent_folder = λ b p row e q. ground (
    arith,
    get_asset_by_id-delete a b d h,
    get_asset_by_id-delete a p d h,
    t.parent_folder b p row,
    parent_gone a b d row,
  );
}

pub update_asset-IsTree :
    (a title : String) (content : Option String) (d d' : Database) (row : AssetRow)
    → update_asset a title content d ≡ some (row, d')
    → (type_of (get_asset_by_id a d) ≡ some "folder" → content ≡ none)
    → IsTree d
    → IsTree d'
update_asset-IsTree a title content d d' row h guard t =
    let (r, there, is) = update_asset_row a title content d h in
    record {
      note_parent = λ b row' e. ground (
        arith,
        get_asset_by_id-update a title content b d h,
        t.note_parent b row',
        t.note_parent a r,
      );
      folder_content = λ b row' e.
          ground (arith, get_asset_by_id-update a title content b d h, t.folder_content b row');
      parent_folder = λ b p row' e q. ground (
        arith,
        get_asset_by_id-update a title content b d h,
        get_asset_by_id-update a title content p d h,
        t.parent_folder b p row',
        t.parent_folder a p r,
        eq_iff a p,
      );
    }

pub create_asset-IsTree :
    (owner : String) (parent : Option String) (type title : String) (content : Option String)
    (d d' : Database) (row : AssetRow)
    → create_asset owner parent type title content d ≡ some (row, d')
    → (type ≡ "note" → parent ≢ none)
    → (type ≡ "folder" → content ≡ none)
    → ((p : String) → parent ≡ some p → type_of (get_asset_by_id p d) ≡ some "folder")
    → IsTree d
    → IsTree d'
create_asset-IsTree owner parent type title content d d' row h notes folders parents t =
    let here = create_asset_row owner parent type title content d h in
    record {
      note_parent = λ b row' e. ground (
        arith,
        get_asset_by_id-create owner parent type title content b d h,
        t.note_parent b row',
        here,
        notes,
      );
      folder_content = λ b row' e. ground (
        arith,
        get_asset_by_id-create owner parent type title content b d h,
        t.folder_content b row',
        here,
        folders,
      );
      parent_folder = λ b p row' e q. ground (
        arith,
        get_asset_by_id-create owner parent type title content b d h,
        get_asset_by_id-create owner parent type title content p d h,
        t.parent_folder b p row',
        here,
        parents p,
        eq_iff row.asset_id p,
      );
    }
