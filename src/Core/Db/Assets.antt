-- ===== src/Core/Db/Assets.antt =====
-- The queries of assets.sql.go, and `GetDescendantIDs` of acl.sql.go.
use seta_training.Prelude.{
  ℕ, zero, suc, ◌+◌, String, Bool, true, false, Option, none, some, List, [], ◌∷◌, ◌++◌, ◌==◌, ◌&&◌,
  ◌||◌, not, find, exists, select, length, map, leb, if◌then◌else◌,
}
use seta_training.Core.Db.Tables.{AssetRow, Database}
use seta_training.Core.Db.Users.{has_user}

abbrev pub is_asset : String → AssetRow → Bool
is_asset a r = r.asset_id == a

unfoldable pub get_asset_by_id : String → Database → Option AssetRow
get_asset_by_id a d = find (is_asset a) d.assets

-- A null parent refers to nothing.
abbrev pub has_parent : Option String → Database → Bool
has_parent none d = true
has_parent (some p) d = exists (is_asset p) d.assets

-- `none`: the id is taken, there is no such owner or parent (foreign keys), or the type is none
-- (`CHECK`).
unfoldable pub create_asset :
    String
    → Option String
    → String
    → String
    → Option String
    → Database
    → Option (AssetRow × Database)
unfolding has_user
create_asset owner_id parent_id type title content d =
    let row : AssetRow = record {
      asset_id = d.uuid d.issued;
      owner_id = owner_id;
      parent_id = parent_id;
      type = type;
      title = title;
      content = content;
      created_at = d.now;
    } in
    if not (exists (is_asset row.asset_id) d.assets)
      && has_user owner_id d
      && has_parent parent_id d
      && (type == "folder" || type == "note")
    then some (row, record d { assets = d.assets ++ row ∷ []; issued = d.issued + 1 })
    else none

abbrev pub rewritten : String → Option String → AssetRow → AssetRow
rewritten title content r = record r { title = title; content = content }

-- The row that the statement returns, if it has found one.
updated_row : String → Option String → Option AssetRow → Database → Option (AssetRow × Database)
updated_row title content none d = none
updated_row title content (some r) d = some (rewritten title content r, d)

-- A statement that finds no row changes nothing, and `Scan` returns `ErrNoRows`.
unfoldable pub update_asset :
    String → String → Option String → Database → Option (AssetRow × Database)
unfolding updated_row get_asset_by_id
update_asset a title content d = updated_row title content (get_asset_by_id a d) (record d {
  assets = map (λ r. if is_asset a r then rewritten title content r else r) d.assets;
})

-- Whether a text is among some.
unfoldable pub contains : List String → String → Bool
contains ids a = exists (λ i. i == a) ids

abbrev pub has_parent_in : List String → Option String → Bool
has_parent_in ids none = false
has_parent_in ids (some p) = contains ids p

-- The ids of the rows whose parent is among `ids`.
unfoldable pub child_ids : List String → List AssetRow → List String
unfolding contains
child_ids ids [] = []
child_ids ids (r ∷ rs) =
    let rest = child_ids ids rs in if has_parent_in ids r.parent_id then r.asset_id ∷ rest else rest

-- What lies at most `depth` levels below `ids`, level by level: the recursive query.
unfoldable pub levels : ℕ → List String → List AssetRow → List String
unfolding child_ids
levels zero ids rows = []
levels (suc depth) ids rows =
    let kids = child_ids ids rows in let deeper = levels depth kids rows in kids ++ deeper

-- The recursion ends at `d.depth < 20`.
abbrev pub max_depth : ℕ
max_depth = 20

unfoldable pub get_descendant_ids : String → Database → List String
unfolding levels
get_descendant_ids a d = levels max_depth (a ∷ []) d.assets

-- The ids of the rows below `gone` that are not yet among them.
unfoldable pub orphan_ids : List String → List AssetRow → List String
unfolding contains
orphan_ids gone [] = []
orphan_ids gone (r ∷ rs) =
    let rest = orphan_ids gone rs in
    if has_parent_in gone r.parent_id && not (contains gone r.asset_id)
    then r.asset_id ∷ rest
    else rest

-- `ON DELETE CASCADE` on `parent_id`, round by round, until no row is left below a removed one.
unfoldable pub close_under_children : ℕ → List String → List AssetRow → List String
unfolding orphan_ids
close_under_children zero gone rows = gone
close_under_children (suc fuel) gone rows =
    let more = close_under_children fuel (orphan_ids gone rows ++ gone) rows in
    elim (orphan_ids gone rows) [ [] ↦ gone | _ ∷ _ ↦ more ]

-- Each round removes a row, so the table's length is fuel enough.
unfoldable pub cascade_ids : String → Database → List String
unfolding close_under_children
cascade_ids a d = close_under_children (length d.assets) (a ∷ []) d.assets

-- The rows of assets and, by the cascade on `asset_acl.asset_id`, those of their grants.
unfoldable pub delete_asset : String → Database → Option (Unit {0} × Database)
unfolding cascade_ids contains
delete_asset a d =
    let gone = cascade_ids a d in
    some (
      tt,
      record d {
        assets = select (λ r. not (contains gone r.asset_id)) d.assets;
        acl = select (λ r. not (contains gone r.asset_id)) d.acl;
      },
    )

-- `ORDER BY created_at DESC`
insert_newest : AssetRow → List AssetRow → List AssetRow
insert_newest r [] = r ∷ []
insert_newest r (x ∷ xs) =
    if leb x.created_at r.created_at then r ∷ x ∷ xs else x ∷ insert_newest r xs

newest_first : List AssetRow → List AssetRow
unfolding insert_newest
newest_first [] = []
newest_first (r ∷ rs) = insert_newest r (newest_first rs)

-- `LIMIT` and `OFFSET`
unfoldable pub take {ℓ} : {A : Type ℓ} → ℕ → List A → List A
take n [] = []
take zero (x ∷ xs) = []
take (suc n) (x ∷ xs) = x ∷ take n xs

unfoldable pub drop {ℓ} : {A : Type ℓ} → ℕ → List A → List A
drop n [] = []
drop zero (x ∷ xs) = x ∷ xs
drop (suc n) (x ∷ xs) = drop n xs

abbrev pub is_owned : String → AssetRow → Bool
is_owned u r = r.owner_id == u

unfoldable pub list_assets : String → ℕ → ℕ → Database → List AssetRow
unfolding newest_first take drop
list_assets owner limit offset d =
    take limit (drop offset (newest_first (select (is_owned owner) d.assets)))

unfoldable pub count_assets_by_owner : String → Database → ℕ
count_assets_by_owner owner d = length (select (is_owned owner) d.assets)
