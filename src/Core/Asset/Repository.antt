-- ===== src/Core/Asset/Repository.antt =====
-- core-service/internal/asset/repository.go: each method is an action on the servers.
use seta_training.Prelude.{
  ℕ, String, Bool, true, false, Option, none, some, List, [], ◌∷◌, map, ◌==◌, Result, ok, err,
  if◌then◌else◌, pure, raise, raise_if, attempt, leb, ◌^◌, ◌||◌, ◌>>=◌, ◌>>◌,
}
use seta_training.Core.Db.{AssetRow, AclRow}
use seta_training.Core.Db.Users
use seta_training.Core.Db.Teams
use seta_training.Core.Db.Assets
use seta_training.Core.Db.Acl
use seta_training.Core.World.{
  Error, no_rows, violation, negative_bound, asset_not_found, Asset, AssetAcl, Action, one, many,
  exec, transaction, or_missing,
}

-- core-service/internal/asset/model.go
abbrev pub type_folder : String
type_folder = "folder"

abbrev pub type_note : String
type_note = "note"

abbrev pub row_to_asset : AssetRow → Asset
row_to_asset row = record {
  asset_id = row.asset_id;
  owner_id = row.owner_id;
  parent_id = row.parent_id;
  type = row.type;
  title = row.title;
  content = row.content;
  created_at = row.created_at;
}

abbrev pub row_to_acl : AclRow → AssetAcl
row_to_acl row = record {
  asset_id = row.asset_id;
  user_id = row.user_id;
  access_level = row.access_level;
}

unfoldable pub create : String → Option String → String → String → Option String → Action Asset
create owner_id parent_id type title content = do
  row ← exec violation (Assets.create_asset owner_id parent_id type title content)
  pure (row_to_asset row)

unfoldable pub get_by_id : String → Action Asset
get_by_id asset_id = do
  row ← or_missing asset_not_found (one (Assets.get_asset_by_id asset_id))
  pure (row_to_asset row)

unfoldable pub update : String → String → Option String → Action Asset
update asset_id title content = do
  row ← or_missing asset_not_found (exec no_rows (Assets.update_asset asset_id title content))
  pure (row_to_asset row)

unfoldable pub delete : String → Action (Unit {0})
delete asset_id = exec no_rows (Assets.delete_asset asset_id)

-- `nil, nil` if there is no row.
abbrev pub acl_or_nil : Result Error AclRow → Action (Option AssetAcl)
acl_or_nil (ok row) = pure (some (row_to_acl row))
acl_or_nil (err no_rows) = pure none
acl_or_nil (err e) = raise e

unfoldable pub get_acl_entry : String → String → Action (Option AssetAcl)
get_acl_entry asset_id user_id = do
  found ← attempt (one (Acl.get_asset_acl asset_id user_id))
  acl_or_nil found

unfoldable pub list_acl_by_asset : String → Action (List AssetAcl)
list_acl_by_asset asset_id = do
  rows ← many (Acl.list_asset_acl asset_id)
  pure (map row_to_acl rows)

unfoldable pub upsert_acl_entry : String → String → String → Action (Unit {0})
upsert_acl_entry asset_id user_id access_level =
    exec violation (Acl.upsert_asset_acl asset_id user_id access_level)

unfoldable pub delete_acl_entry : String → String → Action (Unit {0})
delete_acl_entry asset_id user_id = exec no_rows (Acl.delete_asset_acl_entry asset_id user_id)

-- The loop over the descendants: the first error ends it.
unfoldable pub for_each : (String → Action (Unit {0})) → List String → Action (Unit {0})
for_each m [] = pure tt
for_each m (id ∷ ids) = do m id; for_each m ids

-- The descendants of a folder, to each of which `m` is applied; a note has none.
unfoldable pub cascade : (String → Action (Unit {0})) → String → String → Action (List String)
cascade m asset_id asset_type =
    if asset_type == type_folder
    then (do
      descendants ← many (Assets.get_descendant_ids asset_id)
      for_each m descendants
      pure descendants)
    else pure []

unfoldable pub upsert_acl_with_cascade : String → String → String → String → Action (List String)
upsert_acl_with_cascade asset_id asset_type user_id access_level = transaction (do
  exec violation (Acl.upsert_asset_acl asset_id user_id access_level)
  cascade (λ id. exec violation (Acl.upsert_asset_acl id user_id access_level)) asset_id asset_type)

unfoldable pub delete_acl_with_cascade : String → String → String → Action (List String)
delete_acl_with_cascade asset_id asset_type user_id = transaction (do
  exec no_rows (Acl.delete_asset_acl_entry asset_id user_id)
  cascade (λ id. exec no_rows (Acl.delete_asset_acl_entry id user_id)) asset_id asset_type)

unfoldable pub get_descendant_ids : String → Action (List String)
get_descendant_ids asset_id = many (Assets.get_descendant_ids asset_id)

unfoldable pub is_manager_of_owner : String → String → Action Bool
is_manager_of_owner caller_id owner_id = many (Teams.is_manager_of_member caller_id owner_id)

abbrev pub exists_or_not : {A : Type 0} → Result Error A → Action Bool
exists_or_not (ok _) = pure true
exists_or_not (err no_rows) = pure false
exists_or_not (err e) = raise e

unfoldable pub user_exists : String → Action Bool
user_exists user_id = do
  found ← attempt (one (Users.get_user_projection_by_id user_id))
  exists_or_not found

-- `limit` and `offset` are the bits of an `int32`.
abbrev is_negative : ℕ → Bool
is_negative n = leb (2 ^ 31) n

unfoldable pub list : String → ℕ → ℕ → Action (List Asset)
list owner_id limit offset = do
  rows ← many (Assets.list_assets owner_id limit offset)
  raise_if (is_negative limit || is_negative offset) negative_bound
  pure (map row_to_asset rows)

unfoldable pub count_by_owner : String → Action ℕ
count_by_owner owner_id = many (Assets.count_assets_by_owner owner_id)
