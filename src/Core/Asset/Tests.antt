-- ===== src/Core/Asset/Tests.antt =====
-- Runs of the asset service on small tables.
use seta_training.Prelude.{
  ℕ, true, false, List, [], ◌∷◌, none, some, ◌≡◌, refl, arith, is_down, later, find, exists, select,
  upsert,
}
use seta_training.Core.Db.{Database}
use seta_training.Core.Db.Users
use seta_training.Core.Db.Assets
use seta_training.Core.Db.Acl
use seta_training.Core.Db.Grants.{grant}
use seta_training.Core.Db.Tree.{IsTree}
use seta_training.Core.World.{
  World, Asset, one, many, exec, transaction, redis_get, redis_set, redis_del, publish,
}
use seta_training.Core.World.Keys
use seta_training.Core.Asset
use seta_training.Core.Asset.Repository
use seta_training.Core.Asset.Requests.{
  Request, create, read, delete as delete_request, update, serve, run,
}
use seta_training.Core.Asset.Reading.{IsSeen, MayRead, get_by_id_authorized}
use seta_training.Core.Asset.Sharing.{grant-share, grant-revoke_share}
use seta_training.Core.Asset.Forest.{run-IsTree}
use seta_training.Core.Asset.Rules.{MayChange, serve-MayChange}
use seta_training.Core.Asset.Fresh.{IsFresh, nothing}
use seta_training.Core.Asset.Fresh.Answers.{read_answer}
use seta_training.Core.Asset.Fresh.Requests.{run_at, AllCovered, read_after_run}
use seta_training.Core.Http.{Caller}
use seta_training.Core.Asset.Handler
use seta_training.Core.Asset.Routes.{Route, delete_asset, post_share, route, refused_route_keeps_db}
use seta_training.Core.Samples.{users_only, filled, servers}

-- Bob's grant to read the note.
abbrev shared : Database
shared = record filled {
  acl = record { asset_id = "note"; user_id = "bob"; access_level = "read" } ∷ [];
}

abbrev note : Asset
note = record {
  asset_id = "note";
  owner_id = "ann";
  parent_id = some "folder";
  type = "note";
  title = "plan";
  content = some "text";
  created_at = 2;
}

get_by_id_authorized_example :
    IsSeen "note" note (servers shared []) × MayRead "bob" "note" "ann" (servers shared [])
unfolding Asset.get_by_id Asset.cached_asset Asset.cached_acl Asset.require_read_access
    Repository.get_by_id Repository.list_acl_by_asset one many redis_get redis_set is_down later
    find exists upsert select Assets.get_asset_by_id Acl.list_asset_acl Keys.asset_key
    Keys.asset_acl_key
get_by_id_authorized_example = get_by_id_authorized "bob" "note" (servers shared []) note refl

grant-share_example :
    grant "note" "bob" (Asset.share "ann" "folder" "bob" "write" (servers filled [])).1.db
    ≡ some "write"
unfolding Asset.share Asset.check_share Asset.after_share Asset.evict_acls Asset.publish_event
    Repository.get_by_id Repository.user_exists Repository.upsert_acl_with_cascade
    Repository.cascade Repository.for_each one many exec transaction publish redis_del is_down later
    find exists upsert select Assets.get_asset_by_id Assets.get_descendant_ids Assets.levels
    Assets.child_ids Assets.contains Acl.upsert_asset_acl Acl.get_asset_acl
    Users.get_user_projection_by_id Users.has_user
grant-share_example = grant-share "ann" "folder" "bob" "write" "note" "bob" (servers filled []) refl

grant-revoke_share_example :
    grant "note" "bob" (Asset.revoke_share "ann" "folder" "bob" (servers shared [])).1.db ≡ none
unfolding Asset.revoke_share Asset.evict_acls Repository.get_by_id
    Repository.delete_acl_with_cascade Repository.cascade Repository.for_each one many exec
    transaction redis_del is_down later find exists upsert select Assets.get_asset_by_id
    Assets.get_descendant_ids Assets.levels Assets.child_ids Assets.contains
    Acl.delete_asset_acl_entry Acl.get_asset_acl
grant-revoke_share_example =
    grant-revoke_share "ann" "folder" "bob" "note" "bob" (servers shared []) refl

users_only-IsTree : IsTree users_only
unfolding Assets.get_asset_by_id find
users_only-IsTree = record {
  note_parent = λ a row h. absurd (ground arith);
  folder_content = λ a row h. absurd (ground arith);
  parent_folder = λ a p row h. absurd (ground arith);
}

-- Ann creates a folder and rewrites it; a note at the root is refused.
abbrev script : List Request
script =
    create "ann" none "folder" "plans" none
    ∷ create "ann" none "note" "stray" none
    ∷ update "ann" "fresh" "goals" none
    ∷ []

run-IsTree_example : IsTree (run script (servers users_only [])).db
run-IsTree_example = run-IsTree script (servers users_only []) users_only-IsTree

serve-MayChange_example : MayChange (delete_request "ann" "folder") (servers filled [])
unfolding serve Asset.delete Asset.after_delete Asset.evict_all Asset.publish_event
    Repository.get_by_id Repository.get_descendant_ids Repository.delete one many exec publish
    redis_del is_down later find exists select Assets.get_asset_by_id Assets.get_descendant_ids
    Assets.levels Assets.child_ids Assets.contains Assets.delete_asset Assets.cascade_ids
    Assets.close_under_children Assets.orphan_ids
serve-MayChange_example = serve-MayChange (delete_request "ann" "folder") (servers filled []) refl

-- The second grant of the share, to the note, fails.
abbrev failing : World
failing = servers filled (false ∷ false ∷ false ∷ false ∷ false ∷ true ∷ [])

abbrev ann : Caller
ann = record { id = some "ann"; role = some "manager" }

abbrev share_folder : Route
share_folder =
    post_share ann "folder" "" (some (record { user_id = "bob"; access_level = "write" }))

refused_route_keeps_db_example : (route share_folder failing).1.db ≡ filled
unfolding route Handler.share Asset.share Asset.check_share Asset.after_share Asset.evict_acls
    Asset.publish_event Repository.get_by_id Repository.user_exists
    Repository.upsert_acl_with_cascade Repository.cascade Repository.for_each one many exec
    transaction publish redis_del is_down later find exists upsert select Assets.get_asset_by_id
    Assets.get_descendant_ids Assets.levels Assets.child_ids Assets.contains Acl.upsert_asset_acl
    Acl.get_asset_acl Users.get_user_projection_by_id Users.has_user
refused_route_keeps_db_example = refused_route_keeps_db share_folder failing refl

servers-IsFresh : IsFresh nothing nothing (servers shared [])
unfolding find
servers-IsFresh = record {
  calls = refl;
  assets = λ b x n c. ground arith;
  grants = λ b es n c. ground arith;
}

-- Bob reads the note, then Ann deletes the folder above it.
abbrev history : List (ℕ × Request)
history = (5, read "bob" "note") ∷ (1, delete_request "ann" "folder") ∷ []

history-AllCovered : AllCovered history (servers shared [])
unfolding serve run_at Asset.get_by_id Asset.cached_asset Asset.cached_acl Asset.require_read_access
    Repository.get_by_id Repository.list_acl_by_asset one many redis_get redis_set is_down later
    find exists upsert select Assets.get_asset_by_id Acl.list_asset_acl Keys.asset_key
    Keys.asset_acl_key Assets.get_descendant_ids Assets.levels Assets.child_ids Assets.contains
    Assets.orphan_ids
history-AllCovered = (tt, (refl, tt))

read_after_run_example :
    (Asset.get_by_id "bob" "note" (run_at history (servers shared []))).0
    ≡ read_answer "bob" "note" (run_at history (servers shared [])).db
read_after_run_example =
    read_after_run history "bob" "note" (servers shared []) servers-IsFresh history-AllCovered
