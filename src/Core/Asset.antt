-- ===== src/Core/Asset.antt =====
-- core-service/internal/asset/service.go: the methods of `service`, over the repository.
pub mod Repository
pub mod Requests
pub mod Access
pub mod Structure
pub mod Rules
pub mod Reading
pub mod Sharing
pub mod Forest
pub mod Checks
pub mod Fresh
pub mod Published
pub mod Handler
pub mod Routes
mod Tests
use seta_training.Prelude.{
  ℕ, ◌-◌, ◌*◌, ◌%◌, ◌^◌, String, Bool, true, false, not, ◌&&◌, ◌||◌, Option, none, some, List, [],
  ◌∷◌, ◌==◌, exists, Result, ok, err, pure, raise, attempt, raise_if, ◌>>=◌, ◌>>◌, if◌then◌else◌,
  is_some,
}
use seta_training.Core.World.{
  Error, asset_not_found, forbidden, invalid_type, target_user_not_found, parent_not_found,
  parent_not_folder, note_requires_parent, folder_content_not_allowed, Asset, AssetAcl, Document,
  asset_document, acl_document, World, asset_event, Action, redis_get, redis_set, redis_del,
  publish,
}
use seta_training.Core.World.Keys.{asset_key, asset_acl_key}
use Repository
use Repository.{type_folder, type_note}

-- `publishEvent`, with `time.Now()`.
unfoldable pub publish_event : String → String → String → Action (Unit {0})
publish_event event_type asset_id owner_id w =
    publish "asset.changes" (asset_event event_type asset_id owner_id w.db.now) w

-- A statement that is run if a test holds.
abbrev pub when : Bool → Action (Unit {0}) → Action (Unit {0})
when true m = m
when false m = pure tt

-- `acl == nil || acl.AccessLevel != AccessLevelWrite`
abbrev pub can_write : Option AssetAcl → Bool
can_write none = false
can_write (some a) = a.access_level == "write"

unfoldable pub require_write_access : Asset → String → Action (Unit {0})
require_write_access asset caller_id = if asset.owner_id == caller_id then pure tt else (do
  acl ← Repository.get_acl_entry asset.asset_id caller_id
  raise_if (not (can_write acl)) forbidden)

-- `errors.Is(err, ErrNotFound)`
abbrev pub found_parent : Result Error Asset → Action Asset
found_parent (ok parent) = pure parent
found_parent (err asset_not_found) = raise parent_not_found
found_parent (err e) = raise e

unfoldable pub check_folder : Asset → String → Action (Unit {0})
check_folder parent caller_id = do
  raise_if (not (parent.type == type_folder)) parent_not_folder
  require_write_access parent caller_id

unfoldable pub check_parent : Option String → String → Action (Unit {0})
check_parent none caller_id = pure tt
check_parent (some parent_id) caller_id = do
  found ← attempt (Repository.get_by_id parent_id)
  parent ← found_parent found
  check_folder parent caller_id

-- The checks of `Create` on its arguments, and what it does after its checks.
unfoldable pub check_request : Option String → String → Option String → Action (Unit {0})
check_request parent_id asset_type content = do
  raise_if (not (asset_type == type_note) && not (asset_type == type_folder)) invalid_type
  raise_if (asset_type == type_note && not (is_some parent_id)) note_requires_parent
  raise_if (asset_type == type_folder && is_some content) folder_content_not_allowed

unfoldable pub store : String → Option String → String → String → Option String → Action Asset
unfolding publish_event
store caller_id parent_id asset_type title content = do
  created ← Repository.create caller_id parent_id asset_type title content
  when (asset_type == type_note) (publish_event "NOTE_CREATED" created.asset_id created.owner_id)
  pure created

unfoldable pub create : String → Option String → String → String → Option String → Action Asset
create caller_id parent_id asset_type title content = do
  check_request parent_id asset_type content
  check_parent parent_id caller_id
  store caller_id parent_id asset_type title content

-- `json.Unmarshal` into an asset, and into a list of grants.
abbrev pub decode_asset : Option Document → Option Asset
decode_asset (some (asset_document a)) = some a
decode_asset _ = none

abbrev pub decode_acl : Option Document → Option (List AssetAcl)
decode_acl (some (acl_document entries)) = some entries
decode_acl _ = none

abbrev pub load_asset : String → Option Asset → Action Asset
load_asset asset_id (some existing) = pure existing
load_asset asset_id none = do
  existing ← Repository.get_by_id asset_id
  redis_set (asset_key asset_id) (asset_document existing) 300
  pure existing

unfoldable pub cached_asset : String → Action Asset
cached_asset asset_id = do
  cached ← redis_get (asset_key asset_id)
  load_asset asset_id (decode_asset cached)

abbrev pub load_acl : String → Option (List AssetAcl) → Action (List AssetAcl)
load_acl asset_id (some entries) = pure entries
load_acl asset_id none = do
  entries ← Repository.list_acl_by_asset asset_id
  redis_set (asset_acl_key asset_id) (acl_document entries) 300
  pure entries

unfoldable pub cached_acl : String → Action (List AssetAcl)
cached_acl asset_id = do
  cached ← redis_get (asset_acl_key asset_id)
  load_acl asset_id (decode_acl cached)

-- The checks behind the owner's: a grant of any level, then a team that the caller manages.
unfoldable pub require_read_access : Asset → String → String → Action (Unit {0})
unfolding cached_acl
require_read_access existing caller_id asset_id = do
  acl_entries ← cached_acl asset_id
  if exists (λ a. a.user_id == caller_id) acl_entries then pure tt else (do
    is_manager ← Repository.is_manager_of_owner caller_id existing.owner_id
    raise_if (not is_manager) forbidden)

unfoldable pub get_by_id : String → String → Action Asset
unfolding cached_asset require_read_access
get_by_id caller_id asset_id = do
  existing ← cached_asset asset_id
  if existing.owner_id == caller_id
      then pure existing
      else (do require_read_access existing caller_id asset_id; pure existing)

-- The checks of `Update` on the asset, and what it does after its checks.
unfoldable pub check_update : Asset → Option String → String → Action (Unit {0})
check_update existing content caller_id = do
  raise_if (existing.type == type_folder && is_some content) folder_content_not_allowed
  require_write_access existing caller_id

unfoldable pub rewrite : Asset → String → String → Option String → Action Asset
unfolding publish_event
rewrite existing asset_id title content = do
  updated ← Repository.update asset_id title content
  when (existing.type == type_note) (publish_event "NOTE_UPDATED" asset_id existing.owner_id)
  redis_del (asset_key asset_id)
  pure updated

unfoldable pub update : String → String → String → Option String → Action Asset
update caller_id asset_id title content = do
  existing ← Repository.get_by_id asset_id
  check_update existing content caller_id
  rewrite existing asset_id title content

-- A failed look-up of the descendants is logged: the deletion goes on without them.
abbrev or_none : Result Error (List String) → List String
or_none (ok ids) = ids
or_none (err e) = []

abbrev pub descendants_of : Asset → String → Action (List String)
descendants_of existing asset_id =
    if existing.type == type_folder
    then (do found ← attempt (Repository.get_descendant_ids asset_id); pure (or_none found))
    else pure []

unfoldable pub evict_all : List String → Action (Unit {0})
evict_all [] = pure tt
evict_all (id ∷ ids) = do redis_del (asset_key id); redis_del (asset_acl_key id); evict_all ids

unfoldable pub evict_acls : List String → Action (Unit {0})
evict_acls [] = pure tt
evict_acls (id ∷ ids) = do redis_del (asset_acl_key id); evict_acls ids

-- What `Delete` does after the row is gone.
unfoldable pub after_delete : Asset → String → List String → Action (Unit {0})
unfolding publish_event
after_delete existing asset_id descendants = do
  redis_del (asset_key asset_id)
  redis_del (asset_acl_key asset_id)
  evict_all descendants
  when (existing.type == type_folder) (publish_event "FOLDER_DELETED" asset_id existing.owner_id)

unfoldable pub delete : String → String → Action (Unit {0})
delete caller_id asset_id = do
  existing ← Repository.get_by_id asset_id
  raise_if (not (existing.owner_id == caller_id)) forbidden
  descendants ← descendants_of existing asset_id
  Repository.delete asset_id
  after_delete existing asset_id descendants

-- The checks of `Share` on the asset and the user, and what it does after its transaction.
unfoldable pub check_share : Asset → String → String → Action (Unit {0})
check_share asset caller_id target_user_id = do
  raise_if (not (asset.owner_id == caller_id)) forbidden
  known ← Repository.user_exists target_user_id
  raise_if (not known) target_user_not_found

unfoldable pub after_share : Asset → String → List String → Action (Unit {0})
unfolding publish_event
after_share asset asset_id descendants = do
  when (asset.type == type_folder)
      (do publish_event "FOLDER_SHARED" asset_id asset.owner_id; evict_acls descendants)
  redis_del (asset_acl_key asset_id)

unfoldable pub share : String → String → String → String → Action (Unit {0})
share caller_id asset_id target_user_id access_level = do
  asset ← Repository.get_by_id asset_id
  check_share asset caller_id target_user_id
  descendants ← Repository.upsert_acl_with_cascade asset_id asset.type target_user_id access_level
  after_share asset asset_id descendants

unfoldable pub revoke_share : String → String → String → Action (Unit {0})
revoke_share caller_id asset_id target_user_id = do
  asset ← Repository.get_by_id asset_id
  raise_if (not (asset.owner_id == caller_id)) forbidden
  descendants ← Repository.delete_acl_with_cascade asset_id asset.type target_user_id
  evict_acls descendants
  redis_del (asset_acl_key asset_id)

-- `int32(n)`, as its bits.
abbrev pub to_int32 : ℕ → ℕ
to_int32 n = n % 2 ^ 32

-- `page` is at least 1: the product may wrap at 64 bits and at 32, of which the second is seen.
unfoldable pub list : String → ℕ → ℕ → Action (List Asset × ℕ)
list caller_id page limit = do
  total ← Repository.count_by_owner caller_id
  assets ← Repository.list caller_id (to_int32 limit) (to_int32 ((page - 1) * limit))
  pure (assets, total)
