-- ===== src/Core/Team.antt =====
-- core-service/internal/team/service.go: the methods of `service`, over the repository.
pub mod Repository
pub mod Requests
pub mod Access
pub mod Effects
pub mod Coherence
pub mod Filling
pub mod Cache
pub mod Reads
pub mod Consistent
pub mod Roles
pub mod Handler
pub mod Routes
mod Tests
use seta_training.Prelude.{
  String, Bool, true, false, not, Option, none, some, List, ◌==◌, Result, ok, err, pure, raise,
  attempt, raise_if, ◌>>=◌, ◌>>◌,
}
use seta_training.Core.World.{
  Error, no_rows, not_team_manager, not_team_creator, cannot_demote_creator, team_not_found,
  user_not_found, not_team_member, already_member, TeamMember, Document, members_document,
  team_event, Action, or_missing, redis_get, redis_set, redis_del, publish,
}
use seta_training.Core.World.Keys.{team_members_key}
use Repository
use Repository.{Team, role_manager, role_member}

-- `publishEvent`
unfoldable pub publish_event : String → String → String → Action (Unit {0})
publish_event evt team_id user_id = publish "team.activity" (team_event evt team_id user_id)

unfoldable pub must_get_team : String → Action Team
must_get_team team_id = or_missing team_not_found (Repository.get_by_id team_id)

unfoldable pub require_team_manager : String → String → Action (Unit {0})
unfolding must_get_team
require_team_manager team_id caller_id = do
  must_get_team team_id
  role ← or_missing not_team_manager (Repository.get_member_role team_id caller_id)
  raise_if (not (role == role_manager)) not_team_manager

unfoldable pub require_team_creator : String → String → Action (Unit {0})
unfolding must_get_team
require_team_creator team_id caller_id = do
  team ← must_get_team team_id
  raise_if (not (team.created_by == caller_id)) not_team_creator

unfoldable pub create_team : String → String → Action Team
unfolding publish_event
create_team created_by team_name = do
  team ← Repository.create_with_manager team_name created_by
  publish_event "TEAM_CREATED" team.team_id created_by
  pure team

-- The lookup has to fail, and by `ErrNoRows`.
abbrev pub refuse_member : Result Error String → Action (Unit {0})
refuse_member (ok _) = raise already_member
refuse_member (err no_rows) = pure tt
refuse_member (err e) = raise e

unfoldable pub add_member : String → String → String → Action (Unit {0})
unfolding require_team_manager publish_event
add_member team_id caller_id target_user_id = do
  require_team_manager team_id caller_id
  found ← attempt (Repository.get_member_role team_id target_user_id)
  refuse_member found
  or_missing user_not_found (Repository.get_user_by_id target_user_id)
  Repository.add_member team_id target_user_id role_member
  publish_event "MEMBER_ADDED" team_id target_user_id
  redis_del (team_members_key team_id)

unfoldable pub remove_member : String → String → String → Action (Unit {0})
unfolding require_team_manager publish_event
remove_member team_id caller_id target_user_id = do
  require_team_manager team_id caller_id
  Repository.remove_member team_id target_user_id
  publish_event "MEMBER_REMOVED" team_id target_user_id
  redis_del (team_members_key team_id)

unfoldable pub promote_to_manager : String → String → String → Action (Unit {0})
unfolding require_team_creator publish_event
promote_to_manager team_id caller_id target_user_id = do
  require_team_creator team_id caller_id
  or_missing user_not_found (Repository.get_user_by_id target_user_id)
  Repository.add_member team_id target_user_id role_manager
  publish_event "MANAGER_ADDED" team_id target_user_id
  redis_del (team_members_key team_id)

unfoldable pub demote_from_manager : String → String → String → Action (Unit {0})
unfolding require_team_creator publish_event
demote_from_manager team_id caller_id target_user_id = do
  require_team_creator team_id caller_id
  raise_if (caller_id == target_user_id) cannot_demote_creator
  role ← or_missing not_team_member (Repository.get_member_role team_id target_user_id)
  raise_if (not (role == role_manager)) not_team_manager
  Repository.add_member team_id target_user_id role_member
  publish_event "MANAGER_REMOVED" team_id target_user_id
  redis_del (team_members_key team_id)

-- `json.Unmarshal` into a list of members.
abbrev pub decode_members : Option Document → Option (List TeamMember)
decode_members (some (members_document members)) = some members
decode_members _ = none

-- The read from the database that a missing entry leads to.
abbrev load_members : String → Option (List TeamMember) → Action (List TeamMember)
load_members team_id (some members) = pure members
load_members team_id none = do
  members ← Repository.list_members team_id
  redis_set (team_members_key team_id) (members_document members) 300
  pure members

unfoldable pub get_members : String → String → Action (List TeamMember)
get_members team_id caller_id = do
  or_missing not_team_member (Repository.get_member_role team_id caller_id)
  cached ← redis_get (team_members_key team_id)
  load_members team_id (decode_members cached)
