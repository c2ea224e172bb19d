-- ===== src/Core/Team/Repository.antt =====
-- core-service/internal/team/repository.go: each method is an action on the servers.
use seta_training.Prelude.{ℕ, zero, suc, String, List, map, pure, raise, ◌>>=◌, ◌>>◌}
use seta_training.Core.Db.{UserRow, TeamRow}
use seta_training.Core.Db.Users
use seta_training.Core.Db.Teams
use seta_training.Core.Db.Teams.{GetTeamMembersRow}
use seta_training.Core.World.{
  no_rows, violation, not_team_member, TeamMember, Action, one, many, exec, transaction,
}

-- core-service/internal/team/model.go
pub record Team : Type 0 where
  pub team_id : String
  pub team_name : String
  pub created_by : String

pub record UserProjection : Type 0 where
  pub user_id : String
  pub username : String
  pub email : String
  pub role : String

abbrev pub role_manager : String
role_manager = "manager"

abbrev pub role_member : String
role_member = "member"

abbrev pub to_team : TeamRow → Team
to_team row = record {
  team_id = row.team_id;
  team_name = row.team_name;
  created_by = row.created_by;
}

-- The projection repository, which the consumer of user events writes through.
unfoldable pub upsert : UserProjection → Action (Unit {0})
upsert u = exec violation (Users.upsert_user_projection u.user_id u.username u.email u.role)

unfoldable pub soft_delete : String → Action (Unit {0})
soft_delete user_id = exec no_rows (Users.soft_delete_user_projection user_id)

unfoldable pub create_with_manager : String → String → Action Team
create_with_manager team_name created_by = transaction (do
  row ← exec violation (Teams.create_team team_name created_by)
  exec violation (Teams.add_team_member row.team_id created_by role_manager)
  pure (to_team row))

unfoldable pub add_member : String → String → String → Action (Unit {0})
add_member team_id user_id role = exec violation (Teams.add_team_member team_id user_id role)

-- `if rows == 0`
abbrev pub if_removed : ℕ → Action (Unit {0})
if_removed zero = raise not_team_member
if_removed (suc _) = pure tt

unfoldable pub remove_member : String → String → Action (Unit {0})
remove_member team_id user_id = do
  rows ← exec no_rows (Teams.remove_team_member team_id user_id)
  if_removed rows

unfoldable pub get_member_role : String → String → Action String
get_member_role team_id user_id = one (Teams.get_member_role team_id user_id)

unfoldable pub get_by_id : String → Action Team
get_by_id team_id = do row ← one (Teams.get_team_by_id team_id); pure (to_team row)

abbrev to_user : UserRow → UserProjection
to_user row = record {
  user_id = row.user_id;
  username = row.username;
  email = row.email;
  role = row.role;
}

unfoldable pub get_user_by_id : String → Action UserProjection
get_user_by_id user_id = do row ← one (Users.get_user_projection_by_id user_id); pure (to_user row)

abbrev pub to_member : GetTeamMembersRow → TeamMember
to_member m = record { user_id = m.user_id; role = m.role; user_name = m.username; email = m.email }

unfoldable pub list_members : String → Action (List TeamMember)
list_members team_id = do
  members ← many (Teams.get_team_members team_id)
  pure (map to_member members)
