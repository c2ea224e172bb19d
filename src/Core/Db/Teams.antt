-- ===== src/Core/Db/Teams.antt =====
-- The queries of teams.sql.go on teams and their members.
use seta_training.Prelude.{
  ℕ, ◌+◌, String, Bool, Option, none, some, List, [], ◌∷◌, ◌++◌, ◌==◌, ◌&&◌, ◌||◌, not, find,
  exists, select, upsert, length, if◌then◌else◌, is_some,
}
use seta_training.Core.Db.Tables.{UserRow, TeamRow, MemberRow, Database, is_role}
use seta_training.Core.Db.Users.{is_live, is_user, has_user, get_user_projection_by_id}

abbrev pub is_team : String → TeamRow → Bool
is_team t r = r.team_id == t

abbrev pub is_member : String → String → MemberRow → Bool
is_member t u r = r.team_id == t && r.user_id == u

unfoldable pub get_team_by_id : String → Database → Option TeamRow
get_team_by_id t d = find (is_team t) d.teams

-- `none`: the id is taken, or the creator is not a user (foreign key).
unfoldable pub create_team : String → String → Database → Option (TeamRow × Database)
unfolding has_user
create_team team_name created_by d =
    let row : TeamRow = record {
      team_id = d.uuid d.issued;
      team_name = team_name;
      created_by = created_by;
      updated_at = d.now;
    } in
    if exists (is_team row.team_id) d.teams || not (has_user created_by d)
    then none
    else some (row, record d { teams = d.teams ++ row ∷ []; issued = d.issued + 1 })

-- `none`: no such team or user (foreign keys), or the role is none (`CHECK`).
unfoldable pub add_team_member : String → String → String → Database → Option (Unit {0} × Database)
unfolding has_user is_role
add_team_member t u role d =
    if exists (is_team t) d.teams && has_user u d && is_role role
    then some (
      tt,
      record d {
        members =
            upsert (is_member t u) (record { team_id = t; user_id = u; role = role }) d.members;
      },
    )
    else none

-- `DELETE … RowsAffected()`
unfoldable pub remove_team_member : String → String → Database → Option (ℕ × Database)
remove_team_member t u d = some (
  length (select (is_member t u) d.members),
  record d { members = select (λ r. not (is_member t u r)) d.members },
)

-- The row of a member, with no look at the user.
unfoldable pub member_row : String → String → Database → Option MemberRow
member_row t u d = find (is_member t u) d.members

abbrev role_of : Option MemberRow → Option UserRow → Option String
role_of (some m) (some _) = some m.role
role_of _ _ = none

unfoldable pub get_member_role : String → String → Database → Option String
unfolding member_row get_user_projection_by_id
get_member_role t u d = role_of (member_row t u d) (get_user_projection_by_id u d)

pub record GetTeamMembersRow : Type 0 where
  pub user_id : String
  pub role : String
  pub username : String
  pub email : String

-- The join of one member with the live users.
join_users : MemberRow → List UserRow → List GetTeamMembersRow
join_users m [] = []
join_users m (u ∷ us) =
    let rest = join_users m us in
    if is_user m.user_id u && is_live u
    then record { user_id = m.user_id; role = m.role; username = u.username; email = u.email }
      ∷ rest
    else rest

join_members : List MemberRow → List UserRow → List GetTeamMembersRow
unfolding join_users
join_members [] us = []
join_members (m ∷ ms) us = join_users m us ++ join_members ms us

-- `ORDER BY tm.role, up.username`, by the collation's order `le`.
abbrev is_before : (String → String → Bool) → GetTeamMembersRow → GetTeamMembersRow → Bool
is_before le a b = if a.role == b.role then le a.username b.username else le a.role b.role

insert_sorted :
    (String → String → Bool) → GetTeamMembersRow → List GetTeamMembersRow → List GetTeamMembersRow
insert_sorted le r [] = r ∷ []
insert_sorted le r (x ∷ xs) = if is_before le r x then r ∷ x ∷ xs else x ∷ insert_sorted le r xs

order_members : (String → String → Bool) → List GetTeamMembersRow → List GetTeamMembersRow
unfolding insert_sorted
order_members le [] = []
order_members le (r ∷ rs) = insert_sorted le r (order_members le rs)

-- The joined and ordered rows of some members.
unfoldable pub rows_of :
    (String → String → Bool) → List MemberRow → List UserRow → List GetTeamMembersRow
unfolding join_members order_members
rows_of le ms us = order_members le (join_members ms us)

unfoldable pub get_team_members : String → Database → List GetTeamMembersRow
get_team_members t d = rows_of d.collation (select (λ r. r.team_id == t) d.members) d.users

-- The row of the manager is not joined with the users: only the member has to be live.
unfoldable pub is_manager_of_member : String → String → Database → Bool
unfolding get_user_projection_by_id
is_manager_of_member manager_id member_id d =
    is_some (get_user_projection_by_id member_id d)
    && exists
        (λ tm_manager.
          tm_manager.user_id == manager_id
          && tm_manager.role == "manager"
          && exists (is_member tm_manager.team_id member_id) d.members)
        d.members
