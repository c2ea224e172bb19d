-- ===== src/Core/Team/Access.antt =====
-- Who may change a team, and that a call that fails has changed nothing.
use seta_training.Prelude.{
  String, true, ◌≡◌, ◌≢◌, Option, none, some, Result, ok, err, is_ok, arith, eq_iff, select-not,
}
use seta_training.Core.Db.{TeamRow}
use seta_training.Core.Db.Users
use seta_training.Core.Db.Teams
use seta_training.Core.World.{
  Error, World, one, many, exec, redis_get, redis_set, redis_del, publish, transaction,
}
use seta_training.Core.Team.Repository
use seta_training.Core.Team.Repository.{Team}
use seta_training.Core.Team.{
  create_team, add_member, remove_member, promote_to_manager, demote_from_manager, get_members,
  require_team_manager, require_team_creator,
}
use seta_training.Core.Team.Requests.{Request, create, add, remove, promote, demote, members, serve}

-- The caller is a manager of the team, and a user who is not deleted.
abbrev pub IsManager : String → String → World → Type 0
IsManager t u w = Teams.get_member_role t u w.db ≡ some "manager"

abbrev pub creator_of : Option TeamRow → Option String
creator_of none = none
creator_of (some row) = some row.created_by

-- The caller has created the team.
abbrev pub IsCreator : String → String → World → Type 0
IsCreator t u w = creator_of (Teams.get_team_by_id t w.db) ≡ some u

pub db-require_team_manager : (t u : String) (w : World) → (require_team_manager t u w).1.db ≡ w.db
unfolding require_team_manager Repository.get_by_id Repository.get_member_role one
db-require_team_manager t u w = ground arith

pub require_team_manager-IsManager :
    (t u : String) (w : World) → is_ok (require_team_manager t u w).0 ≡ true → IsManager t u w
unfolding require_team_manager Repository.get_by_id Repository.get_member_role one
require_team_manager-IsManager t u w h = grind (arith, eq_iff)

pub db-require_team_creator : (t u : String) (w : World) → (require_team_creator t u w).1.db ≡ w.db
unfolding require_team_creator Repository.get_by_id one
db-require_team_creator t u w = ground arith

pub require_team_creator-IsCreator :
    (t u : String) (w : World) → is_ok (require_team_creator t u w).0 ≡ true → IsCreator t u w
unfolding require_team_creator Repository.get_by_id one
require_team_creator-IsCreator t u w h = grind (arith, eq_iff)

-- What a call that fails leaves of the database.
abbrev pub Keeps : {A : Type 0} → World → Result Error A × World → Type 0
Keeps w (ok a, w') = Unit
Keeps w (err e, w') = w'.db ≡ w.db

pub create_team-Keeps : (c n : String) (w : World) → Keeps w (create_team c n w)
unfolding create_team Repository.create_with_manager exec transaction publish
create_team-Keeps c n w = ground arith

pub add_member-Keeps : (t c u : String) (w : World) → Keeps w (add_member t c u w)
unfolding add_member Repository.get_member_role Repository.get_user_by_id Repository.add_member one
    exec publish redis_del
add_member-Keeps t c u w = ground (arith, db-require_team_manager t c w)

-- No row is removed: the table is as it was.
remove_row-Keeps : (t u : String) (w : World) → Keeps w (Repository.remove_member t u w)
unfolding Repository.remove_member exec Teams.remove_team_member
remove_row-Keeps t u w = ground (arith, select-not (Teams.is_member t u) w.db.members)

pub remove_member-Keeps : (t c u : String) (w : World) → Keeps w (remove_member t c u w)
unfolding remove_member publish redis_del
remove_member-Keeps t c u w =
    ground
      (arith, db-require_team_manager t c w, remove_row-Keeps t u (require_team_manager t c w).1)

pub promote_to_manager-Keeps : (t c u : String) (w : World) → Keeps w (promote_to_manager t c u w)
unfolding promote_to_manager Repository.get_user_by_id Repository.add_member one exec publish
    redis_del
promote_to_manager-Keeps t c u w = ground (arith, db-require_team_creator t c w)

pub demote_from_manager-Keeps : (t c u : String) (w : World) → Keeps w (demote_from_manager t c u w)
unfolding demote_from_manager Repository.get_member_role Repository.add_member one exec publish
    redis_del
demote_from_manager-Keeps t c u w = ground (arith, db-require_team_creator t c w)

pub db-get_members : (t c : String) (w : World) → (get_members t c w).1.db ≡ w.db
unfolding get_members Repository.get_member_role Repository.list_members one many redis_get
    redis_set
db-get_members t c w = ground arith

-- A request to the team service that fails, whatever fails in it, leaves the database as it was.
pub serve_failure_keeps_db :
    (r : Request) (w : World) {e : Error} → (serve r w).0 ≡ err e → (serve r w).1.db ≡ w.db
unfolding serve
serve_failure_keeps_db (create c n) w h = ground (arith, create_team-Keeps c n w)
serve_failure_keeps_db (add t c u) w h = ground (arith, add_member-Keeps t c u w)
serve_failure_keeps_db (remove t c u) w h = ground (arith, remove_member-Keeps t c u w)
serve_failure_keeps_db (promote t c u) w h = ground (arith, promote_to_manager-Keeps t c u w)
serve_failure_keeps_db (demote t c u) w h = ground (arith, demote_from_manager-Keeps t c u w)
serve_failure_keeps_db (members t c) w h = ground (arith, db-get_members t c w)

-- Whom the rules let make a request: a creator has to be a user, the others as the rules for
-- managers, for the creator of a team and for its members say.
abbrev pub MayServe : Request → World → Type 0
MayServe (create c n) w = Users.has_user c w.db ≡ true
MayServe (add t c u) w = IsManager t c w
MayServe (remove t c u) w = IsManager t c w
MayServe (promote t c u) w = IsCreator t c w
MayServe (demote t c u) w = IsCreator t c w × (c ≢ u)
MayServe (members t c) w = Teams.get_member_role t c w.db ≢ none

create_team-MayServe :
    (c n : String) (w : World) → is_ok (create_team c n w).0 ≡ true → Users.has_user c w.db ≡ true
unfolding create_team Repository.create_with_manager exec transaction publish Teams.create_team
create_team-MayServe c n w h = ground arith

add_member-MayServe :
    (t c u : String) (w : World) → is_ok (add_member t c u w).0 ≡ true → IsManager t c w
unfolding add_member
add_member-MayServe t c u w h = ground (arith, require_team_manager-IsManager t c w)

remove_member-MayServe :
    (t c u : String) (w : World) → is_ok (remove_member t c u w).0 ≡ true → IsManager t c w
unfolding remove_member
remove_member-MayServe t c u w h = ground (arith, require_team_manager-IsManager t c w)

promote_to_manager-MayServe :
    (t c u : String) (w : World) → is_ok (promote_to_manager t c u w).0 ≡ true → IsCreator t c w
unfolding promote_to_manager
promote_to_manager-MayServe t c u w h = ground (arith, require_team_creator-IsCreator t c w)

demote_from_manager-MayServe :
    (t c u : String) (w : World)
    → is_ok (demote_from_manager t c u w).0 ≡ true
    → IsCreator t c w × (c ≢ u)
unfolding demote_from_manager
demote_from_manager-MayServe t c u w h =
    (ground (arith, require_team_creator-IsCreator t c w), ground (arith, eq_iff c u))

get_members-MayServe :
    (t c : String) (w : World)
    → is_ok (get_members t c w).0 ≡ true
    → Teams.get_member_role t c w.db ≢ none
unfolding get_members Repository.get_member_role one
get_members-MayServe t c w h = ground arith

-- A request to the team service that succeeds, whatever fails in it, comes from someone whom the
-- rules let make it: managers add and remove members, the creator promotes others and demotes
-- others but not the creator, members list the members, and a creator of a team is a user.
pub serve-MayServe : (r : Request) (w : World) → is_ok (serve r w).0 ≡ true → MayServe r w
unfolding serve
serve-MayServe (create c n) w h = ground (arith, create_team-MayServe c n w)
serve-MayServe (add t c u) w h = add_member-MayServe t c u w h
serve-MayServe (remove t c u) w h = remove_member-MayServe t c u w h
serve-MayServe (promote t c u) w h = promote_to_manager-MayServe t c u w h
serve-MayServe (demote t c u) w h = demote_from_manager-MayServe t c u w h
serve-MayServe (members t c) w h = ground (arith, get_members-MayServe t c w)
