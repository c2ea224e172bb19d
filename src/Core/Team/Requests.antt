-- ===== src/Core/Team/Requests.antt =====
-- The requests of the team service as data, each with the call that serves it.
use seta_training.Prelude.{String, ◌>>◌, pure, List, [], ◌∷◌}
use seta_training.Core.World.{World, Action}
use seta_training.Core.Team.{
  create_team, add_member, remove_member, promote_to_manager, demote_from_manager, get_members,
}

pub data Request : Type 0 where
  create : (created_by team_name : String) → Request
  add remove promote demote : (team_id caller_id target_user_id : String) → Request
  members : (team_id caller_id : String) → Request

unfoldable pub serve : Request → Action (Unit {0})
serve (create c n) = do create_team c n; pure tt
serve (add t c u) = add_member t c u
serve (remove t c u) = remove_member t c u
serve (promote t c u) = promote_to_manager t c u
serve (demote t c u) = demote_from_manager t c u
serve (members t c) = do get_members t c; pure tt

-- The servers after some requests.
unfoldable pub run : List Request → World → World
run [] w = w
run (r ∷ rs) w = run rs (serve r w).1
