-- ===== src/Core/Team/Reads.antt =====
-- What members read of a team after any requests, while Redis answers.
use seta_training.Prelude.{List, [], ◌∷◌, String, ◌≡◌, ok, arith, later, is_down, state-drop}
use seta_training.Core.World.{
  World, TeamMember, one, many, exec, transaction, publish, redis_get, redis_set, redis_del,
}
use seta_training.Core.Team.Repository
use seta_training.Core.Team.{
  create_team, add_member, remove_member, promote_to_manager, demote_from_manager, get_members,
}
use seta_training.Core.Team.Requests.{
  Request, create, add, remove, promote, demote, members, serve, run,
}
use seta_training.Core.Team.Consistent.{IsConsistent, run-IsConsistent}
use seta_training.Core.Team.Effects.{up-require_team_manager, up-require_team_creator}
use seta_training.Core.Team.Coherence.{IsCoherent, listing}
use seta_training.Core.Team.Cache.{serve-IsCoherent, get_members-eq-listing}

module _ (w : World) (up : w.outages ≡ []) where
  up-create_team : (c n : String) → (create_team c n w).1.outages ≡ []
  unfolding create_team Repository.create_with_manager exec transaction publish later is_down
  up-create_team c n = ground arith

  up-add_member : (t c u : String) → (add_member t c u w).1.outages ≡ []
  unfolding add_member Repository.get_member_role Repository.get_user_by_id Repository.add_member
      one exec publish redis_del later is_down
  up-add_member t c u = ground (arith, up-require_team_manager t c w up)

  up-remove_member : (t c u : String) → (remove_member t c u w).1.outages ≡ []
  unfolding remove_member Repository.remove_member exec publish redis_del later is_down
  up-remove_member t c u = ground (arith, up-require_team_manager t c w up)

  up-promote_to_manager : (t c u : String) → (promote_to_manager t c u w).1.outages ≡ []
  unfolding promote_to_manager Repository.get_user_by_id Repository.add_member one exec publish
      redis_del later is_down
  up-promote_to_manager t c u = ground (arith, up-require_team_creator t c w up)

  up-demote_from_manager : (t c u : String) → (demote_from_manager t c u w).1.outages ≡ []
  unfolding demote_from_manager Repository.get_member_role Repository.add_member one exec publish
      redis_del later is_down
  up-demote_from_manager t c u = ground (arith, up-require_team_creator t c w up)

  up-get_members : (t c : String) → (get_members t c w).1.outages ≡ []
  unfolding get_members Repository.get_member_role Repository.list_members one many redis_get
      redis_set later is_down
  up-get_members t c = ground arith

up-serve : (r : Request) (w : World) → w.outages ≡ [] → (serve r w).1.outages ≡ []
unfolding serve
up-serve (create c n) w up = rw (state-drop (create_team c n) w) (up-create_team w up c n)
up-serve (add t c u) w up = up-add_member w up t c u
up-serve (remove t c u) w up = up-remove_member w up t c u
up-serve (promote t c u) w up = up-promote_to_manager w up t c u
up-serve (demote t c u) w up = up-demote_from_manager w up t c u
up-serve (members t c) w up = rw (state-drop (get_members t c) w) (up-get_members w up t c)

run-IsCoherent :
    (rs : List Request) (w : World)
    → w.outages ≡ []
    → IsConsistent w.db
    → IsCoherent w
    → IsCoherent (run rs w)
unfolding run
run-IsCoherent [] w up con h = h
run-IsCoherent (r ∷ rs) w up con h =
    run-IsCoherent rs (serve r w).1 (up-serve r w up) (run-IsConsistent (r ∷ []) w con)
      (serve-IsCoherent r w up con h)

-- After any requests to the team service, while no call fails, the list of members that a member
-- gets is the one in the database, if the tables were consistent and the cached lists right before.
pub members_after_run :
    (rs : List Request) (t c : String) (w : World) (ms : List TeamMember)
    → w.outages ≡ []
    → IsConsistent w.db
    → IsCoherent w
    → (get_members t c (run rs w)).0 ≡ ok ms
    → ms ≡ listing t (run rs w).db
members_after_run rs t c w ms up con h read =
    get_members-eq-listing t c (run rs w) ms (run-IsCoherent rs w up con h) read
