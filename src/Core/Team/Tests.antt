-- ===== src/Core/Team/Tests.antt =====
-- Runs of the team service on small tables.
use seta_training.Prelude.{
  true, false, List, [], ◌∷◌, some, ◌≡◌, refl, arith, is_down, later, find, exists, select, upsert,
}
use seta_training.Core.Db.Users
use seta_training.Core.Db.Teams
use seta_training.Core.Db.Tables.{is_role, Database}
use seta_training.Core.World.{
  transaction, World, TeamMember, one, many, exec, redis_get, redis_set, redis_del, publish,
}
use seta_training.Core.Team.Repository
use seta_training.Core.Team.{create_team, add_member, get_members, require_team_manager}
use seta_training.Core.Team.Requests.{Request, create, add, promote, serve, run}
use seta_training.Core.Team.Access.{MayServe, serve-MayServe}
use seta_training.Core.Team.Roles.{serve-role_after}
use seta_training.Core.Team.Consistent.{IsConsistent}
use seta_training.Core.Team.Coherence.{IsCoherent, listing}
use seta_training.Core.Team.Cache.{serve-IsCoherent}
use seta_training.Core.Team.Reads.{members_after_run}
use seta_training.Core.Http.{Caller}
use seta_training.Core.Team.Handler
use seta_training.Core.Team.Routes.{
  Route, post_members, route, request_of, route-MayServe, failed_route_keeps_db,
}
use seta_training.Core.Samples.{users_only, filled, servers}

-- Ann adds Cid.
serve-MayServe_example : MayServe (add "team" "ann" "cid") (servers filled [])
unfolding serve add_member require_team_manager Repository.get_by_id Repository.get_member_role
    Repository.get_user_by_id Repository.add_member one exec publish redis_del is_down later find
    exists upsert Teams.get_team_by_id Teams.get_member_role Teams.member_row Teams.add_team_member
    Users.get_user_projection_by_id Users.has_user is_role
serve-MayServe_example = serve-MayServe (add "team" "ann" "cid") (servers filled []) refl

serve-role_after_example :
    Teams.get_member_role "team" "cid" (serve (add "team" "ann" "cid") (servers filled [])).1.db
    ≡ some "member"
unfolding serve add_member require_team_manager Repository.get_by_id Repository.get_member_role
    Repository.get_user_by_id Repository.add_member one exec publish redis_del is_down later find
    exists upsert Teams.get_team_by_id Teams.get_member_role Teams.member_row Teams.add_team_member
    Users.get_user_projection_by_id Users.has_user is_role
serve-role_after_example =
    serve-role_after (add "team" "ann" "cid") "team" "cid" (servers filled []) refl

-- The insertion of the new member fails.
abbrev failing : World
failing = servers filled (false ∷ false ∷ false ∷ false ∷ true ∷ [])

users_only-IsConsistent : IsConsistent users_only
unfolding Teams.member_row Teams.get_team_by_id find
users_only-IsConsistent = record {
  member_team = λ t u h. absurd (h refl);
  member_user = λ t u h. absurd (h refl);
  member_role = λ t u m h. absurd (ground arith);
  team_creator = λ t row h. absurd (ground arith);
}

-- Ann creates a team, adds Bob and makes him a manager; Kafka is down when the team is announced.
abbrev script : List Request
script = create "ann" "core" ∷ add "fresh" "ann" "bob" ∷ promote "fresh" "ann" "bob" ∷ []

nothing_cached : (d : Database) → IsCoherent (servers d [])
unfolding find
nothing_cached d = record {
  fresh = λ t ms h. absurd (ground arith);
  known = λ t ms h. absurd (ground arith);
}

serve-IsCoherent_example : IsCoherent (serve (create "ann" "core") (servers users_only [])).1
serve-IsCoherent_example =
    serve-IsCoherent (create "ann" "core") (servers users_only []) refl users_only-IsConsistent
      (nothing_cached users_only)

abbrev ann_and_bob : List TeamMember
ann_and_bob =
    record { user_id = "ann"; role = "manager"; user_name = "ann"; email = "ann" }
    ∷ record { user_id = "bob"; role = "member"; user_name = "bob"; email = "bob" }
    ∷ []

abbrev ann : Caller
ann = record { id = some "ann"; role = some "manager" }

abbrev post_cid : Route
post_cid = post_members ann "team" (some "cid")

route-MayServe_example :
    (q : Request) × (request_of post_cid ≡ some q) × MayServe q (servers filled [])
unfolding route Handler.add_member add_member require_team_manager Repository.get_by_id
    Repository.get_member_role Repository.get_user_by_id Repository.add_member one exec publish
    redis_del is_down later find exists upsert Teams.get_team_by_id Teams.get_member_role
    Teams.member_row Teams.add_team_member Users.get_user_projection_by_id Users.has_user is_role
route-MayServe_example = route-MayServe post_cid (servers filled []) refl

-- Cid's membership is refused: the insertion fails.
failed_route_keeps_db_example : (route post_cid failing).1.db ≡ failing.db
unfolding route Handler.add_member add_member require_team_manager Repository.get_by_id
    Repository.get_member_role Repository.get_user_by_id Repository.add_member one exec publish
    redis_del is_down later find exists upsert Teams.get_team_by_id Teams.get_member_role
    Teams.member_row Teams.add_team_member Users.get_user_projection_by_id Users.has_user is_role
failed_route_keeps_db_example = failed_route_keeps_db post_cid failing refl

members_after_run_example :
    ann_and_bob
    ≡ listing "fresh"
        (run (create "ann" "core" ∷ add "fresh" "ann" "bob" ∷ []) (servers users_only [])).db
unfolding run serve create_team Repository.create_with_manager transaction add_member
    require_team_manager Repository.get_by_id Repository.get_user_by_id Repository.add_member
    Repository.get_member_role Repository.list_members get_members one many exec publish redis_get
    redis_set redis_del is_down later find exists upsert select Teams.create_team
    Teams.get_team_by_id Teams.get_member_role Teams.member_row Teams.add_team_member
    Teams.get_team_members Teams.rows_of Users.get_user_projection_by_id Users.has_user is_role
members_after_run_example =
    members_after_run (create "ann" "core" ∷ add "fresh" "ann" "bob" ∷ []) "fresh" "bob"
      (servers users_only []) ann_and_bob refl users_only-IsConsistent (nothing_cached users_only)
      refl
