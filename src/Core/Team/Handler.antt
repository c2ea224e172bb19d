-- ===== src/Core/Team/Handler.antt =====
-- core-service/internal/team/handler.go: the guards of each handler, and the answer to each error.
use seta_training.Prelude.{String, Option, List, if◌then◌else◌, is_text}
use seta_training.Core.World.{
  Error, not_team_manager, not_team_creator, cannot_demote_creator, team_not_found, user_not_found,
  not_team_member, already_member, TeamMember,
}
use seta_training.Core.Http.{
  Response, failure, success, empty, Caller, Handler, answer, with_caller, with_body, respond,
}
use seta_training.Core.Team
use seta_training.Core.Team.Repository.{Team, role_manager}

abbrev pub forbidden_text : {A : Type 0} → String → Response A
forbidden_text text = failure 403 "FORBIDDEN" text

abbrev pub unprocessable : {A : Type 0} → String → Response A
unprocessable text = failure 422 "UNPROCESSABLE_ENTITY" text

abbrev pub write_team_err : {A : Type 0} → Error → Response A
write_team_err not_team_manager = forbidden_text "user is not a team manager"
write_team_err not_team_creator = forbidden_text "user is not the team creator"
write_team_err cannot_demote_creator = forbidden_text "cannot demote team creator"
write_team_err team_not_found = failure 404 "NOT_FOUND" "team not found"
write_team_err user_not_found = unprocessable "user not found"
write_team_err not_team_member = unprocessable "user is not a team member"
write_team_err already_member = unprocessable "user already a member"
write_team_err e = failure 500 "INTERNAL_ERROR" "internal server error"

-- `c.Status(http.StatusNoContent)`
abbrev no_content : {A B : Type 0} → A → Response B
no_content _ = empty 204

abbrev bad_request : {A : Type 0} → String → Response A
bad_request text = failure 400 "BAD_REQUEST" text

-- The body is a name of a team.
unfoldable pub create_team : Caller → Option String → Handler Team
create_team caller body = with_body body (bad_request "team_name is required") (λ team_name.
    if is_text caller.role role_manager
    then with_caller caller.id
        (λ caller_id. respond write_team_err (success 201) (Team.create_team caller_id team_name))
    else answer (forbidden_text "only manager can create team"))

-- The body is the id of a user.
unfoldable pub add_member : Caller → String → Option String → Handler (Unit {0})
add_member caller team_id body = with_caller caller.id (λ caller_id.
    with_body body (bad_request "user_id is required")
      (λ user_id. respond write_team_err no_content (Team.add_member team_id caller_id user_id)))

unfoldable pub remove_member : Caller → String → String → Handler (Unit {0})
remove_member caller team_id target_user_id = with_caller caller.id (λ caller_id.
    respond write_team_err no_content (Team.remove_member team_id caller_id target_user_id))

unfoldable pub add_manager : Caller → String → Option String → Handler (Unit {0})
add_manager caller team_id body = with_caller caller.id (λ caller_id.
    with_body body (bad_request "user_id is required") (λ user_id.
      respond write_team_err no_content (Team.promote_to_manager team_id caller_id user_id)))

unfoldable pub remove_manager : Caller → String → String → Handler (Unit {0})
remove_manager caller team_id target_user_id = with_caller caller.id (λ caller_id.
    respond write_team_err no_content (Team.demote_from_manager team_id caller_id target_user_id))

unfoldable pub get_members : Caller → String → Handler (List TeamMember)
get_members caller team_id =
    with_caller caller.id
      (λ caller_id. respond write_team_err (success 200) (Team.get_members team_id caller_id))
