-- ===== src/Core/UserEvents.antt =====
-- core-service/internal/initialize/kafka.go: the consumer of the topic user.events.
use seta_training.Prelude.{
  String, Bool, true, false, List, [], ◌∷◌, Option, none, some, Result, ok, err, ◌==◌, ◌||◌, pure,
  attempt, ◌>>=◌, ◌>>◌, if◌then◌else◌,
}
use seta_training.Core.World.{World, Action}
use seta_training.Core.Team.Repository
use seta_training.Core.Team.Repository.{UserProjection}
pub mod Projection
mod Tests

-- core-service/internal/team/model.go
pub record UserEvent : Type 0 where
  pub type : String
  pub user_id : String
  pub user_name : String
  pub email : String
  pub role : String

abbrev pub projection_of : UserEvent → UserProjection
projection_of e = record {
  user_id = e.user_id;
  username = e.user_name;
  email = e.email;
  role = e.role;
}

-- A failed write is logged and dropped.
abbrev pub logged : {A : Type 0} → Action A → Action (Unit {0})
logged m = do attempt m; pure tt

-- The payload is what `json.Unmarshal` makes of it, if it is an event.
unfoldable pub handle_user_event : Option UserEvent → Action (Unit {0})
handle_user_event none = pure tt
handle_user_event (some event) =
    if event.type == "USER_CREATED" || event.type == "USER_UPDATED"
    then logged (Repository.upsert (projection_of event))
    else if event.type == "USER_DELETED"
    then logged (Repository.soft_delete event.user_id)
    else pure tt

-- The loop of the consumer over the messages that it reads.
unfoldable pub consume : List (Option UserEvent) → World → World
consume [] w = w
consume (m ∷ ms) w = consume ms (handle_user_event m w).1
