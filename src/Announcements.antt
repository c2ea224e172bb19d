-- ===== src/Announcements.antt =====
-- auth-service announces each registration on Kafka (user/service.go), and core-service makes its
-- projection of the users from the announcements (initialize/kafka.go).
use seta_training.Prelude.{String, List, [], ◌∷◌, some}
use seta_training.Core.World.{World as CoreWorld}
use seta_training.Core.UserEvents.{UserEvent, handle_user_event}
use seta_training.Auth.Libraries.{Bcrypt}
use seta_training.Auth.World.{World, Event, Message, user_event, users_imported}
use seta_training.Auth.Users.{register}
use seta_training.Auth.Handler.{RegisterRequest}
pub mod Projection
mod Tests

-- What `json.Unmarshal` of core-service makes of an announcement.
abbrev pub received : Event → UserEvent
received (user_event type user_id user_name email role) = record {
  type = type;
  user_id = user_id;
  user_name = user_name;
  email = email;
  role = role;
}
received (users_imported succeeded failed) = record {
  type = "USERS_IMPORTED";
  user_id = "";
  user_name = "";
  email = "";
  role = "";
}

-- The consumer of core-service over the messages of the topic, the oldest first.
unfoldable pub project : List Message → CoreWorld → CoreWorld
project [] c = c
project (m ∷ ms) c = (handle_user_event (some (received m.payload)) (project ms c)).1

-- Some registrations, one after the other.
unfoldable pub register_all : Bcrypt → List RegisterRequest → World → World
register_all b [] w = w
register_all b (q ∷ qs) w = register_all b qs (register b q.username q.email q.password q.role w).1
