-- ===== src/Core/UserEvents/Tests.antt =====
-- Events of users on small tables.
use seta_training.Prelude.{String}
use seta_training.Core.UserEvents.{UserEvent}

abbrev event : String → UserEvent
event type = record {
  type = type;
  user_id = "bob";
  user_name = "rob";
  email = "rob";
  role = "member";
}
