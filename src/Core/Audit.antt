-- ===== src/Core/Audit.antt =====
-- core-service/internal/initialize/audit_consumer.go: the consumers of the topics team.activity and
-- asset.changes.
use seta_training.Prelude.{String, List, [], ◌∷◌, Option, none, some, pure}
use seta_training.Core.Db.Audit.{insert_audit_log}
use seta_training.Core.World.{violation, World, Action, exec}
use seta_training.Core.UserEvents.{logged}
pub mod Trail
pub mod Changes
mod Tests

-- `envelope` is the event that `json.Unmarshal` finds in a value, if there is no error; `jsonb` is what
-- the server stores of it, if it takes it.
module _ (envelope jsonb : String → Option String) where
  -- The row of a message, whose envelope is the first argument.
  abbrev pub insert : Option String → String → Action (Unit {0})
  insert none value = pure tt
  insert (some event) value = logged (exec violation (insert_audit_log jsonb event value))

  -- The loop over the values that the reader gives, of one topic or of both as they come.
  unfoldable pub consume_audit_topic : List String → World → World
  consume_audit_topic [] w = w
  consume_audit_topic (value ∷ values) w =
      consume_audit_topic values (insert (envelope value) value w).1
