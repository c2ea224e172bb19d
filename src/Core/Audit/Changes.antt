-- ===== src/Core/Audit/Changes.antt =====
-- The audit log after requests of the asset service and the consumer of their events.
use seta_training.Prelude.{String, List, [], ◌∷◌, ◌++◌, map, Option, some, ◌≡◌, ◌∙◌, ap}
use seta_training.Core.World.{World, Event, Message}
use seta_training.Core.Asset.Requests.{Request, run}
use seta_training.Core.Asset.Published.Run.{announced_by, run-announced, run_outages, append_nil}
use seta_training.Core.Audit.{consume_audit_topic}
use seta_training.Core.Audit.Trail.{MakesNewIds, event_of, said, consume_audit_topic-said}

-- The payloads of messages, the oldest first.
abbrev pub payloads : List Message → List Event
payloads [] = []
payloads (m ∷ ms) = payloads ms ++ m.payload ∷ []

-- What the consumer makes of the messages that stand in the topic, and the rows that it is to leave.
abbrev pub audited : (envelope jsonb : String → Option String) → (Event → String) → World → World
audited envelope jsonb text w =
    consume_audit_topic envelope jsonb (map text (payloads w.messages)) w

abbrev pub rows_for : (stored : Event → String) → List Message → List (String × String)
rows_for stored ms = map (λ e. (event_of e, stored e)) (payloads ms)

-- After requests to the asset service, on a topic that was empty, the consumer that has read the topic
-- from its start has added to the log a row for each message that the requests are to send, in their
-- order, with the event's name and what the server stores of the payload, and no other row. No call
-- fails, the ids that the database makes are new, the name that is read in a payload is the one that
-- was written, and the server takes the payloads for JSON.
pub audited_changes :
    (envelope jsonb : String → Option String) (text stored : Event → String) (rs : List Request)
    (w : World)
    → ((e : Event) → envelope (text e) ≡ some (event_of e))
    → ((e : Event) → jsonb (text e) ≡ some (stored e))
    → w.outages ≡ []
    → w.messages ≡ []
    → MakesNewIds (run rs w).db
    → map said (audited envelope jsonb text (run rs w)).db.audit
      ≡ map said (run rs w).db.audit ++ rows_for stored (announced_by rs w)
audited_changes envelope jsonb text stored rs w reads takes up empty new =
    consume_audit_topic-said envelope jsonb text stored reads takes (payloads (run rs w).messages)
      (run rs w) (run_outages rs w up) new
    ∙ ap (λ ms. map said (run rs w).db.audit ++ rows_for stored ms)
        (run-announced rs w up
          ∙ ap (λ ms. announced_by rs w ++ ms) empty
          ∙ append_nil (announced_by rs w))
