-- ===== src/Core/Db/Audit.antt =====
-- core-service/internal/db/audit.sql.go
use seta_training.Prelude.{
  String, Option, none, some, [], ◌∷◌, ◌++◌, ◌==◌, ◌+◌, exists, if◌then◌else◌,
}
use seta_training.Core.Db.Tables.{AuditRow, Database}

abbrev with_payload :
    Option String → (String → Option (Unit {0} × Database)) → Option (Unit {0} × Database)
with_payload none f = none
with_payload (some stored) f = f stored

-- `jsonb` is what the server makes of a text for a column of JSONB, `none` if it takes it for no JSON. The
-- row is refused then, and if its id is taken.
unfoldable pub insert_audit_log :
    (jsonb : String → Option String) → String → String → Database → Option (Unit {0} × Database)
insert_audit_log jsonb event_type payload d = with_payload (jsonb payload) (λ stored.
    let row : AuditRow = record {
      event_id = d.uuid d.issued;
      event_type = event_type;
      payload = stored;
      received_at = d.now;
    } in
    if exists (λ r. r.event_id == row.event_id) d.audit
    then none
    else some (tt, record d { audit = d.audit ++ row ∷ []; issued = d.issued + 1 }))
