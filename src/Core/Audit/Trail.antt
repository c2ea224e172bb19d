-- ===== src/Core/Audit/Trail.antt =====
-- The audit log has a row for each event that it has been sent.
use seta_training.Prelude.{
  ℕ, ◌+◌, ◌<◌, ◌≤◌, String, Bool, false, ◌||◌, List, [], ◌∷◌, ◌++◌, map, Option, some, ◌≡◌, refl,
  ◌==◌, arith, exists, ap, ◌∙◌,
}
use seta_training.Core.Db.{AuditRow, Database}
use seta_training.Core.Db.Audit.{insert_audit_log}
use seta_training.Core.World.{violation, World, Event, team_event, asset_event}
use seta_training.Core.World.Working.{exec_works}
use seta_training.Core.Audit.{insert, consume_audit_topic}

-- The ids that the server will make are distinct, and none of them is in the log.
pub record MakesNewIds (d : Database) : Type 0 where
  pub distinct : (m n : ℕ) → m < n → (d.uuid m == d.uuid n) ≡ false
  pub unused : (n : ℕ) → d.issued ≤ n → exists (λ r. r.event_id == d.uuid n) d.audit ≡ false

-- The field `event` of a payload.
abbrev pub event_of : Event → String
event_of (team_event event t u) = event
event_of (asset_event event a o n) = event

-- What a row of the log says.
abbrev pub said : AuditRow → String × String
said r = (r.event_type, r.payload)

exists-append :
    (p : AuditRow → Bool) (xs ys : List AuditRow)
    → exists p (xs ++ ys) ≡ (exists p xs || exists p ys)
unfolding exists
exists-append p [] ys = refl
exists-append p (x ∷ xs) ys = ground (arith, exists-append p xs ys)

map-append : (xs ys : List AuditRow) → map said (xs ++ ys) ≡ map said xs ++ map said ys
map-append [] ys = refl
map-append (x ∷ xs) ys = ground (arith, map-append xs ys)

append_assoc : (xs ys zs : List (String × String)) → (xs ++ ys) ++ zs ≡ xs ++ (ys ++ zs)
append_assoc [] ys zs = refl
append_assoc (x ∷ xs) ys zs = ground (arith, append_assoc xs ys zs)

append_nil : (xs : List (String × String)) → xs ++ [] ≡ xs
append_nil [] = refl
append_nil (x ∷ xs) = ground (arith, append_nil xs)

-- The row of an insertion, and the tables after it.
abbrev row_of : String → String → Database → AuditRow
row_of e v d = record {
  event_id = d.uuid d.issued;
  event_type = e;
  payload = v;
  received_at = d.now;
}

abbrev inserted : String → String → Database → Database
inserted e v d = record d { audit = d.audit ++ row_of e v d ∷ []; issued = d.issued + 1 }

insert_audit_log_new :
    (jsonb : String → Option String) (e v stored : String) (d : Database)
    → jsonb v ≡ some stored
    → MakesNewIds d
    → insert_audit_log jsonb e v d ≡ some (tt, inserted e stored d)
unfolding insert_audit_log
insert_audit_log_new jsonb e v stored d taken new =
    ground (arith, taken, new.unused d.issued (omega arith))

inserted-MakesNewIds : (e v : String) (d : Database) → MakesNewIds d → MakesNewIds (inserted e v d)
unfolding exists
inserted-MakesNewIds e v d new = record {
  distinct = new.distinct;
  unused = λ n later_on. ground (
    arith,
    exists-append (λ r. r.event_id == d.uuid n) d.audit (row_of e v d ∷ []),
    new.unused n (omega arith),
    new.distinct d.issued n (omega arith),
  );
}

module _ (envelope jsonb : String → Option String) (text stored : Event → String)
    (reads : (e : Event) → envelope (text e) ≡ some (event_of e))
    (takes : (e : Event) → jsonb (text e) ≡ some (stored e)) where
  insert_works :
      (e : Event) (w : World)
      → w.outages ≡ []
      → MakesNewIds w.db
      → (insert envelope jsonb (envelope (text e)) (text e) w).1
        ≡ record w { db = inserted (event_of e) (stored e) w.db }
  insert_works e w up new = ground (
    arith,
    reads e,
    exec_works w up violation (insert_audit_log jsonb (event_of e) (text e)),
    insert_audit_log_new jsonb (event_of e) (text e) (stored e) w.db (takes e) new,
  )

  -- The consumer that has read the events, while no call fails, has added a row for each, in order.
  pub consume_audit_topic-said :
      (es : List Event) (w : World)
      → w.outages ≡ []
      → MakesNewIds w.db
      → map said (consume_audit_topic envelope jsonb (map text es) w).db.audit
        ≡ map said w.db.audit ++ map (λ e. (event_of e, stored e)) es
  unfolding consume_audit_topic
  consume_audit_topic-said [] w up new = ground (arith, append_nil (map said w.db.audit))
  consume_audit_topic-said (e ∷ es) w up new =
      let next = record w { db = inserted (event_of e) (stored e) w.db } in
      let rest =
        consume_audit_topic-said es next up
          (inserted-MakesNewIds (event_of e) (stored e) w.db new) in
      ap (λ v. map said (consume_audit_topic envelope jsonb (map text es) v).db.audit)
        (insert_works e w up new)
      ∙ rest
      ∙ ap (λ xs. xs ++ map (λ x. (event_of x, stored x)) es)
          (map-append w.db.audit (row_of (event_of e) (stored e) w.db ∷ []))
      ∙ append_assoc (map said w.db.audit) ((event_of e, stored e) ∷ [])
          (map (λ x. (event_of x, stored x)) es)
