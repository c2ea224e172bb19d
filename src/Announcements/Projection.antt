-- ===== src/Announcements/Projection.antt =====
-- The projection of core-service has the users of auth-service.
use seta_training.Prelude.{
  String, false, not, ◌&&◌, none, some, List, [], ◌∷◌, ◌++◌, ◌==◌, ◌≡◌, refl, ok, arith, exists,
  upsert, is_down, later, inl, inr, Option-cases, Result-cases, Bool-cases, ◌∙◌,
}
use seta_training.Core.Db.{UserRow, Database as CoreDatabase}
use seta_training.Core.Db.Tables.{is_role}
use seta_training.Core.Db.Users.{upsert_user_projection, projected, is_user as is_row_of}
use seta_training.Core.World.{World as CoreWorld, exec as core_exec}
use seta_training.Core.Team.Repository.{upsert as upsert_user}
use seta_training.Core.UserEvents.{handle_user_event}
use seta_training.Auth.Libraries.{Bcrypt}
use seta_training.Auth.Db.{Database, User, create_user, is_user, has_email}
use seta_training.Auth.World.{World, exec, publish}
use seta_training.Auth.Users.{register, create, generate_hash}
use seta_training.Auth.Handler.{RegisterRequest}
use seta_training.Announcements.{project, register_all}

-- A row that tells of a user, as not deleted.
abbrev pub TellsOf : UserRow → User → Type 0
TellsOf r u =
    (r.user_id ≡ u.user_id)
    × (r.username ≡ u.username)
    × (r.email ≡ u.email)
    × (r.role ≡ u.role)
    × (r.deleted_at ≡ none)

-- Each row tells of the user at its place, and there is no other.
abbrev pub Follows : List UserRow → List User → Type 0
Follows [] [] = Unit
Follows [] (u ∷ us) = ⊥
Follows (r ∷ rs) [] = ⊥
Follows (r ∷ rs) (u ∷ us) = TellsOf r u × Follows rs us

same_ids :
    (i : String) (rs : List UserRow) (us : List User)
    → Follows rs us
    → exists (is_row_of i) rs ≡ exists (is_user i) us
unfolding exists
same_ids i [] [] h = refl
same_ids i [] (u ∷ us) h = absurd h
same_ids i (r ∷ rs) [] h = absurd h
same_ids i (r ∷ rs) (u ∷ us) h = ground (arith, h.0.0, same_ids i rs us h.1)

no_email :
    (i m : String) (rs : List UserRow) (us : List User)
    → Follows rs us
    → exists (has_email m) us ≡ false
    → exists (λ r. r.email == m && not (is_row_of i r)) rs ≡ false
unfolding exists
no_email i m [] [] h none_has = refl
no_email i m [] (u ∷ us) h none_has = absurd h
no_email i m (r ∷ rs) [] h none_has = absurd h
no_email i m (r ∷ rs) (u ∷ us) h none_has =
    ground (arith, h.0.2, no_email i m rs us h.1 (ground arith))

upsert-Follows :
    (row : UserRow) (u : User) (rs : List UserRow) (us : List User)
    → exists (is_row_of u.user_id) rs ≡ false
    → TellsOf row u
    → Follows rs us
    → Follows (upsert (is_row_of u.user_id) row rs) (us ++ u ∷ [])
unfolding upsert exists
upsert-Follows row u [] [] fresh tells h = (tells, tt)
upsert-Follows row u [] (v ∷ us) fresh tells h = absurd h
upsert-Follows row u (r ∷ rs) [] fresh tells h = absurd h
upsert-Follows row u (r ∷ rs) (v ∷ us) fresh tells h = elim (Bool-cases (is_row_of u.user_id r)) [
  | inl same ↦ absurd (ground arith)
  | inr apart ↦ rw apart (h.0, upsert-Follows row u rs us (ground arith) tells h.1)
]

-- A user whom auth-service accepts, core-service accepts, too.
accepted :
    (n m h r : String) (d d' : Database) (u : User) (c : CoreDatabase)
    → create_user n m h r d ≡ ok (u, d')
    → Follows c.users d.users
    → (c' : CoreDatabase) × (upsert_user_projection u.user_id u.username u.email u.role c
        ≡ some (tt, c'))
      × Follows c'.users d'.users
unfolding create_user upsert_user_projection is_role
accepted n m h r d d' u c done follows =
    let new_id : exists (is_user u.user_id) d.users ≡ false = ground arith in
    let new_email : exists (has_email u.email) d.users ≡ false = ground arith in
    let appended : d'.users ≡ d.users ++ u ∷ [] = ground arith in
    let row : UserRow = projected u.user_id u.username u.email u.role c in
    (
      record c { users = upsert (is_row_of u.user_id) row c.users },
      ground (arith, no_email u.user_id u.email c.users d.users follows new_email),
      rw appended (
          upsert-Follows row u c.users d.users (same_ids u.user_id c.users d.users follows ∙ new_id)
            (refl, refl, refl, refl, refl) follows),
    )

-- Where both services stand: core-service, which has read all messages, tells of all users, and no
-- call fails.
record IsInStep (c : CoreWorld) (w : World) : Type 0 where
  calls : w.outages ≡ []
  core_calls : (project w.messages c).outages ≡ []
  follows : Follows (project w.messages c).db.users w.db.users

register-IsInStep :
    (b : Bcrypt) (q : RegisterRequest) (c : CoreWorld) (w : World)
    → IsInStep c w
    → IsInStep c (register b q.username q.email q.password q.role w).1
unfolding register create generate_hash exec publish project handle_user_event upsert_user core_exec
    is_down later
register-IsInStep b q c w h = elim (Option-cases (b.generate w.db.issued q.password)) [
  | inl none_made ↦ record {
    calls = ground (arith, h.calls);
    core_calls = ground (arith, h.calls, h.core_calls);
    follows = ground (arith, h.calls, h.follows);
  }
  | inr (hash, made) ↦ elim (Result-cases (create_user q.username q.email hash q.role w.db)) [
    | inr (e, refused) ↦ record {
      calls = ground (arith, h.calls);
      core_calls = ground (arith, h.calls, h.core_calls);
      follows = ground (arith, h.calls, h.follows);
    }
    | inl (x, created) ↦
        let (c', kept, follows) =
          accepted q.username q.email hash q.role w.db x.1 x.0 (project w.messages c).db created
            h.follows in
        record {
          calls = ground (arith, h.calls);
          core_calls = ground (arith, h.calls, h.core_calls, kept);
          follows = ground (arith, h.calls, h.core_calls, kept, follows);
        }
  ]
]

register_all-IsInStep :
    (b : Bcrypt) (qs : List RegisterRequest) (c : CoreWorld) (w : World)
    → IsInStep c w
    → IsInStep c (register_all b qs w)
unfolding register_all
register_all-IsInStep b [] c w h = h
register_all-IsInStep b (q ∷ qs) c w h =
    register_all-IsInStep b qs c (register b q.username q.email q.password q.role w).1
      (register-IsInStep b q c w h)

-- After any registrations at auth-service, some of which it may refuse, the consumer of core-service,
-- once it has read the topic from its start, has a row for each user, with the same id, name, e-mail
-- and role, and no other, if that held when the topic was empty and no call fails.
pub project-register_all :
    (b : Bcrypt) (qs : List RegisterRequest) (c : CoreWorld) (w : World)
    → w.outages ≡ []
    → c.outages ≡ []
    → w.messages ≡ []
    → Follows c.db.users w.db.users
    → Follows (project (register_all b qs w).messages c).db.users (register_all b qs w).db.users
unfolding project
project-register_all b qs c w up core_up empty follows =
    let start : IsInStep c w = record {
      calls = up;
      core_calls = ground (arith, empty, core_up);
      follows = rw empty follows;
    } in
    (register_all-IsInStep b qs c w start).follows
