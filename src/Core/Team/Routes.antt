-- ===== src/Core/Team/Routes.antt =====
-- The routes of core-service/internal/router/router.go that team's handlers answer, and what an
-- answer says of the service's rules and of the database.
use seta_training.Prelude.{
  ℕ, String, true, false, Option, none, some, ◌≡◌, is_ok, arith, is_text, if◌then◌else◌,
  Result-cases, Option-cases, inl, inr, ltb,
}
use seta_training.Core.World.{World}
use seta_training.Core.Http.{Response, Caller, status_of}
use seta_training.Core.Team.Repository.{role_manager}
use seta_training.Core.Team.Handler
use seta_training.Core.Team.Handler.{write_team_err}
use seta_training.Core.Team.Requests.{Request, create, add, remove, promote, demote, members, serve}
use seta_training.Core.Team.Access.{MayServe, serve-MayServe, serve_failure_keeps_db}

-- The path and the body of a request, with the caller that the token names.
pub data Route : Type 0 where
  post_teams : (caller : Caller) (body : Option String) → Route
  post_members post_managers : (caller : Caller) (id : String) (body : Option String) → Route
  delete_member delete_manager : (caller : Caller) (id user_id : String) → Route
  get_members : (caller : Caller) (id : String) → Route

abbrev with_status : {A : Type 0} → Response A × World → ℕ × World
with_status (r, w) = (status_of r, w)

-- The status of the answer, and the servers after it.
unfoldable pub route : Route → World → ℕ × World
route (post_teams c b) w = with_status (Handler.create_team c b w)
route (post_members c t b) w = with_status (Handler.add_member c t b w)
route (post_managers c t b) w = with_status (Handler.add_manager c t b w)
route (delete_member c t u) w = with_status (Handler.remove_member c t u w)
route (delete_manager c t u) w = with_status (Handler.remove_manager c t u w)
route (get_members c t) w = with_status (Handler.get_members c t w)

-- The request to the service that the guards of a handler let through.
abbrev with_two : Option String → Option String → (String → String → Request) → Option Request
with_two (some c) (some b) f = some (f c b)
with_two (some c) none f = none
with_two none b f = none

unfoldable pub request_of : Route → Option Request
request_of (post_teams c b) = if is_text c.role role_manager then with_two c.id b create else none
request_of (post_members c t b) = with_two c.id b (add t)
request_of (post_managers c t b) = with_two c.id b (promote t)
request_of (delete_member c t u) = with_two c.id (some u) (remove t)
request_of (delete_manager c t u) = with_two c.id (some u) (demote t)
request_of (get_members c t) = with_two c.id (some t) (λ c t. members t c)

-- What the handlers add to the service: nothing to the servers, and a failure for an error.
abbrev pub Answers : Option Request → World → ℕ × World → Type 0
Answers none w (s, w') = (ltb s 400 ≡ false) × (w' ≡ w)
Answers (some r) w (s, w') = (ltb s 400 ≡ is_ok (serve r w).0) × (w' ≡ (serve r w).1)

pub route-Answers : (r : Route) (w : World) → Answers (request_of r) w (route r w)
unfolding route request_of serve Handler.create_team Handler.add_member Handler.add_manager
    Handler.remove_member Handler.remove_manager Handler.get_members
route-Answers (post_teams c b) w = ground arith
route-Answers (post_members c t b) w = ground arith
route-Answers (post_managers c t b) w = ground arith
route-Answers (delete_member c t u) w = ground arith
route-Answers (delete_manager c t u) w = ground arith
route-Answers (get_members c t) w = ground arith

-- A request to a route of the teams that is answered with a status below 400, whatever fails in it,
-- has passed its handler's guards (for a new team, the role of a manager) and the service's rules.
pub route-MayServe :
    (r : Route) (w : World)
    → ltb (route r w).0 400 ≡ true
    → (q : Request) × (request_of r ≡ some q) × MayServe q w
route-MayServe r w h = elim (Option-cases (request_of r)) [
  | inl refused ↦ absurd (ground (arith, rw refused at (route-Answers r w)))
  | inr (q, let_through) ↦
      let (same, _) : Answers (some q) w (route r w) = rw let_through at (route-Answers r w) in
      (q, let_through, serve-MayServe q w (cc (same, h)))
]

-- A request to a route of the teams that is answered with a status from 400 on, whatever fails in
-- it, leaves the database as it was.
pub failed_route_keeps_db :
    (r : Route) (w : World) → ltb (route r w).0 400 ≡ false → (route r w).1.db ≡ w.db
failed_route_keeps_db r w h = elim (Option-cases (request_of r)) [
  | inl refused ↦ ground (arith, rw refused at (route-Answers r w))
  | inr (q, let_through) ↦
      let (same, end) : Answers (some q) w (route r w) = rw let_through at (route-Answers r w) in
      elim (Result-cases (serve q w).0) [
        | inl (x, done) ↦ absurd (ground (arith, same, done, h))
        | inr (e, failed) ↦ ground (arith, end, serve_failure_keeps_db q w failed)
      ]
]
