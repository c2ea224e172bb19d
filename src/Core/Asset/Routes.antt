-- ===== src/Core/Asset/Routes.antt =====
-- The routes of core-service/internal/router/router.go that asset's handlers answer, and what an
-- answer says of the service's rules and of the database.
use seta_training.Prelude.{
  ℕ, String, false, Option, none, some, ◌≡◌, is_ok, arith, Option-cases, inl, inr, ltb,
}
use seta_training.Core.World.{World, Asset}
use seta_training.Core.Asset.{get_by_id}
use seta_training.Core.Asset.Reading.{IsSeen, MayRead}
use seta_training.Core.Http.{Response, Caller, status_of}
use seta_training.Core.Asset.Handler
use seta_training.Core.Asset.Handler.{
  CreateAssetRequest, UpdateAssetRequest, ShareAssetRequest, Query, read_limit, read_page,
}
use seta_training.Core.Asset.Requests.{
  Request, create, read, delete, update, share, revoke, list, serve,
}
use seta_training.Core.Asset.Rules.{MayChange, failed_request_keeps_db}

-- The path, the query and the body of a request, with the caller that the token names; of a body
-- that is refused, the text of the error.
pub data Route : Type 0 where
  post_assets : (caller : Caller) (refusal : String) (body : Option CreateAssetRequest) → Route
  get_asset delete_asset : (caller : Caller) (id : String) → Route
  put_asset : (caller : Caller) (id refusal : String) (body : Option UpdateAssetRequest) → Route
  post_share : (caller : Caller) (id refusal : String) (body : Option ShareAssetRequest) → Route
  delete_share : (caller : Caller) (id user_id : String) → Route
  get_assets : (caller : Caller) (limit page : Query) → Route

abbrev with_status : {A : Type 0} → Response A × World → ℕ × World
with_status (r, w) = (status_of r, w)

-- The status of the answer, and the servers after it.
unfoldable pub route : Route → World → ℕ × World
route (post_assets c why b) w = with_status (Handler.create c why b w)
route (get_asset c a) w = with_status (Handler.get_by_id c a w)
route (delete_asset c a) w = with_status (Handler.delete c a w)
route (put_asset c a why b) w = with_status (Handler.update c a why b w)
route (post_share c a why b) w = with_status (Handler.share c a why b w)
route (delete_share c a u) w = with_status (Handler.revoke_share c a u w)
route (get_assets c limit page) w = with_status (Handler.list c limit page w)

-- The request to the service that the guards of a handler let through.
abbrev with_both : {A : Type 0} → Option String → Option A → (String → A → Request) → Option Request
with_both (some c) (some b) f = some (f c b)
with_both (some c) none f = none
with_both none b f = none

-- Both values, if both are there.
abbrev both : {A B : Type 0} → Option A → Option B → Option (A × B)
both none b = none
both (some a) none = none
both (some a) (some b) = some (a, b)

abbrev read_both : Query → Query → Option (ℕ × ℕ)
read_both limit page = both (read_limit limit) (read_page page)

unfoldable pub request_of : Route → Option Request
request_of (post_assets c why b) =
    with_both c.id b (λ c b. create c b.parent_id b.type b.title b.content)
request_of (get_asset c a) = with_both c.id (some a) read
request_of (delete_asset c a) = with_both c.id (some a) delete
request_of (put_asset c a why b) = with_both c.id b (λ c b. update c a b.title b.content)
request_of (post_share c a why b) = with_both c.id b (λ c b. share c a b.user_id b.access_level)
request_of (delete_share c a u) = with_both c.id (some u) (λ c u. revoke c a u)
request_of (get_assets c limit page) = with_both c.id (read_both limit page) (λ c q. list c q.1 q.0)

-- What the handlers add to the service: nothing to the servers, and a failure for an error.
abbrev pub Answers : Option Request → World → ℕ × World → Type 0
Answers none w (s, w') = (ltb s 400 ≡ false) × (w' ≡ w)
Answers (some r) w (s, w') = (ltb s 400 ≡ is_ok (serve r w).0) × (w' ≡ (serve r w).1)

pub route-Answers : (r : Route) (w : World) → Answers (request_of r) w (route r w)
unfolding route request_of serve Handler.create Handler.get_by_id Handler.update Handler.delete
    Handler.share Handler.revoke_share Handler.list
route-Answers (post_assets c why b) w = ground arith
route-Answers (get_asset c a) w = ground arith
route-Answers (delete_asset c a) w = ground arith
route-Answers (put_asset c a why b) w = ground arith
route-Answers (post_share c a why b) w = ground arith
route-Answers (delete_share c a u) w = ground arith
route-Answers (get_assets c limit page) w = ground arith

-- What lets a request be answered: for a read, that the asset is as the cache or the database has it, and
-- that its owner is the caller, or a grant is the caller's, or the caller manages a team of the owner; for
-- a change, the rules of changes. A list, which is of the caller's own assets, has no rule.
abbrev pub MayAnswer : Request → World → Type 0
MayAnswer (create c p ty ti co) w = MayChange (create c p ty ti co) w
MayAnswer (read c a) w = (x : Asset) × IsSeen a x w × MayRead c a x.owner_id w
MayAnswer (delete c a) w = MayChange (delete c a) w
MayAnswer (update c a ti co) w = MayChange (update c a ti co) w
MayAnswer (share c a u level) w = MayChange (share c a u level) w
MayAnswer (revoke c a u) w = MayChange (revoke c a u) w
MayAnswer (list c page limit) w = Unit

-- A request to a route of the assets that is answered with a status from 400 on, whatever fails in
-- it, leaves the database as it was.
pub refused_route_keeps_db :
    (r : Route) (w : World) → ltb (route r w).0 400 ≡ false → (route r w).1.db ≡ w.db
refused_route_keeps_db r w h = elim (Option-cases (request_of r)) [
  | inl refused ↦ ground (arith, rw refused at (route-Answers r w))
  | inr (q, let_through) ↦
      let (same, end) : Answers (some q) w (route r w) = rw let_through at (route-Answers r w) in
      ground (arith, same, end, failed_request_keeps_db q w)
]
