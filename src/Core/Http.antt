-- ===== src/Core/Http.antt =====
-- The answers of the handlers: core-service/internal/response, and the caller that
-- core-service/internal/middleware/context.go finds in the context of a request.
use seta_training.Prelude.{ℕ, String, Option, none, some, Result, ok, err}
use seta_training.Core.World.{Error, World, Action}

-- What `Error`, `SuccessWithStatus`, `Paginated` and `c.Status` write. Gin writes the JSON text.
pub data Response (A : Type 0) : Type 0 where
  failure : (status : ℕ) (code message : String) → Response A
  success : (status : ℕ) (data_of : A) → Response A
  paginated : (data_of : A) (total page limit : ℕ) (next_cursor : String) → Response A
  empty : (status : ℕ) → Response A

abbrev pub status_of : {A : Type 0} → Response A → ℕ
status_of (failure status code message) = status
status_of (success status x) = status
status_of (paginated x total page limit next_cursor) = 200
status_of (empty status) = status

-- What the token's middleware has set: `CallerID` and `CallerRole` find it.
pub record Caller : Type 0 where
  pub id : Option String
  pub role : Option String

abbrev pub Handler : Type 0 → Type 0
Handler A = World → Response A × World

abbrev pub answer : {A : Type 0} → Response A → Handler A
answer r w = (r, w)

abbrev pub missing_caller : {A : Type 0} → Response A
missing_caller = failure 401 "UNAUTHORIZED" "missing caller"

-- `callerID, ok := middleware.CallerID(c)`, and the answer if there is none.
abbrev pub with_caller : {A : Type 0} → Option String → (String → Handler A) → Handler A
with_caller none h = answer missing_caller
with_caller (some caller_id) h = h caller_id

-- `c.ShouldBindJSON(&body)`, which Gin answers: the body, if it is one of the form required.
abbrev pub with_body : {A B : Type 0} → Option B → Response A → (B → Handler A) → Handler A
with_body none bad h = answer bad
with_body (some body) bad h = h body

abbrev pub written :
    {A B : Type 0} → (Error → Response B) → (A → Response B) → Result Error A → Response B
written on_error on_success (ok a) = on_success a
written on_error on_success (err e) = on_error e

-- The call of the service, and the answer to its error or its result.
abbrev pub respond : {A B : Type 0} → (Error → Response B) → (A → Response B) → Action A → Handler B
respond on_error on_success m w = let (r, w') = m w in (written on_error on_success r, w')
