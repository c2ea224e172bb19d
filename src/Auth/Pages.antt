-- ===== src/Auth/Pages.antt =====
-- `ListUsers` of auth-service/internal/user/handler.go, and a client that follows its cursors.
use seta_training.Prelude.{
  ℕ, zero, suc, String, Bool, Option, none, some, List, [], ◌∷◌, ◌++◌, map, ◌==◌, Result, ok, err,
  length, equal, if◌then◌else◌,
}
use seta_training.Core.Http.{Response, failure, success, paginated, empty}
use seta_training.Core.Asset.Handler.{Query, read_limit}
use seta_training.Auth.Db.{User}
use seta_training.Auth.World.{World, Error}
use seta_training.Auth.Users
use seta_training.Auth.Handler.{Handler, write_user_err, respond}
pub mod Rows
pub mod Walk

-- user/model.go
pub record UserResponse : Type 0 where
  pub user_id : String
  pub username : String
  pub email : String
  pub role : String
  pub created_at : ℕ

abbrev pub to_response : User → UserResponse
to_response u = record {
  user_id = u.user_id;
  username = u.username;
  email = u.email;
  role = u.role;
  created_at = u.created_at;
}

-- `users[len(users)-1].UserID`, where there is one.
unfoldable pub last_id : List User → String
last_id [] = ""
last_id (u ∷ us) = elim us [ [] ↦ u.user_id | _ ∷ _ ↦ last_id us ]

-- A page that is full may have another behind it.
unfoldable pub next_cursor : List User → ℕ → String
next_cursor users limit = if equal (length users) limit then last_id users else ""

abbrev pub page : ℕ → List User × ℕ → Handler (List UserResponse)
page limit (users, total) w =
    (paginated (map to_response users) total 0 limit (next_cursor users limit), w)

abbrev limited : String → Option ℕ → Handler (List UserResponse)
limited cursor none w = (failure 400 "BAD_REQUEST" "limit must be between 1 and 100", w)
limited cursor (some limit) w = respond write_user_err (page limit) (Users.list_page cursor limit w)

unfoldable pub list_users : Query → (cursor : String) → Handler (List UserResponse)
list_users limit_str cursor = limited cursor (read_limit limit_str)

-- The rows and the cursor of an answer; any other ends the walk with nothing.
abbrev pub read_page : Response (List UserResponse) → Option (List UserResponse × String)
read_page (paginated users total n limit cursor) = some (users, cursor)
read_page _ = none

abbrev pub joined : List UserResponse → Option (List UserResponse) → Option (List UserResponse)
joined users none = none
joined users (some more) = some (users ++ more)

abbrev pub go_on :
    (String → World → Option (List UserResponse))
    → Option (List UserResponse × String)
    → World
    → Option (List UserResponse)
go_on more none w = none
go_on more (some (users, cursor)) w =
    if cursor == "" then some users else joined users (more cursor w)

abbrev pub follow :
    (String → World → Option (List UserResponse))
    → Response (List UserResponse) × World
    → Option (List UserResponse)
follow more (answer, w) = go_on more (read_page answer) w

-- A client that asks for page after page, until a cursor is empty; `none` if an answer is no page,
-- or after `fuel` pages.
unfoldable pub walk : (fuel : ℕ) → Query → String → World → Option (List UserResponse)
walk zero limit cursor w = none
walk (suc fuel) limit cursor w = follow (walk fuel limit) (list_users limit cursor w)
