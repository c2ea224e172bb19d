-- ===== src/Auth/Users.antt =====
-- auth-service/internal/user: repository.go, and `Register`, `Login` and `ListPage` of service.go.
use seta_training.Prelude.{
  ℕ, String, not, Option, none, some, List, ◌==◌, Result, ok, err, pure, raise, attempt, raise_if,
  ◌>>=◌, ◌>>◌, if◌then◌else◌,
}
use seta_training.Auth.Libraries.{Bcrypt}
use seta_training.Auth.Db
use seta_training.Auth.Db.{User, DbError, no_rows, unique_violation, malformed}
use seta_training.Auth.World.{
  Error, email_in_use, invalid_credentials, hash_failed, database, user_event, Action, one, many,
  exec, publish,
}

-- `errors.As(err, &pgErr) && pgErr.Code == pgUniqueViolation`
abbrev pub or_in_use : {A : Type 0} → Result Error A → Action A
or_in_use (ok a) = pure a
or_in_use (err (database unique_violation)) = raise email_in_use
or_in_use (err e) = raise e

unfoldable pub create : String → String → String → String → Action User
create username email password_hash role = do
  created ← attempt (exec (Db.create_user username email password_hash role))
  or_in_use created

unfoldable pub find_by_email : String → Action User
find_by_email email = one (Db.get_user_by_email email)

-- The page behind a cursor, which has to be a UUID.
abbrev pub page_after : Option String → ℕ → Action (List User)
page_after none limit = raise (database malformed)
page_after (some cursor) limit = many (Db.list_users_with_cursor cursor limit)

unfoldable pub find_page : String → ℕ → Action (List User)
find_page cursor limit w =
    if cursor == ""
    then many (Db.list_users_from_start limit) w
    else page_after (w.db.as_uuid cursor) limit w

unfoldable pub count : Action ℕ
count = many Db.count_users

-- The salt that bcrypt draws is named by the number of the ids that have been issued.
abbrev pub hashed : Option String → Action String
hashed none = raise hash_failed
hashed (some hash) = pure hash

-- `errors.Is(err, pgx.ErrNoRows)`
abbrev pub or_invalid : {A : Type 0} → Result Error A → Action A
or_invalid (ok a) = pure a
or_invalid (err (database no_rows)) = raise invalid_credentials
or_invalid (err e) = raise e

unfoldable pub generate_hash : Bcrypt → String → Action String
generate_hash b password w = hashed (b.generate w.db.issued password) w

module _ (b : Bcrypt) where
  unfoldable pub register : String → String → String → String → Action User
  unfolding generate_hash
  register username email password role = do
    hash ← generate_hash b password
    u ← create username email hash role
    publish "user.events" (user_event "USER_CREATED" u.user_id u.username u.email u.role)
    pure u

  unfoldable pub login : String → String → Action User
  login email password = do
    found ← attempt (find_by_email email)
    u ← or_invalid found
    raise_if (not (b.compare u.password_hash password)) invalid_credentials
    pure u

unfoldable pub list_page : String → ℕ → Action (List User × ℕ)
list_page cursor limit = do total ← count; users ← find_page cursor limit; pure (users, total)
