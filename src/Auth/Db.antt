-- ===== src/Auth/Db.antt =====
-- The tables of auth-service (auth-service/internal/db/models.go) under the constraints that its
-- migrations declare, and a function for each query of users.sql.go and refresh_tokens.sql.go.
use seta_training.Prelude.{
  ℕ, zero, suc, ◌+◌, String, Bool, true, false, not, ◌&&◌, ◌||◌, ◌==◌, Option, none, some, List, [],
  ◌∷◌, ◌++◌, map, find, exists, select, length, ltb, if◌then◌else◌, Result, ok, err,
}
pub mod Order
pub mod Spent
pub mod Texts
pub mod Sorted
use Order.{before, sort_by}

pub record User : Type 0 where
  pub user_id : String
  pub username : String
  pub email : String
  pub password_hash : String
  pub role : String
  pub created_at : ℕ

pub record RefreshToken : Type 0 where
  pub jti : String
  pub user_id : String
  pub expires_at : ℕ
  pub revoked : Bool

-- What a query fails by: no row for `Scan`, no connection, a taken unique value (23505), any other
-- constraint, and a text that is no UUID.
pub data DbError : Type 0 where
  no_rows unavailable unique_violation refused malformed : DbError

-- The tables, and what the server supplies: its clock, in seconds, the results of
-- `gen_random_uuid()`, of which `issued` have been taken, the reading of a text as a UUID (its
-- canonical text), and whether a text fits a `VARCHAR(255)`.
pub record Database : Type 0 where
  pub users : List User
  pub tokens : List RefreshToken
  pub now : ℕ
  pub uuid : ℕ → String
  pub issued : ℕ
  pub as_uuid : String → Option String
  pub fits : String → Bool

abbrev pub is_user : String → User → Bool
is_user u r = r.user_id == u

abbrev pub has_email : String → User → Bool
has_email m r = r.email == m

abbrev new_user : String → String → String → String → Database → User
new_user username email password_hash role d = record {
  user_id = d.uuid d.issued;
  username = username;
  email = email;
  password_hash = password_hash;
  role = role;
  created_at = d.now;
}

-- `CHECK (role IN ('manager', 'member'))`, and the widths of the columns.
abbrev pub is_accepted : String → String → String → String → Database → Bool
is_accepted username email password_hash role d =
    (role == "manager" || role == "member")
    && d.fits username
    && d.fits email
    && d.fits password_hash

-- Both keys are unique: the id and the e-mail.
unfoldable pub create_user :
    String → String → String → String → Database → Result DbError (User × Database)
create_user username email password_hash role d =
    let row : User = new_user username email password_hash role d in
    if not (is_accepted username email password_hash role d)
    then err refused
    else if exists (is_user row.user_id) d.users || exists (has_email email) d.users
    then err unique_violation
    else ok (row, record d { users = d.users ++ row ∷ []; issued = d.issued + 1 })

unfoldable pub get_user_by_email : String → Database → Option User
get_user_by_email m d = find (has_email m) d.users

unfoldable pub count_users : Database → ℕ
count_users d = length d.users

unfoldable pub take {ℓ} : {A : Type ℓ} → ℕ → List A → List A
take n [] = []
take zero (x ∷ xs) = []
take (suc n) (x ∷ xs) = x ∷ take n xs

-- `ORDER BY user_id`
abbrev pub by_id : List User → List User
by_id = sort_by (λ u. u.user_id)

unfoldable pub list_users_from_start : ℕ → Database → List User
list_users_from_start limit d = take limit (by_id d.users)

-- `WHERE user_id > $1`, of a text that is a UUID.
unfoldable pub list_users_with_cursor : String → ℕ → Database → List User
list_users_with_cursor cursor limit d =
    take limit (by_id (select (λ u. before cursor u.user_id) d.users))

abbrev pub is_token : String → RefreshToken → Bool
is_token j r = r.jti == j

-- `err unique_violation`: the key is taken. `err refused`: there is no such user (foreign key).
unfoldable pub insert_refresh_token :
    String → String → ℕ → Database → Result DbError (Unit {0} × Database)
insert_refresh_token jti user_id expires_at d =
    if exists (is_token jti) d.tokens
    then err unique_violation
    else if not (exists (is_user user_id) d.users)
    then err refused
    else ok (
      tt,
      record d {
        tokens =
            d.tokens
            ++ record { jti = jti; user_id = user_id; expires_at = expires_at; revoked = false }
              ∷ [];
      },
    )

unfoldable pub is_refresh_token_valid : String → Database → Bool
is_refresh_token_valid jti d =
    exists (λ r. is_token jti r && not r.revoked && ltb d.now r.expires_at) d.tokens

abbrev pub revoke_if : (RefreshToken → Bool) → RefreshToken → RefreshToken
revoke_if p r = if p r then record r { revoked = true } else r

unfoldable pub mark_refresh_token_revoked : String → Database → Result DbError (Unit {0} × Database)
mark_refresh_token_revoked jti d =
    ok (tt, record d { tokens = map (revoke_if (is_token jti)) d.tokens })

abbrev pub is_of : String → RefreshToken → Bool
is_of u r = r.user_id == u

unfoldable pub revoke_all_refresh_tokens_for_user :
    String → Database → Result DbError (Unit {0} × Database)
revoke_all_refresh_tokens_for_user user_id d =
    ok (tt, record d { tokens = map (revoke_if (is_of user_id)) d.tokens })
