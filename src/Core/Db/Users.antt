-- ===== src/Core/Db/Users.antt =====
-- The queries of users_projection.sql.go, and `GetUserProjectionByID` of teams.sql.go.
use seta_training.Prelude.{
  String, Bool, true, false, Option, none, some, ◌==◌, ◌&&◌, ◌||◌, not, find, exists, map, upsert,
  if◌then◌else◌,
}
use seta_training.Core.Db.Tables.{UserRow, Database, is_role}

-- `up.deleted_at IS NULL`
abbrev pub is_live : UserRow → Bool
is_live r = elim r.deleted_at [ none ↦ true | some _ ↦ false ]

abbrev pub is_user : String → UserRow → Bool
is_user u r = r.user_id == u

-- The foreign keys refer to any row of the table, a soft-deleted one too.
unfoldable pub has_user : String → Database → Bool
has_user u d = exists (is_user u) d.users

unfoldable pub get_user_projection_by_id : String → Database → Option UserRow
get_user_projection_by_id u d = find (λ r. is_user u r && is_live r) d.users

-- The columns that the statement gives, `deleted_at` null and `updated_at` now.
abbrev pub projected : String → String → String → String → Database → UserRow
projected user_id username email role d = record {
  user_id = user_id;
  username = username;
  email = email;
  role = role;
  deleted_at = none;
  updated_at = d.now;
}

-- `none`: another row has the e-mail (`UNIQUE`), or the role is none (`CHECK`).
unfoldable pub upsert_user_projection :
    String → String → String → String → Database → Option (Unit {0} × Database)
unfolding is_role
upsert_user_projection user_id username email role d =
    if not (is_role role) || exists (λ r. r.email == email && not (is_user user_id r)) d.users
    then none
    else some (
      tt,
      record d {
        users = upsert (is_user user_id) (projected user_id username email role d) d.users;
      },
    )

unfoldable pub soft_delete_user_projection : String → Database → Option (Unit {0} × Database)
soft_delete_user_projection u d = some (
  tt,
  record d {
    users = map (λ r. if is_user u r then record r { deleted_at = some d.now } else r) d.users;
  },
)
