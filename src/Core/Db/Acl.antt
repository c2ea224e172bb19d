-- ===== src/Core/Db/Acl.antt =====
-- The queries of acl.sql.go on the grants of assets.
use seta_training.Prelude.{
  String, Bool, Option, none, some, List, ◌==◌, ◌&&◌, ◌||◌, not, find, exists, select, upsert,
  if◌then◌else◌,
}
use seta_training.Core.Db.Tables.{AclRow, Database}
use seta_training.Core.Db.Users.{has_user}
use seta_training.Core.Db.Assets.{is_asset}

abbrev pub is_grant : String → String → AclRow → Bool
is_grant a u r = r.asset_id == a && r.user_id == u

unfoldable pub get_asset_acl : String → String → Database → Option AclRow
get_asset_acl a u d = find (is_grant a u) d.acl

unfoldable pub list_asset_acl : String → Database → List AclRow
list_asset_acl a d = select (λ r. r.asset_id == a) d.acl

-- `none`: no such asset or user (foreign keys), or the level is none (`CHECK`).
unfoldable pub upsert_asset_acl : String → String → String → Database → Option (Unit {0} × Database)
unfolding has_user
upsert_asset_acl a u level d =
    if exists (is_asset a) d.assets && has_user u d && (level == "read" || level == "write")
    then some (
      tt,
      record d {
        acl =
            upsert (is_grant a u) (record { asset_id = a; user_id = u; access_level = level })
              d.acl;
      },
    )
    else none

unfoldable pub delete_asset_acl_entry : String → String → Database → Option (Unit {0} × Database)
delete_asset_acl_entry a u d =
    some (tt, record d { acl = select (λ r. not (is_grant a u r)) d.acl })
