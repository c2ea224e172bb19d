-- ===== src/Core/Asset/Checks.antt =====
-- The look-ups and the checks of the service: they keep whatever the queries that read keep.
use seta_training.Prelude.{String, Option, none, some, Result, ok, err}
use seta_training.Core.Db.{AclRow, UserRow, Database}
use seta_training.Core.World.{Error, no_rows, asset_not_found, World, Asset, one}
use seta_training.Core.World.Triple.{Preserves, preserve_rules}
use seta_training.Core.Asset.Repository
use seta_training.Core.Asset.{
  check_parent, check_folder, found_parent, check_update, require_write_access, check_share,
}

module _ (P : World → Type 0)
    (reads : (A : Type 0) (f : Database → Option A) → Preserves P (one f)) where
  pub Preserves-acl_or_nil : (r : Result Error AclRow) → Preserves P (Repository.acl_or_nil r)
  Preserves-acl_or_nil (ok row) = search preserve_rules
  Preserves-acl_or_nil (err no_rows) = search preserve_rules
  Preserves-acl_or_nil (err e) = search preserve_rules

  pub Preserves-get_acl_entry : (a u : String) → Preserves P (Repository.get_acl_entry a u)
  unfolding Repository.get_acl_entry
  Preserves-get_acl_entry a u = search (preserve_rules, reads, Preserves-acl_or_nil) depth 8

  pub Preserves-get : (a : String) → Preserves P (Repository.get_by_id a)
  unfolding Repository.get_by_id
  Preserves-get a = search (preserve_rules, reads) depth 8

  pub Preserves-require_write_access :
      (x : Asset) (c : String) → Preserves P (require_write_access x c)
  unfolding require_write_access
  Preserves-require_write_access x c = search (preserve_rules, Preserves-get_acl_entry) depth 8

  pub Preserves-check_folder : (x : Asset) (c : String) → Preserves P (check_folder x c)
  unfolding check_folder
  Preserves-check_folder x c = search (preserve_rules, Preserves-require_write_access) depth 8

  pub Preserves-found_parent : (r : Result Error Asset) → Preserves P (found_parent r)
  Preserves-found_parent (ok x) = search preserve_rules
  Preserves-found_parent (err asset_not_found) = search preserve_rules
  Preserves-found_parent (err e) = search preserve_rules

  pub Preserves-check_parent : (p : Option String) (c : String) → Preserves P (check_parent p c)
  unfolding check_parent
  Preserves-check_parent none c = search preserve_rules
  Preserves-check_parent (some p) c =
      search (preserve_rules, Preserves-get, Preserves-found_parent, Preserves-check_folder) depth 8

  pub Preserves-check_update :
      (x : Asset) (co : Option String) (c : String) → Preserves P (check_update x co c)
  unfolding check_update
  Preserves-check_update x co c = search (preserve_rules, Preserves-require_write_access) depth 8

  pub Preserves-exists : (r : Result Error UserRow) → Preserves P (Repository.exists_or_not r)
  Preserves-exists (ok row) = search preserve_rules
  Preserves-exists (err no_rows) = search preserve_rules
  Preserves-exists (err e) = search preserve_rules

  pub Preserves-user_exists : (u : String) → Preserves P (Repository.user_exists u)
  unfolding Repository.user_exists
  Preserves-user_exists u = search (preserve_rules, reads, Preserves-exists) depth 8

  pub Preserves-check_share : (x : Asset) (c u : String) → Preserves P (check_share x c u)
  unfolding check_share
  Preserves-check_share x c u = search (preserve_rules, Preserves-user_exists) depth 8
