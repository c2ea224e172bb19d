-- ===== src/Core/Asset/Forest.antt =====
-- The tree of assets after any requests.
use seta_training.Prelude.{
  ℕ, String, Bool, true, false, List, [], ◌∷◌, Option, none, some, Result, ok, err, state-drop,
  arith,
}
use seta_training.Core.Db.{UserRow}
use seta_training.Core.Db.Assets
use seta_training.Core.Db.Acl
use seta_training.Core.Db.Tree.{IsTree, IsTree-of_same, delete_asset-IsTree}
use seta_training.Core.World.{Error, no_rows, World, Action, Asset, AssetAcl, exec, publish}
use seta_training.Core.World.Keeps.{
  Keeps, Keeps-exec, Keeps-transaction, Keeps-bind, Keeps-redis_del, keeps_rules,
}
use seta_training.Core.Asset
use seta_training.Core.Asset.Repository
use seta_training.Core.Asset.{
  publish_event, when, delete, after_delete, share, check_share, after_share, revoke_share,
  get_by_id, list, cached_acl, cached_asset, load_asset, load_acl, require_read_access, evict_all,
  evict_acls, descendants_of,
}
use seta_training.Core.Asset.Requests.{
  Request, create, read, delete as delete_request, update, share as share_request, revoke,
  list as list_request, serve, run,
}
use seta_training.Core.Asset.Structure.{create-IsTree, update-IsTree}

insert_grant-Keeps :
    (e : Error) (a u level : String) → Keeps IsTree (exec e (Acl.upsert_asset_acl a u level))
unfolding Acl.upsert_asset_acl Assets.get_asset_by_id
insert_grant-Keeps e a u level =
    Keeps-exec e _ (λ d x d' h t. IsTree-of_same d d' (λ b. ground arith) t)

delete_grant-Keeps :
    (e : Error) (a u : String) → Keeps IsTree (exec e (Acl.delete_asset_acl_entry a u))
unfolding Acl.delete_asset_acl_entry Assets.get_asset_by_id
delete_grant-Keeps e a u = Keeps-exec e _ (λ d x d' h t. IsTree-of_same d d' (λ b. ground arith) t)

delete_row-Keeps : (e : Error) (a : String) → Keeps IsTree (exec e (Assets.delete_asset a))
delete_row-Keeps e a = Keeps-exec e _ (λ d x d' h t. delete_asset-IsTree a d d' h t)

publish_event-Keeps : (t a o : String) → Keeps IsTree (publish_event t a o)
unfolding publish_event publish
publish_event-Keeps t a o = record { at = λ w h. ground arith }

when-Keeps : (b : Bool) (m : Action (Unit {0})) → Keeps IsTree m → Keeps IsTree (when b m)
when-Keeps true m km = km
when-Keeps false m km = record { at = λ w h. h }

ruleset tree_rules = (
  keeps_rules, insert_grant-Keeps, delete_grant-Keeps, delete_row-Keeps, publish_event-Keeps,
  when-Keeps,
)

evict_all-Keeps : (ids : List String) → Keeps IsTree (evict_all ids)
unfolding evict_all
evict_all-Keeps [] = search tree_rules
evict_all-Keeps (a ∷ ids) =
    Keeps-bind _ _ (Keeps-redis_del _)
      (λ _. Keeps-bind _ _ (Keeps-redis_del _) (λ _. evict_all-Keeps ids))

evict_acls-Keeps : (ids : List String) → Keeps IsTree (evict_acls ids)
unfolding evict_acls
evict_acls-Keeps [] = search tree_rules
evict_acls-Keeps (a ∷ ids) = Keeps-bind _ _ (Keeps-redis_del _) (λ _. evict_acls-Keeps ids)

for_each-Keeps :
    (m : String → Action (Unit {0})) (ids : List String)
    → ((a : String) → Keeps IsTree (m a))
    → Keeps IsTree (Repository.for_each m ids)
unfolding Repository.for_each
for_each-Keeps m [] k = search tree_rules
for_each-Keeps m (a ∷ ids) k = Keeps-bind _ _ (k a) (λ _. for_each-Keeps m ids k)

cascade-Keeps :
    (m : String → Action (Unit {0})) (a ty : String)
    → ((b : String) → Keeps IsTree (m b))
    → Keeps IsTree (Repository.cascade m a ty)
unfolding Repository.cascade
cascade-Keeps m a ty k = search (tree_rules, for_each-Keeps m) depth 8

delete-Keeps : (c a : String) → Keeps IsTree (delete c a)
unfolding delete after_delete Repository.get_by_id Repository.get_descendant_ids Repository.delete
delete-Keeps c a = search (tree_rules, evict_all-Keeps) depth 16

share_rows-Keeps :
    (a ty u level : String) → Keeps IsTree (Repository.upsert_acl_with_cascade a ty u level)
unfolding Repository.upsert_acl_with_cascade
share_rows-Keeps a ty u level = Keeps-transaction _ (
    Keeps-bind _ _ (insert_grant-Keeps _ a u level)
      (λ _. cascade-Keeps _ a ty (λ b. insert_grant-Keeps _ b u level)))

revoke_rows-Keeps : (a ty u : String) → Keeps IsTree (Repository.delete_acl_with_cascade a ty u)
unfolding Repository.delete_acl_with_cascade
revoke_rows-Keeps a ty u = Keeps-transaction _ (
    Keeps-bind _ _ (delete_grant-Keeps _ a u)
      (λ _. cascade-Keeps _ a ty (λ b. delete_grant-Keeps _ b u)))

exists_or_not-Keeps : (r : Result Error UserRow) → Keeps IsTree (Repository.exists_or_not r)
exists_or_not-Keeps (ok x) = search tree_rules
exists_or_not-Keeps (err no_rows) = search tree_rules
exists_or_not-Keeps (err e) = search tree_rules

share-Keeps : (c a u level : String) → Keeps IsTree (share c a u level)
unfolding share check_share after_share Repository.get_by_id Repository.user_exists
share-Keeps c a u level =
    search (tree_rules, share_rows-Keeps, evict_acls-Keeps, exists_or_not-Keeps) depth 16

revoke_share-Keeps : (c a u : String) → Keeps IsTree (revoke_share c a u)
unfolding revoke_share Repository.get_by_id
revoke_share-Keeps c a u = search (tree_rules, revoke_rows-Keeps, evict_acls-Keeps) depth 16

load_asset-Keeps : (a : String) (o : Option Asset) → Keeps IsTree (load_asset a o)
unfolding Repository.get_by_id
load_asset-Keeps a none = search tree_rules depth 10
load_asset-Keeps a (some x) = search tree_rules

load_acl-Keeps : (a : String) (o : Option (List AssetAcl)) → Keeps IsTree (load_acl a o)
unfolding Repository.list_acl_by_asset
load_acl-Keeps a none = search tree_rules depth 10
load_acl-Keeps a (some x) = search tree_rules

get_by_id-Keeps : (c a : String) → Keeps IsTree (get_by_id c a)
unfolding get_by_id cached_asset require_read_access cached_acl Repository.is_manager_of_owner
get_by_id-Keeps c a = search (tree_rules, load_asset-Keeps, load_acl-Keeps) depth 16

list-Keeps : (c : String) (page limit : ℕ) → Keeps IsTree (list c page limit)
unfolding list Repository.list Repository.count_by_owner
list-Keeps c page limit = search tree_rules depth 12

serve-IsTree : (r : Request) (w : World) → IsTree w.db → IsTree (serve r w).1.db
unfolding serve
serve-IsTree (create c p ty ti co) w t =
    rw (state-drop (Asset.create c p ty ti co) w) (create-IsTree c p ty ti co w t)
serve-IsTree (read c a) w t = rw (state-drop (get_by_id c a) w) ((get_by_id-Keeps c a).at w t)
serve-IsTree (delete_request c a) w t = (delete-Keeps c a).at w t
serve-IsTree (update c a ti co) w t =
    rw (state-drop (Asset.update c a ti co) w) (update-IsTree c a ti co w t)
serve-IsTree (share_request c a u level) w t = (share-Keeps c a u level).at w t
serve-IsTree (revoke c a u) w t = (revoke_share-Keeps c a u).at w t
serve-IsTree (list_request c page limit) w t =
    rw (state-drop (list c page limit) w) ((list-Keeps c page limit).at w t)

-- After any requests to the asset service, whichever calls fail, every note has a parent, every
-- parent is a folder that exists, and no folder has content, if that held before.
pub run-IsTree : (rs : List Request) (w : World) → IsTree w.db → IsTree (run rs w).db
unfolding run
run-IsTree [] w t = t
run-IsTree (r ∷ rs) w t = run-IsTree rs (serve r w).1 (serve-IsTree r w t)
