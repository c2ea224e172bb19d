-- ===== src/Core/Asset/Structure.antt =====
-- The tree of assets under the requests of the asset service: what a successful request has written,
-- and that a failing one has written nothing.
use seta_training.Prelude.{
  String, true, Option, none, some, ◌≡◌, ◌≢◌, inl, inr, Result, ok, err, is_ok, arith, eq_iff,
  Option-cases, Result-cases, ap, ◌∙◌, Bool-cases, refl,
}
use seta_training.Core.Db.{Database, AssetRow}
use seta_training.Core.Db.Assets
use seta_training.Core.Db.Tree.{
  type_of, IsTree, IsTree-of_same, create_asset-IsTree, update_asset-IsTree,
}
use seta_training.Core.World.{Error, World, Asset, after_call, one, exec, redis_del, publish}
use seta_training.Core.Asset.Repository
use seta_training.Core.Asset.Repository.{row_to_asset}
use seta_training.Core.Asset.{
  create, check_request, store, check_parent, check_folder, update, check_update, rewrite,
}
use seta_training.Core.Asset.Access.{
  db-require_write_access, check_parent_sound, db-get_by_id, db-check_update, check_update_sound,
  get_by_id_sound, read_first, update_cases,
}

-- What a call that fails leaves of the database.
abbrev pub Leaves : {A : Type 0} → World → Result Error A × World → Type 0
Leaves w (ok a, w') = Unit
Leaves w (err e, w') = w'.db ≡ w.db

db-check_folder : (x : Asset) (c : String) (w : World) → (check_folder x c w).1.db ≡ w.db
unfolding check_folder
db-check_folder x c w = ground (arith, db-require_write_access x c w)

db-check_parent : (p : Option String) (c : String) (w : World) → (check_parent p c w).1.db ≡ w.db
unfolding check_parent Repository.get_by_id one
db-check_parent none c w = refl
db-check_parent (some p) c w = elim (Option-cases (Assets.get_asset_by_id p w.db)) [
  | inl missing ↦ ground arith
  | inr (row, there) ↦ ground (arith, db-check_folder (row_to_asset row) c (after_call w))
]

state-check_request :
    (p : Option String) (ty : String) (co : Option String) (w : World)
    → (check_request p ty co w).1 ≡ w
unfolding check_request
state-check_request p ty co w = ground arith

pub check_request_sound :
    (p : Option String) (ty : String) (co : Option String) (w : World)
    → is_ok (check_request p ty co w).0 ≡ true
    → (ty ≡ "note" → p ≢ none) × (ty ≡ "folder" → co ≡ none)
unfolding check_request
check_request_sound p ty co w h =
    (ground (arith, eq_iff ty "note"), ground (arith, eq_iff ty "folder"))

store_query :
    (c : String) (p : Option String) (ty ti : String) (co : Option String) (w : World)
    → is_ok (store c p ty ti co w).0 ≡ true
    → (row : AssetRow) × (Assets.create_asset c p ty ti co w.db
        ≡ some (row, (store c p ty ti co w).1.db))
unfolding store Repository.create exec publish
store_query c p ty ti co w h = elim (Option-cases (Assets.create_asset c p ty ti co w.db)) [
  | inl refused ↦ absurd (ground arith)
  | inr (a, done) ↦ (a.0, ground arith)
]

store-Leaves :
    (c : String) (p : Option String) (ty ti : String) (co : Option String) (w : World)
    → Leaves w (store c p ty ti co w)
unfolding store Repository.create exec publish
store-Leaves c p ty ti co w = ground arith

-- The servers when a creation comes to its statement.
abbrev checked : String → Option String → String → Option String → World → World
checked c p ty co w = (check_parent p c (check_request p ty co w).1).1

-- A creation that succeeds has passed its checks, and is one statement.
pub create_cases :
    (c : String) (p : Option String) (ty ti : String) (co : Option String) (w : World)
    → is_ok (create c p ty ti co w).0 ≡ true
    → (is_ok (check_request p ty co w).0 ≡ true)
      × (is_ok (check_parent p c w).0 ≡ true)
      × (is_ok (store c p ty ti co (checked c p ty co w)).0 ≡ true)
      × ((create c p ty ti co w).1 ≡ (store c p ty ti co (checked c p ty co w)).1)
unfolding create
create_cases c p ty ti co w h = ground (arith, state-check_request p ty co w)

pub create-Leaves :
    (c : String) (p : Option String) (ty ti : String) (co : Option String) (w : World)
    → Leaves w (create c p ty ti co w)
unfolding create
create-Leaves c p ty ti co w = ground (
  arith,
  state-check_request p ty co w,
  db-check_parent p c w,
  store-Leaves c p ty ti co (checked c p ty co w),
)

-- The parent that a creation names is a folder.
parent_of :
    (p : Option String) (q c : String) (w : World)
    → p ≡ some q
    → is_ok (check_parent p c w).0 ≡ true
    → type_of (Assets.get_asset_by_id q w.db) ≡ some "folder"
parent_of none q c w is h = cc
parent_of (some p) q c w is h = ground (arith, check_parent_sound p c w)

pub create-IsTree :
    (c : String) (p : Option String) (ty ti : String) (co : Option String) (w : World)
    → IsTree w.db
    → IsTree (create c p ty ti co w).1.db
create-IsTree c p ty ti co w t = elim (Bool-cases (is_ok (create c p ty ti co w).0)) [
  | inr bad ↦ IsTree-of_same w.db _ (λ a. ground (arith, create-Leaves c p ty ti co w)) t
  | inl good ↦
      let (req, par, put, end) = create_cases c p ty ti co w good in
      let (row, made) = store_query c p ty ti co (checked c p ty co w) put in
      let same : (checked c p ty co w).db ≡ w.db =
        ground (arith, state-check_request p ty co w, db-check_parent p c w) in
      let t' : IsTree (checked c p ty co w).db = rw same t in
      let rules = check_request_sound p ty co w req in
      rw end (
        create_asset-IsTree c p ty ti co (checked c p ty co w).db _ row made rules.0 rules.1
          (λ q is. rw same (parent_of p q c w is par)) t')
]

type_found :
    (a : String) (d : Database) (r : AssetRow)
    → Assets.get_asset_by_id a d ≡ some r
    → type_of (Assets.get_asset_by_id a d) ≡ some "folder"
    → r.type ≡ "folder"
type_found a d r there h = cc (there, h)

-- An update that succeeds is one statement.
rewrite_query :
    (x : Asset) (a ti : String) (co : Option String) (w : World)
    → is_ok (rewrite x a ti co w).0 ≡ true
    → (row : AssetRow) × (Assets.update_asset a ti co w.db ≡ some (row, (rewrite x a ti co w).1.db))
unfolding rewrite Repository.update exec publish redis_del
rewrite_query x a ti co w h = elim (Option-cases (Assets.update_asset a ti co w.db)) [
  | inl refused ↦ absurd (ground arith)
  | inr (b, done) ↦ (b.0, ground arith)
]

rewrite-Leaves :
    (x : Asset) (a ti : String) (co : Option String) (w : World) → Leaves w (rewrite x a ti co w)
unfolding rewrite Repository.update exec publish redis_del
rewrite-Leaves x a ti co w = ground arith

pub update-Leaves :
    (c a ti : String) (co : Option String) (w : World) → Leaves w (update c a ti co w)
unfolding update
update-Leaves c a ti co w = elim (Result-cases (Repository.get_by_id a w).0) [
  | inl (x, found) ↦ ground (
    arith,
    db-get_by_id a w,
    db-check_update x co c (read_first a w),
    rewrite-Leaves x a ti co (check_update x co c (read_first a w)).1,
  )
  | inr (e, failed) ↦ ground (arith, db-get_by_id a w)
]

pub update-IsTree :
    (c a ti : String) (co : Option String) (w : World)
    → IsTree w.db
    → IsTree (update c a ti co w).1.db
update-IsTree c a ti co w t = elim (Bool-cases (is_ok (update c a ti co w).0)) [
  | inr bad ↦ IsTree-of_same w.db _ (λ b. ground (arith, update-Leaves c a ti co w)) t
  | inl good ↦
      let (x, found, allowed, put, end) = update_cases c a ti co w good in
      let w' : World = (check_update x co c (read_first a w)).1 in
      let (row, made) = rewrite_query x a ti co w' put in
      let same : w'.db ≡ w.db = db-check_update x co c (read_first a w) ∙ db-get_by_id a w in
      let (r, there, is, _) = get_by_id_sound a w x found in
      let t' : IsTree w'.db = rw same t in
      rw end (
        update_asset-IsTree a ti co w'.db _ row made
          (λ folder.
            (check_update_sound x co c (read_first a w) allowed).1
              (ap (λ (y : Asset). y.type) is ∙ type_found a w.db r there (rw same at folder)))
          t')
]
