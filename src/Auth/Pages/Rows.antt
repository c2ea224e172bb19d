-- ===== src/Auth/Pages/Rows.antt =====
-- The rows of the pages of users, and what stands behind a row.
use seta_training.Prelude.{
  ℕ, zero, suc, String, true, false, some, List, [], ◌∷◌, ◌++◌, ◌==◌, ◌≡◌, ◌⊎◌, refl, ap, ok, arith,
  All, length, equal, select, inl, inr, is_down, later, if◌then◌else◌,
}
use seta_training.Auth.Db
use seta_training.Auth.Db.{Database, User, by_id, take}
use seta_training.Auth.Db.Order.{before, insert_by, sort_by}
use seta_training.Auth.Db.Sorted.{Ascending}
use seta_training.Auth.Db.Texts.{before_trans, not-before_self}
use seta_training.Auth.World.{World, many}
use seta_training.Auth.Users
use seta_training.Auth.Pages.{last_id}

abbrev pub id_of : User → String
id_of u = u.user_id

-- A page that is not full holds all the rows that are left.
pub take_short : (n : ℕ) (xs : List User) → equal (length (take n xs)) n ≡ false → take n xs ≡ xs
unfolding take
take_short n [] h = refl
take_short zero (x ∷ xs) h = absurd (ground arith)
take_short (suc n) (x ∷ xs) h = ap (λ l. x ∷ l) (take_short n xs (ground arith))

-- A full page ends with the row before those that are left.
pub take_full :
    (n : ℕ) (xs : List User)
    → equal (length (take (suc n) xs)) (suc n) ≡ true
    → (ys : List User) × (u : User) × (rest : List User) × (take (suc n) xs ≡ ys ++ u ∷ [])
      × (xs ≡ ys ++ u ∷ rest)
      × (last_id (take (suc n) xs) ≡ u.user_id)
unfolding take last_id
take_full n [] h = absurd (ground arith)
take_full zero (x ∷ []) h = ([], x, [], refl, refl, refl)
take_full zero (x ∷ y ∷ xs) h = ([], x, y ∷ xs, refl, refl, refl)
take_full (suc n) (x ∷ []) h = absurd (ground arith)
take_full (suc n) (x ∷ y ∷ xs) h =
    let (ys, u, rest, page, all, last) = take_full n (y ∷ xs) (ground arith) in
    (x ∷ ys, u, rest, ap (λ l. x ∷ l) page, ap (λ l. x ∷ l) all, last)

pub All-right : (P : User → Type 0) (xs ys : List User) → All P (xs ++ ys) → All P ys
All-right P [] ys h = h
All-right P (x ∷ xs) ys h = All-right P xs ys h.1

select_front :
    (u : User) (xs : List User)
    → All (λ y. before u.user_id y.user_id ≡ true) xs
    → select (λ y. before u.user_id y.user_id) xs ≡ xs
unfolding select
select_front u [] h = refl
select_front u (x ∷ xs) h = ground (arith, h.0, select_front u xs h.1)

-- What comes behind a row of an ascending list is what stands behind it.
pub select_behind :
    (xs : List User) (u : User) (rest : List User)
    → Ascending id_of (xs ++ u ∷ rest)
    → select (λ y. before u.user_id y.user_id) (xs ++ u ∷ rest) ≡ rest
unfolding select
select_behind [] u rest h = ground (arith, not-before_self u.user_id, select_front u rest h.0)
select_behind (x ∷ xs) u rest h =
    let lt = (All-right (λ y. before x.user_id y.user_id ≡ true) xs (u ∷ rest) h.0).0 in
    ground (
      arith,
      select_behind xs u rest h.1,
      lt,
      not-before_self u.user_id,
      before_trans u.user_id x.user_id u.user_id,
    )

-- The id of a row is the canonical text of a UUID, which is not empty.
abbrev pub IsCanonical : Database → User → Type 0
IsCanonical d u = (d.as_uuid u.user_id ≡ some u.user_id) × ((u.user_id == "") ≡ false)

-- The rows behind a cursor: all, if it is empty.
abbrev pub rows_after : String → Database → List User
rows_after cursor d =
    if cursor == "" then by_id d.users else by_id (select (λ u. before cursor u.user_id) d.users)

-- A cursor that the database reads as itself, or none.
abbrev pub IsCursor : String → Database → Type 0
IsCursor cursor d =
    ((cursor == "") ≡ true) ⊎ (((cursor == "") ≡ false) × (d.as_uuid cursor ≡ some cursor))

pub find_page_rows :
    (cursor : String) (limit : ℕ) (w : World)
    → IsCursor cursor w.db
    → w.outages ≡ []
    → (Users.find_page cursor limit w).0 ≡ ok (take limit (rows_after cursor w.db))
unfolding Users.find_page Db.list_users_from_start Db.list_users_with_cursor many is_down
find_page_rows cursor limit w (inl start) up = ground arith
find_page_rows cursor limit w (inr (more, is)) up = ground arith

pub find_page_state :
    (cursor : String) (limit : ℕ) (w : World)
    → w.outages ≡ []
    → ((Users.find_page cursor limit w).1.db ≡ w.db)
      × ((Users.find_page cursor limit w).1.outages ≡ [])
unfolding Users.find_page many is_down later
find_page_state cursor limit w up = (ground arith, ground arith)

abbrev pub counted : World → World
counted w = (Users.count w).1

pub count_state :
    (w : World) → w.outages ≡ [] → ((counted w).db ≡ w.db) × ((counted w).outages ≡ [])
unfolding Users.count many is_down later
count_state w up = (ground arith, ground arith)

pub count_ok : (w : World) → w.outages ≡ [] → (Users.count w).0 ≡ ok (Db.count_users w.db)
unfolding Users.count many is_down
count_ok w up = ground arith

abbrev pub answered : ℕ → String → World → World
answered limit cursor w = (Users.find_page cursor limit (counted w)).1

abbrev pub page_rows : ℕ → String → World → List User
page_rows limit cursor w = take limit (rows_after cursor w.db)

length-insert : (u : User) (us : List User) → length (insert_by id_of u us) ≡ suc (length us)
unfolding insert_by
length-insert u [] = refl
length-insert u (x ∷ us) = ground (arith, length-insert u us)

pub length-by_id : (us : List User) → length (by_id us) ≡ length us
unfolding sort_by
length-by_id [] = refl
length-by_id (u ∷ us) = omega (arith, length-insert u (by_id us), length-by_id us)
