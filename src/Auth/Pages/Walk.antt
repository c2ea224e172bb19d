-- ===== src/Auth/Pages/Walk.antt =====
-- Following the cursors of the users' pages gives every user once, in the order of the ids.
use seta_training.Prelude.{
  ℕ, zero, suc, ◌<◌, String, true, false, Option, some, List, [], ◌∷◌, ◌++◌, map, ◌==◌, ◌≡◌, refl,
  sym, ap, ◌∙◌, ok, arith, All, length, equal, select, inl, inr, Bool-cases, if◌then◌else◌,
}
use mathlib.Core.List.{append_assoc, map-append}
use seta_training.Core.Asset.Handler.{Query, read_limit}
use seta_training.Auth.Db.{Database, User, by_id, take}
use seta_training.Auth.Db.Order.{before}
use seta_training.Auth.Db.Sorted.{Ascending, Distinct, All-sort, sort-Ascending, sort-select}
use seta_training.Auth.World.{World}
use seta_training.Auth.Users
use seta_training.Auth.Pages
use seta_training.Auth.Pages.{to_response, UserResponse, last_id, next_cursor, list_users, walk}
use seta_training.Auth.Pages.Rows.{
  id_of, take_short, take_full, All-right, select_behind, IsCanonical, rows_after, IsCursor,
  find_page_rows, find_page_state, counted, count_state, count_ok, answered, page_rows,
  length-by_id,
}

module _ (limit_str : Query) (limit : ℕ) (asked : read_limit limit_str ≡ some limit)
    (cursor : String) (w : World) (good : IsCursor cursor w.db) (up : w.outages ≡ []) where
  good_later : IsCursor cursor (counted w).db
  good_later = rw (count_state w up).0 good

  page_found : (Users.find_page cursor limit (counted w)).0 ≡ ok (page_rows limit cursor w)
  page_found =
      find_page_rows cursor limit (counted w) good_later (count_state w up).1
      ∙ ap (λ (d : Database). ok (take limit (rows_after cursor d))) (count_state w up).0

  -- What a page leads to in the walk.
  walk_step :
      (fuel : ℕ)
      → walk (suc fuel) limit_str cursor w ≡ (
          if next_cursor (page_rows limit cursor w) limit == ""
          then some (map to_response (page_rows limit cursor w))
          else Pages.joined (map to_response (page_rows limit cursor w)) (
              walk fuel limit_str
                (next_cursor (page_rows limit cursor w) limit)
                (answered limit cursor w)))
  unfolding walk list_users Users.list_page
  walk_step fuel = ground (arith, count_ok w up, page_found, asked)

length_behind :
    (ys : List User) (u : User) (rest : List User) → length rest < length (ys ++ u ∷ rest)
length_behind [] u rest = omega arith
length_behind (y ∷ ys) u rest = omega (arith, length_behind ys u rest)

next_cursor_full :
    (users : List User) (n : ℕ)
    → equal (length users) n ≡ true
    → next_cursor users n ≡ last_id users
unfolding next_cursor
next_cursor_full users n h = rw h refl

next_cursor_short :
    (users : List User) (n : ℕ) → equal (length users) n ≡ false → next_cursor users n ≡ ""
unfolding next_cursor
next_cursor_short users n h = rw h refl

-- The pages are glued as the rows are.
joined_rows :
    (ys : List User) (u : User) (rest : List User)
    → Pages.joined (map to_response (ys ++ u ∷ [])) (some (map to_response rest))
      ≡ some (map to_response (ys ++ u ∷ rest))
joined_rows ys u rest = simp (map-append, append_assoc)

-- A full page and what the walk finds behind it.
glue :
    (page rest ys behind : List User) (u : User) (cursor : String)
    (walked : Option (List UserResponse))
    → page ≡ ys ++ u ∷ []
    → rest ≡ ys ++ u ∷ behind
    → (cursor == "") ≡ false
    → walked ≡ some (map to_response behind)
    → (if cursor == ""
        then some (map to_response page)
        else Pages.joined (map to_response page) walked)
      ≡ some (map to_response rest)
glue page rest ys behind u cursor walked page_is rest_is more is =
    rw (page_is, rest_is, more, is) (joined_rows ys u behind)

-- The handler lets no page be empty.
read_limit_pos : (q : Query) → read_limit q ≡ some 0 → ⊥
read_limit_pos q h = ground arith

module _ (limit_str : Query) (n : ℕ) (asked : read_limit limit_str ≡ some (suc n)) (d : Database)
    (distinct : Distinct id_of d.users) (canonical : All (IsCanonical d) d.users) where
  -- What is behind a row of the ordered users.
  rows_after_row :
      (pre : List User) (u : User) (rest : List User)
      → by_id d.users ≡ pre ++ u ∷ rest
      → IsCanonical d u × (rows_after u.user_id d ≡ rest)
  rows_after_row pre u rest split =
      let all = rw split at (All-sort id_of (IsCanonical d) d.users canonical) in
      let is : IsCanonical d u = (All-right (IsCanonical d) pre (u ∷ rest) all).0 in
      let ascending : Ascending id_of (pre ++ u ∷ rest) =
        rw split at (sort-Ascending id_of d.users distinct) in
      let behind : by_id (select (λ y. before u.user_id y.user_id) d.users) ≡ rest =
        sort-select id_of (λ y. before u.user_id y.user_id) d.users distinct
        ∙ ap (select (λ y. before u.user_id y.user_id)) split
        ∙ select_behind pre u rest ascending in
      (is, rw is.1 behind)

  walk_from :
      (fuel : ℕ) (cursor : String) (pre rest : List User) (w : World)
      → w.db ≡ d
      → w.outages ≡ []
      → IsCursor cursor d
      → rows_after cursor d ≡ rest
      → by_id d.users ≡ pre ++ rest
      → length rest < fuel
      → walk fuel limit_str cursor w ≡ some (map to_response rest)
  walk_from zero cursor pre rest w same up good rows split enough = absurd (omega arith)
  walk_from (suc fuel) cursor pre rest w same up good rows split enough =
      let good' : IsCursor cursor w.db = rw same good in
      let page : page_rows (suc n) cursor w ≡ take (suc n) rest =
        rw same (ap (take (suc n)) rows) in
      let step = rw page at (walk_step limit_str (suc n) asked cursor w good' up fuel) in
      let w' : World = answered (suc n) cursor w in
      let counted_state = count_state w up in
      let end = find_page_state cursor (suc n) (counted w) counted_state.1 in
      elim (Bool-cases (equal (length (take (suc n) rest)) (suc n))) [
        | inr short ↦
            step
            ∙ rw
                (next_cursor_short (take (suc n) rest) (suc n) short, take_short (suc n) rest short)
                refl
        | inl full ↦
            let (ys, u, behind, page_is, rest_is, last) = take_full n rest full in
            let split' : by_id d.users ≡ (pre ++ ys) ++ u ∷ behind =
              split ∙ ap (λ l. pre ++ l) rest_is ∙ sym (append_assoc pre ys (u ∷ behind)) in
            let (is, rows') = rows_after_row (pre ++ ys) u behind split' in
            let next : next_cursor (take (suc n) rest) (suc n) ≡ u.user_id =
              next_cursor_full (take (suc n) rest) (suc n) full ∙ last in
            let more =
              walk_from fuel u.user_id ((pre ++ ys) ++ u ∷ []) behind w'
                (end.0 ∙ counted_state.0 ∙ same) end.1 (inr (is.1, is.0)) rows'
                (split' ∙ sym (append_assoc (pre ++ ys) (u ∷ []) behind))
                (omega (arith, length_behind ys u behind, ap length rest_is)) in
            step
            ∙ glue (take (suc n) rest) rest ys behind u (next_cursor (take (suc n) rest) (suc n))
                (walk fuel limit_str (next_cursor (take (suc n) rest) (suc n)) w') page_is rest_is
                (ap (λ c. c == "") next ∙ is.1) (ap (λ c. walk fuel limit_str c w') next ∙ more)
      ]

-- A client that follows the cursors of the users' pages from the start, while no call fails, gets every
-- user once, in the order of the ids, in at most one request more than there are users; the ids are
-- to be distinct, and the canonical texts of UUIDs.
pub walk-eq-users :
    (limit_str : Query) (limit : ℕ) (w : World)
    → read_limit limit_str ≡ some limit
    → Distinct id_of w.db.users
    → All (IsCanonical w.db) w.db.users
    → w.outages ≡ []
    → walk (suc (length w.db.users)) limit_str "" w ≡ some (map to_response (by_id w.db.users))
walk-eq-users limit_str zero w asked distinct canonical up = absurd (read_limit_pos limit_str asked)
walk-eq-users limit_str (suc n) w asked distinct canonical up =
    walk_from limit_str n asked w.db distinct canonical (suc (length w.db.users)) "" []
      (by_id w.db.users) w refl up (inl refl) refl refl (omega (arith, length-by_id w.db.users))
