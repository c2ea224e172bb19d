-- ===== src/Core/Db/Cascade.antt =====
-- The cascade of a deletion: the ids that it removes are closed under children, so no row is left
-- whose parent is gone.
use seta_training.Prelude.{
  ℕ, zero, suc, ◌+◌, ◌≤◌, ◌<◌, String, true, not, List, [], ◌∷◌, ◌++◌, ◌≡◌, ◌≢◌, refl, ◌&&◌, ◌||◌,
  exists, length, arith, eq_refl, eq_iff, Option, none, some, List-cases, if◌then◌else◌, Bool-cases,
  inl, inr,
}
use seta_training.Core.Db.Tables.{AssetRow, Database}
use seta_training.Core.Db.Assets.{
  contains, has_parent_in, orphan_ids, close_under_children, cascade_ids,
}

-- The rows that are not yet among the removed ones.
pending : List String → List AssetRow → ℕ
pending gone [] = 0
pending gone (r ∷ rs) = (if contains gone r.asset_id then 0 else 1) + pending gone rs

contains-append :
    (xs ys : List String) (a : String) → contains (xs ++ ys) a ≡ (contains xs a || contains ys a)
unfolding contains exists
contains-append [] ys a = refl
contains-append (x ∷ xs) ys a = ground (arith, contains-append xs ys a)

pending-le :
    (ks gone : List String) (rs : List AssetRow) → pending (ks ++ gone) rs ≤ pending gone rs
unfolding pending
pending-le ks gone [] = omega arith
pending-le ks gone (r ∷ rs) =
    ground (arith, pending-le ks gone rs, contains-append ks gone r.asset_id)

contains_head : (a : String) (xs : List String) → contains (a ∷ xs) a ≡ true
unfolding contains exists
contains_head a xs = rw eq_refl

-- A round that finds a row below the removed ones leaves fewer rows pending.
pending-lt :
    (ks gone : List String) (rs : List AssetRow)
    → ((a : String) → contains (orphan_ids gone rs) a ≡ true → contains ks a ≡ true)
    → orphan_ids gone rs ≢ []
    → pending (ks ++ gone) rs < pending gone rs
unfolding pending orphan_ids
pending-lt ks gone [] sub h = absurd (h refl)
pending-lt ks gone (r ∷ rs) sub h =
    elim (Bool-cases (has_parent_in gone r.parent_id && not (contains gone r.asset_id))) [
      | inl here ↦ ground (
        arith,
        pending-le ks gone rs,
        contains-append ks gone r.asset_id,
        sub r.asset_id (rw here (contains_head r.asset_id (orphan_ids gone rs))),
      )
      | inr later ↦ ground (
        arith,
        contains-append ks gone r.asset_id,
        pending-lt ks gone rs (rw later at sub) (rw later at h),
      )
    ]

orphan_ids_nil :
    (gone : List String) (rs : List AssetRow) → pending gone rs ≡ 0 → orphan_ids gone rs ≡ []
unfolding pending orphan_ids
orphan_ids_nil gone [] h = refl
orphan_ids_nil gone (r ∷ rs) h = ground (arith, orphan_ids_nil gone rs)

close_more :
    (fuel : ℕ) (gone : List String) (rows : List AssetRow) {x : String} {xs : List String}
    → orphan_ids gone rows ≡ x ∷ xs
    → close_under_children (suc fuel) gone rows
      ≡ close_under_children fuel (orphan_ids gone rows ++ gone) rows
unfolding close_under_children
close_more fuel gone rows h = ground arith

-- With fuel for the pending rows, nothing is left below what is removed.
close_under_children-closed :
    (fuel : ℕ) (gone : List String) (rows : List AssetRow)
    → pending gone rows ≤ fuel
    → orphan_ids (close_under_children fuel gone rows) rows ≡ []
unfolding close_under_children
close_under_children-closed zero gone rows h = orphan_ids_nil gone rows (omega arith)
close_under_children-closed (suc fuel) gone rows h = elim (List-cases (orphan_ids gone rows)) [
  | inl none_left ↦ rw (none_left, close_under_children) none_left
  | inr (x, xs, some_left) ↦ rw (close_more fuel gone rows some_left) (
      close_under_children-closed fuel (orphan_ids gone rows ++ gone) rows
        (omega (arith, pending-lt (orphan_ids gone rows) gone rows (λ a k. k) (cc))))
]

pending-le-length : (gone : List String) (rs : List AssetRow) → pending gone rs ≤ length rs
unfolding pending
pending-le-length gone [] = omega arith
pending-le-length gone (r ∷ rs) = ground (arith, pending-le-length gone rs)

-- The ids that the deletion of an asset removes are closed under children: rounds as many as the
-- table has rows are enough for the cascade, and no row that is left has a removed parent.
pub cascade_ids-closed : (a : String) (d : Database) → orphan_ids (cascade_ids a d) d.assets ≡ []
unfolding cascade_ids
cascade_ids-closed a d =
    close_under_children-closed (length d.assets) (a ∷ []) d.assets
      (pending-le-length (a ∷ []) d.assets)

-- Ids among which those of the children of all their rows are.
module _ (ids : List String) where
  has_parent_in-within :
      (gone : List String) (p : Option String)
      → ((b : String) → contains gone b ≡ true → contains ids b ≡ true)
      → has_parent_in gone p ≡ true
      → has_parent_in ids p ≡ true
  has_parent_in-within gone (some p) sub h = sub p h
  has_parent_in-within gone none sub h = absurd (ground arith)

  orphan_ids-within :
      (gone : List String) (rows : List AssetRow)
      → orphan_ids ids rows ≡ []
      → ((b : String) → contains gone b ≡ true → contains ids b ≡ true)
      → (b : String) → contains (orphan_ids gone rows) b ≡ true
      → contains ids b ≡ true
  unfolding orphan_ids contains exists
  orphan_ids-within gone [] closed sub b h = absurd (ground arith)
  orphan_ids-within gone (r ∷ rs) closed sub b h =
      let none_else : orphan_ids ids rs ≡ [] = ground arith in
      ground (
        arith,
        has_parent_in-within gone r.parent_id sub,
        eq_iff r.asset_id b,
        orphan_ids-within gone rs none_else sub b,
      )

  close_under_children-within :
      (fuel : ℕ) (gone : List String) (rows : List AssetRow)
      → orphan_ids ids rows ≡ []
      → ((b : String) → contains gone b ≡ true → contains ids b ≡ true)
      → (b : String) → contains (close_under_children fuel gone rows) b ≡ true
      → contains ids b ≡ true
  unfolding close_under_children
  close_under_children-within zero gone rows closed sub b h = sub b h
  close_under_children-within (suc fuel) gone rows closed sub b h =
      elim (List-cases (orphan_ids gone rows)) [
        | inl none_left ↦ ground (arith, sub b)
        | inr (x, xs, some_left) ↦
            close_under_children-within fuel (orphan_ids gone rows ++ gone) rows closed
              (λ i k. ground (
                arith,
                contains-append (orphan_ids gone rows) gone i,
                sub i,
                orphan_ids-within gone rows closed sub i,
              ))
              b (rw (close_more fuel gone rows some_left) at h)
      ]

-- The cascade stays within ids below which nothing else is.
pub cascade_ids-within :
    (a : String) (ids : List String) (d : Database) (b : String)
    → orphan_ids (a ∷ ids) d.assets ≡ []
    → contains (cascade_ids a d) b ≡ true
    → contains (a ∷ ids) b ≡ true
unfolding cascade_ids contains exists
cascade_ids-within a ids d b closed h =
    close_under_children-within (a ∷ ids) (length d.assets) (a ∷ []) d.assets closed
      (λ i k. ground arith) b h
