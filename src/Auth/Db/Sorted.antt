-- ===== src/Auth/Db/Sorted.antt =====
-- The rows in the order of their ids, for rows of which no two have one id.
use seta_training.Prelude.{
  String, Bool, true, false, List, [], ◌∷◌, ◌≡◌, ◌≢◌, refl, arith, inl, inr, Bool-cases, select,
  All,
}
use seta_training.Auth.Db.Order.{before, insert_by, sort_by}
use seta_training.Auth.Db.Texts.{before_trans, not-before_self, before_antisym}

module _ {A : Type 0} (key : A → String) where
  -- Every row comes before those behind it.
  abbrev pub Ascending : List A → Type 0
  Ascending [] = Unit
  Ascending (x ∷ xs) = All (λ y. before (key x) (key y) ≡ true) xs × Ascending xs

  -- No row has the id of one behind it.
  abbrev pub Distinct : List A → Type 0
  Distinct [] = Unit
  Distinct (x ∷ xs) = All (λ y. key x ≢ key y) xs × Distinct xs

  All-map : {P Q : A → Type 0} (xs : List A) → ((x : A) → P x → Q x) → All P xs → All Q xs
  All-map [] f h = tt
  All-map (x ∷ xs) f h = (f x h.0, All-map xs f h.1)

  All-insert : (P : A → Type 0) (a : A) (xs : List A) → P a → All P xs → All P (insert_by key a xs)
  unfolding insert_by
  All-insert P a [] p h = (p, tt)
  All-insert P a (x ∷ xs) p h = elim (Bool-cases (before (key x) (key a))) [
    | inl later ↦ rw later (h.0, All-insert P a xs p h.1)
    | inr first ↦ rw first (p, h)
  ]

  pub All-sort : (P : A → Type 0) (xs : List A) → All P xs → All P (sort_by key xs)
  unfolding sort_by
  All-sort P [] h = tt
  All-sort P (x ∷ xs) h = All-insert P x (sort_by key xs) h.0 (All-sort P xs h.1)

  -- The row goes in front of one that it does not come behind.
  before_head :
      (a x : A) → key a ≢ key x → before (key x) (key a) ≡ false → before (key a) (key x) ≡ true
  before_head a x differ h = elim (Bool-cases (before (key a) (key x))) [
    | inl first ↦ first
    | inr not_first ↦ absurd (differ (before_antisym (key a) (key x) not_first h))
  ]

  insert-Ascending :
      (a : A) (xs : List A)
      → All (λ y. key a ≢ key y) xs
      → Ascending xs
      → Ascending (insert_by key a xs)
  unfolding insert_by
  insert-Ascending a [] differ h = (tt, tt)
  insert-Ascending a (x ∷ xs) differ h = elim (Bool-cases (before (key x) (key a))) [
    | inl later ↦ rw later (All-insert _ a xs later h.0, insert-Ascending a xs differ.1 h.1)
    | inr first ↦
        let lt = before_head a x differ.0 first in
        rw first ((lt, All-map xs (λ y p. before_trans (key a) (key x) (key y) lt p) h.0), h)
  ]

  pub sort-Ascending : (xs : List A) → Distinct xs → Ascending (sort_by key xs)
  unfolding sort_by
  sort-Ascending [] h = tt
  sort-Ascending (x ∷ xs) h =
      insert-Ascending x (sort_by key xs) (All-sort _ xs h.0) (sort-Ascending xs h.1)

  -- A row in front of all is inserted in front.
  insert_front :
      (a : A) (xs : List A)
      → All (λ y. before (key a) (key y) ≡ true) xs
      → insert_by key a xs ≡ a ∷ xs
  unfolding insert_by
  insert_front a [] h = refl
  insert_front a (x ∷ xs) h = elim (Bool-cases (before (key x) (key a))) [
    | inl later ↦ absurd (
        ground (
          arith,
          later,
          h.0,
          before_trans (key a) (key x) (key a) h.0 later,
          not-before_self (key a),
        ))
    | inr first ↦ rw first refl
  ]

  All-select : (P : A → Type 0) (p : A → Bool) (xs : List A) → All P xs → All P (select p xs)
  unfolding select
  All-select P p [] h = tt
  All-select P p (x ∷ xs) h = elim (Bool-cases (p x)) [
    | inl keep ↦ rw keep (h.0, All-select P p xs h.1)
    | inr drop ↦ rw drop (All-select P p xs h.1)
  ]

  select-insert_keep :
      (p : A → Bool) (a : A) (xs : List A)
      → p a ≡ true
      → All (λ y. key a ≢ key y) xs
      → Ascending xs
      → select p (insert_by key a xs) ≡ insert_by key a (select p xs)
  unfolding select insert_by
  select-insert_keep p a [] keep differ h = rw keep refl
  select-insert_keep p a (x ∷ xs) keep differ h = elim (Bool-cases (before (key x) (key a))) [
    | inl later ↦ ground (arith, later, keep, select-insert_keep p a xs keep differ.1 h.1)
    | inr first ↦
        let lt = before_head a x differ.0 first in
        let all : All (λ y. before (key a) (key y) ≡ true) (x ∷ xs) =
          (lt, All-map xs (λ y q. before_trans (key a) (key x) (key y) lt q) h.0) in
        ground (arith, first, keep, insert_front a (select p xs) (All-select _ p xs all.1))
  ]

  select-insert_drop :
      (p : A → Bool) (a : A) (xs : List A)
      → p a ≡ false
      → select p (insert_by key a xs) ≡ select p xs
  unfolding select insert_by
  select-insert_drop p a [] drop = rw drop refl
  select-insert_drop p a (x ∷ xs) drop = ground (arith, select-insert_drop p a xs drop)

  -- Choosing rows and ordering them commute.
  pub sort-select :
      (p : A → Bool) (xs : List A)
      → Distinct xs
      → sort_by key (select p xs) ≡ select p (sort_by key xs)
  unfolding sort_by select
  sort-select p [] h = refl
  sort-select p (x ∷ xs) h = elim (Bool-cases (p x)) [
    | inl keep ↦ ground (
      arith,
      keep,
      sort-select p xs h.1,
      select-insert_keep p x (sort_by key xs) keep (All-sort _ xs h.0) (sort-Ascending xs h.1),
    )
    | inr drop ↦
        ground (arith, drop, sort-select p xs h.1, select-insert_drop p x (sort_by key xs) drop)
  ]
