-- ===== src/Prelude/Lists.antt =====
-- Tables as lists of rows: the first row, all rows, whether there is a row that meets a test, and
-- the writes of SQL, with the laws that the queries rest on.
use Prim.Native.Nat.{ℕ, suc}
use mathlib.Core.Path.{◌≡◌, refl}
use mathlib.Core.Bool.{Bool, true, false, not, ◌||◌}
use mathlib.Core.Option.{Option, none, some}
use mathlib.Core.Logic.{◌⊎◌, inl, inr}
use mathlib.Core.List.{List, [], ◌∷◌, ◌++◌, map}
use native.Mathlib.Omega.{arith}
use seta_training.Prelude.Tests.{if◌then◌else◌, is_some}

module _ {ℓ} {A : Type ℓ} where
  abbrev pub length : List A → ℕ
  length [] = 0
  length (x ∷ xs) = suc (length xs)

  -- The first row that meets a test.
  unfoldable pub find : (A → Bool) → List A → Option A
  find p [] = none
  find p (x ∷ xs) = if p x then some x else find p xs

  -- `WHERE`: the rows that meet a test.
  unfoldable pub select : (A → Bool) → List A → List A
  select p [] = []
  select p (x ∷ xs) = let rest = select p xs in if p x then x ∷ rest else rest

  -- `EXISTS`
  unfoldable pub exists : (A → Bool) → List A → Bool
  exists p [] = false
  exists p (x ∷ xs) = p x || exists p xs

  -- `INSERT … ON CONFLICT DO UPDATE`: the row that meets the key's test is replaced.
  unfoldable pub upsert : (A → Bool) → A → List A → List A
  upsert p r [] = r ∷ []
  upsert p r (x ∷ xs) = if p x then r ∷ xs else x ∷ upsert p r xs

  abbrev pub map_found : (A → A) → Option A → Option A
  map_found f none = none
  map_found f (some x) = some (f x)

  abbrev pub All {κ} : (A → Type κ) → List A → Type κ
  All P [] = Unit
  All P (x ∷ xs) = P x × All P xs

  pub find-upsert_hit :
      (p q : A → Bool) (r : A) (xs : List A)
      → q r ≡ true
      → ((x : A) → q x ≡ p x)
      → find q (upsert p r xs) ≡ some r
  unfolding find upsert
  find-upsert_hit p q r [] h same = ground arith
  find-upsert_hit p q r (x ∷ xs) h same = ground (arith, same x, find-upsert_hit p q r xs h same)

  pub find-upsert_miss :
      (p q : A → Bool) (r : A) (xs : List A)
      → q r ≡ false
      → ((x : A) → p x ≡ true → q x ≡ false)
      → find q (upsert p r xs) ≡ find q xs
  unfolding find upsert
  find-upsert_miss p q r [] h apart = ground arith
  find-upsert_miss p q r (x ∷ xs) h apart =
      ground (arith, apart x, find-upsert_miss p q r xs h apart)

  pub find-select_keep :
      (p q : A → Bool) (xs : List A)
      → ((x : A) → q x ≡ true → p x ≡ true)
      → find q (select p xs) ≡ find q xs
  unfolding find select
  find-select_keep p q [] keep = refl
  find-select_keep p q (x ∷ xs) keep = ground (arith, keep x, find-select_keep p q xs keep)

  pub find-select_drop :
      (p q : A → Bool) (xs : List A)
      → ((x : A) → q x ≡ true → p x ≡ false)
      → find q (select p xs) ≡ none
  unfolding find select
  find-select_drop p q [] drop = refl
  find-select_drop p q (x ∷ xs) drop = ground (arith, drop x, find-select_drop p q xs drop)

  pub find-append :
      (p : A → Bool) (xs ys : List A)
      → find p (xs ++ ys) ≡ (if is_some (find p xs) then find p xs else find p ys)
  unfolding find
  find-append p [] ys = refl
  find-append p (x ∷ xs) ys = ground (arith, find-append p xs ys)

  pub find_sound : (p : A → Bool) (xs : List A) (x : A) → find p xs ≡ some x → p x ≡ true
  unfolding find
  find_sound p [] x h = cc
  find_sound p (y ∷ xs) x h = ground (arith, find_sound p xs x)

  -- A write that replaces no row and appends none leaves the table.
  pub select_all : (p : A → Bool) (xs : List A) → ((x : A) → p x ≡ true) → select p xs ≡ xs
  unfolding select
  select_all p [] h = refl
  select_all p (x ∷ xs) h = ground (arith, h x, select_all p xs h)

  pub exists-eq-find : (p : A → Bool) (xs : List A) → exists p xs ≡ is_some (find p xs)
  unfolding exists find
  exists-eq-find p [] = refl
  exists-eq-find p (x ∷ xs) = ground (arith, exists-eq-find p xs)

  pub select-not :
      (p : A → Bool) (xs : List A) → length (select p xs) ≡ 0 → select (λ x. not (p x)) xs ≡ xs
  unfolding select
  select-not p [] h = refl
  select-not p (x ∷ xs) h = ground (arith, select-not p xs)

  pub select-upsert_miss :
      (p q : A → Bool) (r : A) (xs : List A)
      → q r ≡ false
      → ((x : A) → p x ≡ true → q x ≡ false)
      → select q (upsert p r xs) ≡ select q xs
  unfolding select upsert
  select-upsert_miss p q r [] h apart = ground arith
  select-upsert_miss p q r (x ∷ xs) h apart =
      ground (arith, apart x, select-upsert_miss p q r xs h apart)

  pub select-select_keep :
      (p q : A → Bool) (xs : List A)
      → ((x : A) → q x ≡ true → p x ≡ true)
      → select q (select p xs) ≡ select q xs
  unfolding select
  select-select_keep p q [] keep = refl
  select-select_keep p q (x ∷ xs) keep = ground (arith, keep x, select-select_keep p q xs keep)

  pub List-cases : (xs : List A) → (xs ≡ []) ⊎ ((x : A) × (rest : List A) × (xs ≡ x ∷ rest))
  List-cases [] = inl refl
  List-cases (x ∷ rest) = inr (x, rest, refl)

  -- A write to the rows that leaves the test alone.
  pub find-map :
      (f : A → A) (p : A → Bool) (xs : List A)
      → ((x : A) → p (f x) ≡ p x)
      → find p (map f xs) ≡ map_found f (find p xs)
  unfolding find
  find-map f p [] h = refl
  find-map f p (x ∷ xs) h = ground (arith, h x, find-map f p xs h)

  -- The rows that a test finds besides those that a write replaces.
  pub exists-upsert :
      (p q : A → Bool) (r : A) (xs : List A)
      → ((x : A) → p x ≡ true → q x ≡ false)
      → p r ≡ true
      → exists q (upsert p r xs) ≡ exists q xs
  unfolding exists upsert
  exists-upsert p q r [] apart h = ground (arith, apart r h)
  exists-upsert p q r (x ∷ xs) apart h =
      ground (arith, apart x, apart r h, exists-upsert p q r xs apart h)
