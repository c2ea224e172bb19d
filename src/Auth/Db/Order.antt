-- ===== src/Auth/Db/Order.antt =====
-- The order of UUIDs, which is that of their canonical texts, and the rows in that order.
use Prim.Native.String.{compare}
use text.Mathlib.Text.{is_lt}
use seta_training.Prelude.{String, Bool, List, [], ◌∷◌, if◌then◌else◌}

abbrev pub before : String → String → Bool
before s t = is_lt (compare s t)

module _ {A : Type 0} (key : A → String) where
  unfoldable pub insert_by : A → List A → List A
  insert_by a [] = a ∷ []
  insert_by a (x ∷ xs) =
      let rest = insert_by a xs in if before (key x) (key a) then x ∷ rest else a ∷ x ∷ xs

  unfoldable pub sort_by : List A → List A
  unfolding insert_by
  sort_by [] = []
  sort_by (x ∷ xs) = insert_by x (sort_by xs)
