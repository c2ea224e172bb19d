-- ===== src/Auth/Db/Texts.antt =====
-- The order of texts: it is transitive, and of two texts that differ one comes before the other.
use Prim.Native.String.{String, [], ◌∷◌}
use Prim.Native.String.compare
use text.Mathlib.TextPositions.{compare_refl}
use text.Mathlib.TextEquality.{codes_equal}
use seta_training.Prelude.{true, false, ◌≡◌, refl, arith}
use seta_training.Auth.Db.Order.{before}

pub before_trans : (s t u : String) → before s t ≡ true → before t u ≡ true → before s u ≡ true
before_trans s [] [] h k = ground arith
before_trans [] [] (e ∷ u) h k = ground (arith, compare.nil-cons e u)
before_trans (c ∷ s) [] u h k = ground (arith, compare.cons-nil c s)
before_trans s (d ∷ t) [] h k = ground (arith, compare.cons-nil d t)
before_trans [] (d ∷ t) (e ∷ u) h k = ground (arith, compare.nil-cons e u)
before_trans (c ∷ s) (d ∷ t) (e ∷ u) h k = ground (
  arith,
  compare.cons-cons c d s t,
  compare.cons-cons d e t u,
  compare.cons-cons c e s u,
  before_trans s t u,
)

pub not-before_self : (s : String) → before s s ≡ false
not-before_self s = ground (arith, compare_refl s)

-- Neither comes before the other: the texts are one.
pub before_antisym : (s t : String) → before s t ≡ false → before t s ≡ false → s ≡ t
before_antisym [] [] h k = refl
before_antisym [] (d ∷ t) h k = absurd (ground (arith, compare.nil-cons d t))
before_antisym (c ∷ s) [] h k = absurd (ground (arith, compare.nil-cons c s))
before_antisym (c ∷ s) (d ∷ t) h k =
    let head : c ≡ d =
      codes_equal c d (ground (arith, compare.cons-cons c d s t, compare.cons-cons d c t s)) in
    let rest : s ≡ t =
      before_antisym s t (ground (arith, compare.cons-cons c d s t, compare.cons-cons d c t s))
        (ground (arith, compare.cons-cons c d s t, compare.cons-cons d c t s)) in
    λ i. head i ∷ rest i
