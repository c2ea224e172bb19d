-- ===== src/Prelude/Effects.antt =====
-- A Go function that reads and writes shared state and returns `(value, error)`. What was written
-- before an error stays written, so the state comes back beside the error too.
use mathlib.Core.Logic.{◌⊎◌, inl, inr}
use mathlib.Core.Path.{◌≡◌, refl}
use mathlib.Core.Bool.{Bool, true, false}
use mathlib.Core.List.{List, [], ◌∷◌}

pub data Result (E A : Type 0) : Type 0 where
  ok : A → Result E A
  err : E → Result E A

abbrev pub is_ok : {E A : Type 0} → Result E A → Bool
is_ok (ok _) = true
is_ok (err _) = false

abbrev pub Exec : Type 0 → Type 0 → Type 0 → Type 0
Exec S E A = S → Result E A × S

module _ {S E A : Type 0} where
  abbrev pub pure : A → Exec S E A
  pure a s = (ok a, s)

  abbrev pub raise : E → Exec S E A
  raise e s = (err e, s)

  -- A call whose error the caller looks at.
  abbrev pub attempt : Exec S E A → Exec S E (Result E A)
  attempt m s = let (r, s') = m s in (ok r, s')

module _ {S E A B : Type 0} where
  abbrev pub continue : Result E A → (A → Exec S E B) → Exec S E B
  continue (ok a) f s = f a s
  continue (err e) f s = (err e, s)

  infixl 5 ◌>>=◌ ◌>>◌
  abbrev pub ◌>>=◌ : Exec S E A → (A → Exec S E B) → Exec S E B
  ◌>>=◌ m f s = let (r, s') = m s in continue r f s'

  abbrev pub ◌>>◌ : Exec S E A → Exec S E B → Exec S E B
  m >> n = m >>= λ _. n

-- `if c { return err }`
abbrev pub raise_if : {S E : Type 0} → Bool → E → Exec S E (Unit {0})
raise_if true e s = (err e, s)
raise_if false e s = (ok tt, s)

-- The outages of the servers that a service calls: whether each call to come fails. After the last
-- entry every call succeeds.
unfoldable pub is_down : List Bool → Bool
is_down [] = false
is_down (b ∷ _) = b

unfoldable pub later : List Bool → List Bool
later [] = []
later (_ ∷ bs) = bs

module _ {S E A : Type 0} where
  state-continue : (r : Result E A) (s : S) → (continue r (λ _. pure tt) s).1 ≡ s
  state-continue (ok a) s = refl
  state-continue (err e) s = refl

  -- Dropping the result of a call changes nothing of the state.
  pub state-drop : (m : Exec S E A) (s : S) → ((m >> pure tt) s).1 ≡ (m s).1
  state-drop m s = let (r, s') = m s in state-continue r s'

pub Result-cases :
    {E A : Type 0} (r : Result E A) → ((a : A) × (r ≡ ok a)) ⊎ ((e : E) × (r ≡ err e))
Result-cases (ok a) = inl (a, refl)
Result-cases (err e) = inr (e, refl)
