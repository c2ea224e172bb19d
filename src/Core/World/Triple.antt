-- ===== src/Core/World/Triple.antt =====
-- Triples: what an action of core-service makes of the servers, with its result and with an error.
use seta_training.Prelude.{
  Bool, true, false, Result, ok, err, pure, raise, attempt, raise_if, continue, ◌>>=◌,
  if◌then◌else◌,
}
use seta_training.Core.World.State.{Error, World, Action, or_missing, renamed, no_rows}

-- What holds of the outcome of an action.
abbrev pub Outcome :
    {A : Type 0} → (A → World → Type 0) → (World → Type 0) → Result Error A × World → Type 0
Outcome Q R (ok a, w) = Q a w
Outcome Q R (err e, w) = R w

pub record Triple {A : Type 0} (P : World → Type 0) (m : Action A) (Q : A → World → Type 0)
    (R : World → Type 0) : Type 0 where
  pub at : (w : World) → P w → Outcome Q R (m w)

-- A triple with the same condition before and after, whatever the outcome.
abbrev pub Preserves : {A : Type 0} → (World → Type 0) → Action A → Type 0
Preserves P m = Triple P m (λ a. P) P

module _ {A : Type 0} {Q : A → World → Type 0} {R : World → Type 0} where
  pub Triple-if :
      (b : Bool) (m n : Action A) (P : World → Type 0)
      → Triple P m Q R
      → Triple P n Q R
      → Triple P (if b then m else n) Q R
  Triple-if true m n P hm hn = hm
  Triple-if false m n P hm hn = hn

module _ {A : Type 0} (P : World → Type 0) (m : Action A) (Q Q' : A → World → Type 0)
    (R R' : World → Type 0) where
  Outcome-wider :
      (r : Result Error A) (w : World)
      → ((a : A) (v : World) → Q a v → Q' a v)
      → ((v : World) → R v → R' v)
      → Outcome Q R (r, w)
      → Outcome Q' R' (r, w)
  Outcome-wider (ok a) w f g h = f a w h
  Outcome-wider (err e) w f g h = g w h

  -- Less is said of the outcome.
  pub Triple-weaken :
      ((a : A) (v : World) → Q a v → Q' a v)
      → ((v : World) → R v → R' v)
      → Triple P m Q R
      → Triple P m Q' R'
  Triple-weaken f g t = record { at = λ w h. let (r, v) = m w in Outcome-wider r v f g (t.at w h) }

-- More is known before.
pub Triple-before :
    {A : Type 0} {P P' : World → Type 0} {m : Action A} {Q : A → World → Type 0}
    {R : World → Type 0}
    → ((v : World) → P' v → P v)
    → Triple P m Q R
    → Triple P' m Q R
Triple-before f t = record { at = λ w h. t.at w (f w h) }

module _ {A B : Type 0} (Q : A → World → Type 0) (S : B → World → Type 0) (R : World → Type 0) where
  Outcome-continue :
      (r : Result Error A) (f : A → Action B) (w : World)
      → ((a : A) → Triple (Q a) (f a) S R)
      → Outcome Q R (r, w)
      → Outcome S R (continue r f w)
  Outcome-continue (ok a) f w tf h = (tf a).at w h
  Outcome-continue (err e) f w tf h = h

  -- One action after the other.
  pub Triple-bind :
      (P : World → Type 0) (m : Action A) (f : A → Action B)
      → Triple P m Q R
      → ((a : A) → Triple (Q a) (f a) S R)
      → Triple P (m >>= f) S R
  Triple-bind P m f tm tf = record {
    at = λ w h. let (r, v) = m w in Outcome-continue r f v tf (tm.at w h);
  }

module _ {A : Type 0} (Q : A → World → Type 0) (R : World → Type 0) where
  Outcome-renamed :
      (e : Error) (r : Result Error A) (w : World)
      → Outcome Q R (r, w)
      → Outcome Q R (renamed e r, w)
  Outcome-renamed e (ok a) w h = h
  Outcome-renamed e (err no_rows) w h = h
  Outcome-renamed e (err other) w h = h

  pub Triple-or_missing :
      (P : World → Type 0) (e : Error) (m : Action A)
      → Triple P m Q R
      → Triple P (or_missing e m) Q R
  Triple-or_missing P e m t = record {
    at = λ w h. let (r, v) = m w in Outcome-renamed e r v (t.at w h);
  }

module _ {A : Type 0} (P : World → Type 0) where
  Outcome-same : (r : Result Error A) (w : World) → Outcome (λ (a : A). P) P (r, w) → P w
  Outcome-same (ok a) w h = h
  Outcome-same (err e) w h = h

  -- The condition after an action, whatever its outcome.
  pub Triple-state :
      {P' : World → Type 0} (m : Action A) → Triple P' m (λ a. P) P → (w : World) → P' w → P (m w).1
  Triple-state m t w h = let (r, v) = m w in Outcome-same r v (t.at w h)

  -- The condition after an action that keeps it.
  pub Preserves-state : (m : Action A) → Preserves P m → (w : World) → P w → P (m w).1
  Preserves-state m t w h = Triple-state m t w h

  pub Preserves-attempt : (m : Action A) → Preserves P m → Preserves P (attempt m)
  Preserves-attempt m t = record { at = λ w h. let (r, v) = m w in Outcome-same r v (t.at w h) }

pub Preserves-raise_if : (P : World → Type 0) (b : Bool) (e : Error) → Preserves P (raise_if b e)
Preserves-raise_if P true e = record { at = λ w h. h }
Preserves-raise_if P false e = record { at = λ w h. h }

module _ (P : World → Type 0) {A : Type 0} where
  pub Preserves-pure : (a : A) → Preserves P (pure {S = World} {E = Error} a)
  Preserves-pure a = record { at = λ w h. h }

  pub Preserves-raise : (e : Error) → Preserves P (raise {S = World} {A = A} e)
  Preserves-raise e = record { at = λ w h. h }

  pub Preserves-or_missing :
      (e : Error) (m : Action A) → Preserves P m → Preserves P (or_missing e m)
  Preserves-or_missing e m t = Triple-or_missing (λ a. P) P P e m t

  pub Preserves-if :
      (b : Bool) (m n : Action A) → Preserves P m → Preserves P n → Preserves P (if b then m else n)
  Preserves-if true m n hm hn = hm
  Preserves-if false m n hm hn = hn

  pub Preserves-bind :
      {B : Type 0} (m : Action A) (f : A → Action B)
      → Preserves P m
      → ((a : A) → Preserves P (f a))
      → Preserves P (m >>= f)
  Preserves-bind m f tm tf = Triple-bind (λ a. P) (λ b. P) P P m f tm tf

pub ruleset preserve_rules = (
  Preserves-pure, Preserves-raise, Preserves-or_missing, Preserves-if, Preserves-attempt,
  Preserves-raise_if, Preserves-bind,
)
