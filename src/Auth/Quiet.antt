-- ===== src/Auth/Quiet.antt =====
-- The actions of auth-service that write nothing to its database keep whatever holds of it.
use seta_training.Prelude.{ℕ, String, Bool, true, false, Option, Result, ◌≡◌, refl, arith}
use seta_training.Auth.Libraries.{Bcrypt, Claims}
use seta_training.Auth.Db.{Database}
use seta_training.Auth.World.{World, Error, Action, many, redis_set}
use seta_training.Auth.World.Keeps.{Keeps}
use seta_training.Auth.Users
use seta_training.Auth.Tokens
use seta_training.Auth.Tokens.{Service}

module _ {P : Database → Type 0} where
  Keeps-same : {A : Type 0} (m : Action A) → ((w : World) → (m w).1.db ≡ w.db) → Keeps P m
  Keeps-same m same = record { at = λ w h. rw same h }

  pub or_in_use-Keeps : {A : Type 0} (r : Result Error A) → Keeps P (Users.or_in_use r)
  or_in_use-Keeps r = Keeps-same _ (λ w. ground arith)

  pub or_invalid-Keeps : {A : Type 0} (r : Result Error A) → Keeps P (Users.or_invalid r)
  or_invalid-Keeps r = Keeps-same _ (λ w. ground arith)

  pub generate_hash-Keeps : (b : Bcrypt) (p : String) → Keeps P (Users.generate_hash b p)
  unfolding Users.generate_hash
  generate_hash-Keeps b p = Keeps-same _ (λ w. ground arith)

  pub find_page-Keeps : (c : String) (n : ℕ) → Keeps P (Users.find_page c n)
  unfolding Users.find_page many
  find_page-Keeps c n = Keeps-same _ (λ w. ground arith)

  pub now-Keeps : Keeps P Tokens.now
  unfolding Tokens.now
  now-Keeps = Keeps-same _ (λ w. refl)

  pub signed-Keeps : {A : Type 0} (o : Option A) → Keeps P (Tokens.signed o)
  signed-Keeps o = Keeps-same _ (λ w. ground arith)

  pub or_bad-Keeps : {A : Type 0} (o : Option A) → Keeps P (Tokens.or_bad o)
  or_bad-Keeps o = Keeps-same _ (λ w. ground arith)

module _ {P : Database → Type 0} {Token : Type 0} (s : Service Token) where
  pub parsed-Keeps : (t : Token) → Keeps P (Tokens.parsed s t)
  unfolding Tokens.parsed
  parsed-Keeps t = Keeps-same _ (λ w. ground arith)

  pub blacklist-Keeps : (c : Claims) → Keeps P (Tokens.blacklist s c)
  unfolding Tokens.blacklist redis_set
  blacklist-Keeps c = Keeps-same _ (λ w. ground arith)

  pub when-Keeps : (b : Bool) (m : Action (Unit {0})) → Keeps P m → Keeps P (Tokens.when s b m)
  when-Keeps true m km = km
  when-Keeps false m km = record { at = λ w h. h }

pub ruleset quiet_rules = (
  or_in_use-Keeps, or_invalid-Keeps, generate_hash-Keeps, find_page-Keeps, now-Keeps, signed-Keeps,
  or_bad-Keeps, parsed-Keeps, blacklist-Keeps, when-Keeps,
)
