-- ===== src/Auth/Race.antt =====
-- Rotations whose calls interleave: `RotateRefreshToken` of auth/service.go call by call, after its
-- token has parsed.
use seta_training.Prelude.{Bool, true, false, [], ◌≡◌, Result, ok, err, arith, is_down, later}
use seta_training.Auth.Libraries.{Claims}
use seta_training.Auth.Db
use seta_training.Auth.World.{World, Error, token_revoked, many, exec}
use seta_training.Auth.Tokens
use seta_training.Auth.Tokens.{Service}

-- Where a rotation stands: before which call, or with its result.
pub data Phase (Token : Type 0) : Type 0 where
  checking marking revoking issuing : (claims : Claims) → Phase Token
  done : (result : Result Error (Token × Token)) → Phase Token

module _ {Token : Type 0} (s : Service Token) where
  -- What the answer to a call makes of the phase.
  abbrev checked : Claims → Result Error Bool → Phase Token
  checked c (ok true) = marking c
  checked c (ok false) = revoking c
  checked c (err e) = done (err e)

  abbrev marked : Claims → Result Error (Unit {0}) → Phase Token
  marked c (ok x) = issuing c
  marked c (err e) = done (err e)

  abbrev after :
      {A : Type 0} → (Result Error A → Phase Token) → Result Error A × World → Phase Token × World
  after f (r, w) = (f r, w)

  -- One call of a rotation. The pair is made as a whole: of its parts only the insertion is a call.
  unfoldable pub advance : Phase Token → World → Phase Token × World
  advance (checking c) w = after (checked c) (Tokens.is_valid c.id w)
  advance (marking c) w = after (marked c) (Tokens.mark_revoked c.id w)
  advance (revoking c) w =
      after (λ _. done (err token_revoked)) (Tokens.revoke_all_for_user c.subject w)
  advance (issuing c) w = after done (Tokens.generate_token_pair s c.subject c.role w)
  advance (done r) w = (done r, w)

  unfoldable pub advance_twice : Phase Token → World → Phase Token × World
  unfolding advance
  advance_twice p w = let (p', w') = advance p w in advance p' w'

  -- A rotation whose calls nothing comes between.
  unfoldable pub advance_alone : Phase Token → World → Phase Token × World
  unfolding advance_twice
  advance_alone p w = let (p', w') = advance_twice p w in advance p' w'

  -- The calls of a rotation, one after the other, are the rotation of a token that has parsed.
  pub advance_alone-eq-rotate :
      (t : Token) (c : Claims) (w : World)
      → Tokens.parsed_refresh s t w ≡ (ok c, w)
      → advance_alone (checking c) w
        ≡ (done (Tokens.rotate_refresh_token s t w).0, (Tokens.rotate_refresh_token s t w).1)
  unfolding advance_alone Tokens.rotate_refresh_token Tokens.spend Tokens.reuse
  advance_alone-eq-rotate t c w parsed = rw parsed (ground arith)

  -- Two rotations, of which the calls come in turn.
  unfoldable pub in_turn : Phase Token → Phase Token → World → Phase Token × Phase Token × World
  unfolding advance
  in_turn p q w = let (p', w1) = advance p w in let (q', w2) = advance q w1 in (p', q', w2)

  -- Two rotations of one valid token whose calls come in turn, while none fails, both pass its check
  -- and both go on to issue a pair: the check and the mark are two statements.
  pub both_rotations_pass :
      (c : Claims) (w : World)
      → Db.is_refresh_token_valid c.id w.db ≡ true
      → w.outages ≡ []
      → let (p, q, w1) = in_turn (checking c) (checking c) w in
        let (p', q', w2) = in_turn p q w1 in (p' ≡ issuing c) × (q' ≡ issuing c)
  unfolding in_turn Tokens.is_valid Tokens.mark_revoked Db.mark_refresh_token_revoked many exec
      is_down later
  both_rotations_pass c w valid up = (ground arith, ground arith)
