-- ===== src/Auth/Db/Spent.antt =====
-- Refresh tokens that are spent: revoked for good, whatever is written to the database later.
use seta_training.Prelude.{
  ℕ, String, Bool, true, false, not, ◌||◌, ◌&&◌, List, [], ◌∷◌, ◌++◌, map, ◌≡◌, refl, ok, arith,
  eq_iff, exists, ltb,
}
use seta_training.Auth.Db
use seta_training.Auth.Db.{Database, RefreshToken, is_token, is_of, revoke_if}

-- A row of the token that is not revoked.
abbrev pub is_live : String → RefreshToken → Bool
is_live j r = is_token j r && not r.revoked

-- The token has been issued, and none of its rows is live.
abbrev pub IsSpent : String → Database → Type 0
IsSpent j d = (exists (is_token j) d.tokens ≡ true) × (exists (is_live j) d.tokens ≡ false)

-- No token of the user is live.
abbrev pub NoneLive : String → Database → Type 0
NoneLive u d = exists (λ r. is_of u r && not r.revoked) d.tokens ≡ false

exists-revoke_if :
    (p : RefreshToken → Bool) (j : String) (rows : List RefreshToken)
    → exists (is_token j) (map (revoke_if p) rows) ≡ exists (is_token j) rows
unfolding exists
exists-revoke_if p j [] = refl
exists-revoke_if p j (r ∷ rows) = ground (arith, exists-revoke_if p j rows)

live-revoke_if :
    (p : RefreshToken → Bool) (j : String) (rows : List RefreshToken)
    → exists (is_live j) rows ≡ false
    → exists (is_live j) (map (revoke_if p) rows) ≡ false
unfolding exists
live-revoke_if p j [] h = refl
live-revoke_if p j (r ∷ rows) h = ground (arith, live-revoke_if p j rows)

live-marked :
    (j : String) (rows : List RefreshToken)
    → exists (is_live j) (map (revoke_if (is_token j)) rows) ≡ false
unfolding exists
live-marked j [] = refl
live-marked j (r ∷ rows) = ground (arith, live-marked j rows)

none_live-marked :
    (u : String) (rows : List RefreshToken)
    → exists (λ r. is_of u r && not r.revoked) (map (revoke_if (is_of u)) rows) ≡ false
unfolding exists
none_live-marked u [] = refl
none_live-marked u (r ∷ rows) = ground (arith, none_live-marked u rows)

exists-append :
    (p : RefreshToken → Bool) (xs ys : List RefreshToken)
    → exists p (xs ++ ys) ≡ (exists p xs || exists p ys)
unfolding exists
exists-append p [] ys = refl
exists-append p (x ∷ xs) ys = ground (arith, exists-append p xs ys)

valid-live :
    (j : String) (now : ℕ) (rows : List RefreshToken)
    → exists (is_live j) rows ≡ false
    → exists (λ r. is_token j r && not r.revoked && ltb now r.expires_at) rows ≡ false
unfolding exists
valid-live j now [] h = refl
valid-live j now (r ∷ rows) h = ground (arith, valid-live j now rows)

valid-issued :
    (j : String) (now : ℕ) (rows : List RefreshToken)
    → exists (λ r. is_token j r && not r.revoked && ltb now r.expires_at) rows ≡ true
    → exists (is_token j) rows ≡ true
unfolding exists
valid-issued j now [] h = h
valid-issued j now (r ∷ rows) h = ground (arith, valid-issued j now rows)

-- A spent token is not valid.
pub is_refresh_token_valid-IsSpent :
    (j : String) (d : Database) → IsSpent j d → Db.is_refresh_token_valid j d ≡ false
unfolding Db.is_refresh_token_valid
is_refresh_token_valid-IsSpent j d h = valid-live j d.now d.tokens h.1

-- A valid token that is marked is spent.
pub mark-IsSpent :
    (j : String) (d d' : Database)
    → Db.is_refresh_token_valid j d ≡ true
    → Db.mark_refresh_token_revoked j d ≡ ok (tt, d')
    → IsSpent j d'
unfolding Db.mark_refresh_token_revoked Db.is_refresh_token_valid
mark-IsSpent j d d' valid h = (
  ground (arith, exists-revoke_if (is_token j) j d.tokens, valid-issued j d.now d.tokens),
  ground (arith, live-marked j d.tokens),
)

-- An issued token that is marked is spent.
pub mark_issued-IsSpent :
    (j : String) (d d' : Database)
    → exists (is_token j) d.tokens ≡ true
    → Db.mark_refresh_token_revoked j d ≡ ok (tt, d')
    → IsSpent j d'
unfolding Db.mark_refresh_token_revoked
mark_issued-IsSpent j d d' issued h = (
  ground (arith, exists-revoke_if (is_token j) j d.tokens),
  ground (arith, live-marked j d.tokens),
)

pub mark_keeps_IsSpent :
    (i j : String) (d d' : Database)
    → Db.mark_refresh_token_revoked i d ≡ ok (tt, d')
    → IsSpent j d
    → IsSpent j d'
unfolding Db.mark_refresh_token_revoked
mark_keeps_IsSpent i j d d' h spent = (
  ground (arith, exists-revoke_if (is_token i) j d.tokens),
  ground (arith, live-revoke_if (is_token i) j d.tokens),
)

pub revoke_all_keeps_IsSpent :
    (u j : String) (d d' : Database)
    → Db.revoke_all_refresh_tokens_for_user u d ≡ ok (tt, d')
    → IsSpent j d
    → IsSpent j d'
unfolding Db.revoke_all_refresh_tokens_for_user
revoke_all_keeps_IsSpent u j d d' h spent = (
  ground (arith, exists-revoke_if (is_of u) j d.tokens),
  ground (arith, live-revoke_if (is_of u) j d.tokens),
)

-- No token is live after all of the user's are revoked.
pub revoke_all-NoneLive :
    (u : String) (d d' : Database)
    → Db.revoke_all_refresh_tokens_for_user u d ≡ ok (tt, d')
    → NoneLive u d'
unfolding Db.revoke_all_refresh_tokens_for_user
revoke_all-NoneLive u d d' h = ground (arith, none_live-marked u d.tokens)

-- The key of a row is new, so an issued token is not issued again.
pub insert_keeps_IsSpent :
    (i u j : String) (n : ℕ) (d d' : Database)
    → Db.insert_refresh_token i u n d ≡ ok (tt, d')
    → IsSpent j d
    → IsSpent j d'
unfolding Db.insert_refresh_token exists
insert_keeps_IsSpent i u j n d d' h spent =
    let row : RefreshToken = record { jti = i; user_id = u; expires_at = n; revoked = false } in
    (
      ground (arith, exists-append (is_token j) d.tokens (row ∷ [])),
      ground (arith, exists-append (is_live j) d.tokens (row ∷ []), eq_iff i j, eq_iff j i),
    )
