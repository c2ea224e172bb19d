-- ===== src/Auth/Logout.antt =====
-- After a logout neither of the two tokens is of use.
use seta_training.Prelude.{
  ℕ, ◌<◌, ◌+◌, ◌-◌, String, Bool, true, false, Option, some, List, ◌==◌, ◌≡◌, refl, is_ok, arith,
  eq_refl, inl, inr, Option-cases, Result-cases, ok, ap, find, exists, upsert, find-upsert_hit,
}
use seta_training.Auth.Libraries.{Bcrypt, Claims, IsJwt}
use seta_training.Auth.Db
use seta_training.Auth.Db.{is_token}
use seta_training.Auth.Db.Spent.{IsSpent, mark_issued-IsSpent}
use seta_training.Auth.Requests.{Request, run}
use seta_training.Auth.Replay.{rotate_spent_later, parsed_refresh_sound, state-parsed_refresh}
use seta_training.Auth.World.{World, Entry, exec, redis_set, redis_has, is_unexpired}
use seta_training.Auth.Tokens
use seta_training.Auth.Tokens.{Service, refresh_type, blacklist_key}
use seta_training.Auth.Tokens.Parsing.{parse_token_same, parse_token_unexpired}
use seta_training.Auth.Middleware.{jwt_auth}

-- The entry of a token's id on the blacklist, and whether it is there at a time.
abbrev pub entry_of : String → List Entry → Option Entry
entry_of j es = find (λ e. e.key == blacklist_key j) es

abbrev pub is_listed : String → ℕ → List Entry → Bool
is_listed j now es = is_unexpired now (entry_of j es)

-- A token that is written to the blacklist is found there until it expires.
listed_until :
    (j : String) (now expires time : ℕ) (es : List Entry)
    → time < expires
    → is_listed j time (
        upsert
          (λ e. e.key == blacklist_key j)
          (record { key = blacklist_key j; expires = now + (expires - now) })
          es)
      ≡ true
listed_until j now expires time es h = ground (
  arith,
  find-upsert_hit (λ e. e.key == blacklist_key j) (λ e. e.key == blacklist_key j)
      (record { key = blacklist_key j; expires = now + (expires - now) }) es
      (eq_refl (blacklist_key j)) (λ x. refl),
)

-- A logout that succeeds has listed the access token until it expires.
pub revoke_session_listed :
    {Token : Type 0} (s : Service Token) (a r : Token) (c : Claims) (w : World)
    → is_ok (Tokens.revoke_session s a r w).0 ≡ true
    → Tokens.parse_token s a w ≡ some c
    → (time : ℕ) → w.db.now < c.expires_at
    → time < c.expires_at
    → is_listed c.id time (Tokens.revoke_session s a r w).1.redis ≡ true
unfolding Tokens.revoke_session Tokens.parsed_refresh Tokens.parsed Tokens.mark_revoked
    Tokens.blacklist exec redis_set Db.mark_refresh_token_revoked
revoke_session_listed s a r c w h is time before early =
    ground (arith, listed_until c.id w.db.now c.expires_at time w.redis early)

-- Once a logout has succeeded, the middleware refuses the access token, at whatever time and whichever
-- calls fail, as long as Redis keeps the entry of the token's id as the logout has left it.
pub logged_out_access :
    {Token : Type 0} (s : Service Token) (a r : Token) (c : Claims) (w w' : World)
    → IsJwt s.jwt
    → is_ok (Tokens.revoke_session s a r w).0 ≡ true
    → Tokens.parse_token s a w ≡ some c
    → entry_of c.id w'.redis ≡ entry_of c.id (Tokens.revoke_session s a r w).1.redis
    → is_ok (jwt_auth s (some a) w').0 ≡ false
unfolding jwt_auth Tokens.is_blacklisted redis_has
logged_out_access s a r c w w' lib done is kept = elim (Option-cases (Tokens.parse_token s a w')) [
  | inl bad ↦ ground arith
  | inr (c', is') ↦
      let same : c' ≡ c = parse_token_same s a lib w w' c c' is is' in
      let early : w'.db.now < c.expires_at = rw same at (parse_token_unexpired s a lib w' c' is') in
      let listed =
        revoke_session_listed s a r c w done is w'.db.now (parse_token_unexpired s a lib w c is)
          early in
      ground (arith, same, kept, listed)
]

-- A token that is issued is spent by its mark, if that is written.
mark_revoked-IsSpent :
    (j : String) (w : World)
    → is_ok (Tokens.mark_revoked j w).0 ≡ true
    → exists (is_token j) w.db.tokens ≡ true
    → IsSpent j (Tokens.mark_revoked j w).1.db
unfolding Tokens.mark_revoked exec
mark_revoked-IsSpent j w h issued = elim (Result-cases (Db.mark_refresh_token_revoked j w.db)) [
  | inr (e, failed) ↦ absurd (ground arith)
  | inl (x, done) ↦
      let spent = mark_issued-IsSpent j w.db x.1 issued done in
      (ground (arith, spent.0), ground (arith, spent.1))
]

db-blacklist :
    {Token : Type 0} (s : Service Token) (c : Claims) (w : World)
    → (Tokens.blacklist s c w).1.db ≡ w.db
unfolding Tokens.blacklist redis_set
db-blacklist s c w = ground arith

state-parsed :
    {Token : Type 0} (s : Service Token) (t : Token) (w : World) → (Tokens.parsed s t w).1 ≡ w
unfolding Tokens.parsed
state-parsed s t w = ground arith

-- What a logout that succeeds has done: two tokens that parse, a mark and an entry of the blacklist.
revoke_session_cases :
    {Token : Type 0} (s : Service Token) (a r : Token) (w : World)
    → is_ok (Tokens.revoke_session s a r w).0 ≡ true
    → (x y : Claims) × ((Tokens.parsed_refresh s r w).0 ≡ ok y)
      × (is_ok (Tokens.mark_revoked y.id w).0 ≡ true)
      × ((Tokens.revoke_session s a r w).1
          ≡ (Tokens.blacklist s x (Tokens.mark_revoked y.id w).1).1)
unfolding Tokens.revoke_session
revoke_session_cases s a r w h = elim (Result-cases (Tokens.parsed s a w).0) [
  | inr (e, bad) ↦ absurd (ground arith)
  | inl (x, is) ↦ elim (Result-cases (Tokens.parsed_refresh s r w).0) [
    | inr (e, bad) ↦ absurd (ground (arith, state-parsed s a w))
    | inl (y, is') ↦ (
      x,
      y,
      is',
      ground (arith, state-parsed s a w, state-parsed_refresh s r w),
      ground (arith, state-parsed s a w, state-parsed_refresh s r w),
    )
  ]
]

revoke_session_spends :
    {Token : Type 0} (s : Service Token) (a r : Token) (c : Claims) (w : World)
    → is_ok (Tokens.revoke_session s a r w).0 ≡ true
    → Tokens.parse_token s r w ≡ some c
    → exists (is_token c.id) w.db.tokens ≡ true
    → IsSpent c.id (Tokens.revoke_session s a r w).1.db
revoke_session_spends s a r c w h is issued =
    let (x, y, read, marked, end) = revoke_session_cases s a r w h in
    let (is', type) = parsed_refresh_sound s r w y read in
    let same : y ≡ c = ground (arith, is, is') in
    let spent : IsSpent y.id (Tokens.mark_revoked y.id w).1.db =
      mark_revoked-IsSpent y.id w marked (rw same issued) in
    rw (ap (λ z. z.db) end, db-blacklist s x (Tokens.mark_revoked y.id w).1, ← same) spent

-- Once a logout has succeeded, the refresh token, if the service had issued it, is never rotated:
-- whatever requests come after, however long they take and whichever calls fail.
pub logged_out_refresh :
    {Token : Type 0} (b : Bcrypt) (s : Service Token) (a r : Token) (c : Claims)
    (qs : List (Request Token)) (w : World)
    → IsJwt s.jwt
    → is_ok (Tokens.revoke_session s a r w).0 ≡ true
    → Tokens.parse_token s r w ≡ some c
    → exists (is_token c.id) w.db.tokens ≡ true
    → is_ok (Tokens.rotate_refresh_token s r (run b s qs (Tokens.revoke_session s a r w).1)).0
      ≡ false
logged_out_refresh b s a r c qs w lib done is issued =
    rotate_spent_later b s r c w qs (Tokens.revoke_session s a r w).1 lib is
      (revoke_session_spends s a r c w done is issued)
