-- ===== src/Jwks/Admission.antt =====
-- The two services together: whom core-service lets pass with a token of auth-service.
use seta_training.Prelude.{
  ℕ, ◌+◌, ◌<◌, String, Bool, true, false, none, some, List, [], ◌∷◌, ◌≡◌, ◌∙◌, ap, ok, is_ok, arith,
  is_down, inl, inr, Option-cases,
}
use seta_training.Core.Http.{Caller}
use seta_training.Auth.Libraries.{Claims, Header, IsJwt}
use seta_training.Auth.World.{World, redis_has}
use seta_training.Auth.Tokens
use seta_training.Auth.Tokens.{Service, key_id, access_token_ttl}
use seta_training.Auth.Tokens.Parsing.{parse_token_sound, parse_token_unexpired}
use seta_training.Auth.Middleware
use seta_training.Auth.Middleware.{is_access}
use seta_training.Auth.Identity.{access_claims, signed_pair}
use seta_training.Auth.Logout.{entry_of, is_listed, revoke_session_listed}
use seta_training.Jwks.{PublicKey}
use seta_training.Jwks.Client
use seta_training.Jwks.Client.{Client, answered, lookup, get_key, published}
use seta_training.Jwks.Client.Fetching.{get_key-published, get_key_held}
use seta_training.Jwks.Check
use seta_training.Jwks.Check.{Check, Gate, jwt_auth, check_blacklist, caller_of}

-- The services use one library with one issuer and one audience, and the key is that of auth-service.
pub record Agree {Token : Type 0} (s : Service Token) (k : Check Token) (key : PublicKey)
    : Type 0 where
  pub issuers : k.issuer ≡ s.issuer
  pub audiences : k.audience ≡ s.audience
  pub verifies :
      (issuer audience : String) (now : ℕ) (t : Token)
      → k.jwt.verify key issuer audience now t ≡ s.jwt.parse issuer audience now t
  pub headers : (t : Token) → k.jwt.header t ≡ s.jwt.header t

-- Whoever passes has a token that is signed by a method of RSA's and verifies, at that time, under the key
-- that the client holds for the id in its header, as an access token of the subject and the role that are
-- set, whichever calls fail.
pub admitted-is_verified :
    {Token : Type 0} (k : Check Token) (t : Token) (g : Gate) (x : Caller)
    → (jwt_auth k (some t) g).0 ≡ ok x
    → (head : Header) × (key : PublicKey) × (c : Claims) × (k.jwt.header t ≡ some head)
      × (head.is_rsa ≡ true)
      × (lookup head.kid (jwt_auth k (some t) g).1.client.keys ≡ some key)
      × (k.jwt.verify key k.issuer k.audience g.now t ≡ some c)
      × (is_access c ≡ true)
      × (x ≡ caller_of c)
unfolding jwt_auth check_blacklist
admitted-is_verified k t g x h = elim (Option-cases (k.jwt.header t)) [
  | inl bad ↦ absurd (ground arith)
  | inr (head, named) ↦ elim (Option-cases (get_key head.kid g.client).0) [
    | inl bad ↦ absurd (ground arith)
    | inr (key, given) ↦ elim (Option-cases (k.jwt.verify key k.issuer k.audience g.now t)) [
      | inl bad ↦ absurd (ground arith)
      | inr (c, is) ↦ (
        head,
        key,
        c,
        named,
        ground arith,
        ground (arith, get_key_held head.kid key g.client given),
        is,
        ground arith,
        ground arith,
      )
    ]
  ]
]

module _ {Token : Type 0} (s : Service Token) (k : Check Token) (key : PublicKey)
    (agree : Agree s k key) where
  -- The claims that core-service reads in the access token of a pair.
  pair_verifies :
      (user_id role : String) (w : World) (a f : Token) (now : ℕ)
      → IsJwt s.jwt
      → (Tokens.generate_token_pair s user_id role w).0 ≡ ok (a, f)
      → now < w.db.now + access_token_ttl
      → k.jwt.verify key k.issuer k.audience now a ≡ some (access_claims s user_id role w)
  pair_verifies user_id role w a f now lib done early =
      agree.verifies k.issuer k.audience now a
      ∙ ap (λ i. s.jwt.parse i k.audience now a) agree.issuers
      ∙ ap (λ i. s.jwt.parse s.issuer i now a) agree.audiences
      ∙ lib.parse-sign key_id (access_claims s user_id role w) a now
          (signed_pair s user_id role w a f done).0 early

  -- Its header names the key.
  pair_named :
      (user_id role : String) (w : World) (a f : Token)
      → IsJwt s.jwt
      → (Tokens.generate_token_pair s user_id role w).0 ≡ ok (a, f)
      → k.jwt.header a ≡ some (record { is_rsa = true; kid = key_id })
  pair_named user_id role w a f lib done =
      agree.headers a
      ∙ lib.header-sign key_id (access_claims s user_id role w) a
          (signed_pair s user_id role w a f done).0

  -- core-service, which has not read the key yet and reaches auth-service's key set, lets the bearer of
  -- the access token of a pair pass as the user and in the role that the pair was made for, until it
  -- expires, while no call fails and its id is not on the blacklist, if the key's exponent has at most 32
  -- bits and the services agree: on the issuer, on the audience and on what the library makes of a token.
  pub core_admits_pair :
      (user_id role : String) (w : World) (a f : Token) (g : Gate)
      → IsJwt s.jwt
      → key.exponent < 4294967296
      → (Tokens.generate_token_pair s user_id role w).0 ≡ ok (a, f)
      → g.now < w.db.now + access_token_ttl
      → lookup key_id g.client.keys ≡ none
      → Client.next_fetch g.client.fetches ≡ answered 200 (some (published key))
      → is_listed (w.db.uuid w.db.issued) g.now g.redis ≡ false
      → g.outages ≡ []
      → (jwt_auth k (some a) g).0 ≡ ok (record { id = some user_id; role = some role })
  unfolding jwt_auth check_blacklist Check.blacklist_key Tokens.blacklist_key is_down
  core_admits_pair user_id role w a f g lib small done early missing fetched clear up = ground (
    arith,
    pair_named user_id role w a f lib done,
    (get_key-published key g.client small missing fetched).0,
    pair_verifies user_id role w a f g.now lib done early,
  )

  -- Once a logout has succeeded, core-service refuses the access token, at whatever time, as long as
  -- Redis answers and keeps the entry of the token's id as the logout has left it, if the client finds
  -- auth-service's key by the id in the token's header and the services agree: on the issuer, on the
  -- audience and on what the library makes of a token.
  pub core_refuses_logged_out :
      (a r : Token) (c : Claims) (head : Header) (w : World) (g : Gate)
      → IsJwt s.jwt
      → is_ok (Tokens.revoke_session s a r w).0 ≡ true
      → Tokens.parse_token s a w ≡ some c
      → s.jwt.header a ≡ some head
      → (get_key head.kid g.client).0 ≡ some key
      → entry_of c.id g.redis ≡ entry_of c.id (Tokens.revoke_session s a r w).1.redis
      → g.outages ≡ []
      → is_ok (jwt_auth k (some a) g).0 ≡ false
  unfolding jwt_auth check_blacklist Check.blacklist_key Tokens.blacklist_key is_down
  core_refuses_logged_out a r c head w g lib done is named given kept up =
      let same_library =
        agree.verifies k.issuer k.audience g.now a
        ∙ ap (λ i. s.jwt.parse i k.audience g.now a) agree.issuers
        ∙ ap (λ i. s.jwt.parse s.issuer i g.now a) agree.audiences in
      let first = (parse_token_sound s a w c is).3 in
      elim (Option-cases (s.jwt.parse s.issuer s.audience g.now a)) [
        | inl bad ↦ ground (arith, same_library, agree.headers a)
        | inr (c', is') ↦
            let same : c' ≡ c =
              lib.parse_same s.issuer s.audience w.db.now g.now a c c' first is' in
            let early : g.now < c.expires_at =
              rw same at (lib.parse_unexpired s.issuer s.audience g.now a c' is') in
            let listed =
              revoke_session_listed s a r c w done is g.now (parse_token_unexpired s a lib w c is)
                early in
            ground (arith, same, same_library, agree.headers a, kept, listed)
      ]

  -- While Redis does not answer, core-service lets the bearer of the access token of a pair pass until
  -- it expires, whatever the blacklist holds, and auth-service does not, if the client finds the key and
  -- the services agree: on the issuer, on the audience and on what the library makes of a token.
  pub redis_down_admits :
      (user_id role : String) (w v : World) (a f : Token) (g : Gate) (rest : List Bool)
      → IsJwt s.jwt
      → (Tokens.generate_token_pair s user_id role w).0 ≡ ok (a, f)
      → g.now < w.db.now + access_token_ttl
      → (get_key key_id g.client).0 ≡ some key
      → g.outages ≡ true ∷ rest
      → v.outages ≡ true ∷ rest
      → ((jwt_auth k (some a) g).0 ≡ ok (record { id = some user_id; role = some role }))
        × (is_ok (Middleware.jwt_auth s (some a) v).0 ≡ false)
  unfolding jwt_auth check_blacklist is_down Middleware.jwt_auth Tokens.is_blacklisted redis_has
  redis_down_admits user_id role w v a f g rest lib done early given down down' = (
    ground (
      arith,
      pair_named user_id role w a f lib done,
      pair_verifies user_id role w a f g.now lib done early,
    ),
    elim (Option-cases (Tokens.parse_token s a v)) [
      | inl bad ↦ ground arith
      | inr (c, is) ↦ ground arith
    ],
  )
