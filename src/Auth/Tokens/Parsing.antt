-- ===== src/Auth/Tokens/Parsing.antt =====
-- What a token that the service parses is, and that it parses what it signs.
use seta_training.Prelude.{◌<◌, String, true, Option, none, some, ◌≡◌, arith, refl}
use seta_training.Auth.Libraries.{Claims, Header, IsJwt}
use seta_training.Auth.World.{World}
use seta_training.Auth.Tokens.{Service, with_key, parse_token}

with_key_sound :
    {Token : Type 0} (s : Service Token) (o : Option Header) (x : Option Claims) (c : Claims)
    → with_key s o x ≡ some c
    → (h : Header) × (o ≡ some h) × (h.is_rsa ≡ true) × (x ≡ some c)
with_key_sound s none x c h = absurd (ground arith)
with_key_sound s (some k) x c h = (k, refl, ground arith, ground arith)

module _ {Token : Type 0} (s : Service Token) (t : Token) where
  -- A token that parses is by a method of RSA's, and the library has parsed it.
  pub parse_token_sound :
      (w : World) (c : Claims)
      → parse_token s t w ≡ some c
      → (h : Header) × (s.jwt.header t ≡ some h)
        × (h.is_rsa ≡ true)
        × (s.jwt.parse s.issuer s.audience w.db.now t ≡ some c)
  unfolding parse_token
  parse_token_sound w c h = with_key_sound s (s.jwt.header t) _ c h

  module _ (lib : IsJwt s.jwt) where
    -- The claims are the same whenever it parses, and it parses before it expires.
    pub parse_token_same :
        (w v : World) (c c' : Claims)
        → parse_token s t w ≡ some c
        → parse_token s t v ≡ some c'
        → c' ≡ c
    parse_token_same w v c c' is is' =
        lib.parse_same s.issuer s.audience w.db.now v.db.now t c c' (parse_token_sound w c is).3
          (parse_token_sound v c' is').3

    pub parse_token_unexpired :
        (w : World) (c : Claims) → parse_token s t w ≡ some c → w.db.now < c.expires_at
    parse_token_unexpired w c is =
        lib.parse_unexpired s.issuer s.audience w.db.now t c (parse_token_sound w c is).3

    -- What is signed for the service's issuer and audience parses until it expires.
    pub parse_token-sign :
        (kid : String) (c : Claims) (w : World)
        → c.issuer ≡ s.issuer
        → c.audience ≡ s.audience
        → s.jwt.sign kid c ≡ some t
        → w.db.now < c.expires_at
        → parse_token s t w ≡ some c
    unfolding parse_token
    parse_token-sign kid c w issuer audience signed early = ground (
      arith,
      lib.header-sign kid c t signed,
      rw (issuer, audience) at (lib.parse-sign kid c t w.db.now signed early),
    )
