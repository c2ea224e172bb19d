-- ===== src/Auth/Libraries.antt =====
-- What auth-service takes from its libraries: the hashes of golang.org/x/crypto/bcrypt and the tokens
-- of golang-jwt, as functions, and what it relies on.
use seta_training.Prelude.{ℕ, ◌<◌, String, Bool, true, Option, some, ◌≡◌}

-- `GenerateFromPassword`, by the salt that it draws, and whether `CompareHashAndPassword` succeeds.
pub record Bcrypt : Type 0 where
  pub generate : ℕ → String → Option String
  pub compare : String → String → Bool

-- A hash is accepted for the password that it was made from.
pub record IsBcrypt (b : Bcrypt) : Type 0 where
  pub accepts :
      (salt : ℕ) (password hash : String)
      → b.generate salt password ≡ some hash
      → b.compare hash password ≡ true

-- `Claims` of auth/service.go, with the registered claims that the service sets.
pub record Claims : Type 0 where
  pub role : String
  pub type : String
  pub subject : String
  pub id : String
  pub issued_at : ℕ
  pub expires_at : ℕ
  pub issuer : String
  pub audience : String

-- Of a token's header: whether its method is one of RSA's, and the key that it names, `""` for none.
pub record Header : Type 0 where
  pub is_rsa : Bool
  pub kid : String

-- `SignedString` by RS256 under the service's private key, with a `kid` in the header; the header of a
-- token, `none` for what is no token; and `ParseWithClaims`, where the function that is to give the key
-- gives the public one, by the issuer and the audience wanted and the time, with the expiry required.
pub record Jwt (Token : Type 0) : Type 0 where
  pub sign : (kid : String) → Claims → Option Token
  pub header : Token → Option Header
  pub parse : (issuer audience : String) (now : ℕ) → Token → Option Claims

pub record IsJwt {Token : Type 0} (j : Jwt Token) : Type 0 where
  -- a token that is signed parses, until it expires, to its claims
  pub parse-sign :
      (kid : String) (c : Claims) (t : Token) (now : ℕ)
      → j.sign kid c ≡ some t
      → now < c.expires_at
      → j.parse c.issuer c.audience now t ≡ some c
  -- the header of a token that is signed
  pub header-sign :
      (kid : String) (c : Claims) (t : Token)
      → j.sign kid c ≡ some t
      → j.header t ≡ some (record { is_rsa = true; kid = kid })
  -- a token that parses has not expired
  pub parse_unexpired :
      (issuer audience : String) (now : ℕ) (t : Token) (c : Claims)
      → j.parse issuer audience now t ≡ some c
      → now < c.expires_at
  -- the claims are the token's, at whatever time it parses
  pub parse_same :
      (issuer audience : String) (now later : ℕ) (t : Token) (c c' : Claims)
      → j.parse issuer audience now t ≡ some c
      → j.parse issuer audience later t ≡ some c'
      → c' ≡ c
