-- ===== src/Jwks/Check.antt =====
-- `JWTAuth` of core-service/internal/middleware/jwt.go: the check of the bearer's token.
use seta_training.Prelude.{
  ℕ, String, Bool, Option, none, some, List, ◌==◌, Result, ok, err, is_down, later, find,
  if◌then◌else◌,
}
use Prim.Native.String.{◌++◌}
use seta_training.Auth.Libraries.{Claims, Header}
use seta_training.Auth.World.{Entry, is_unexpired}
use seta_training.Auth.Middleware.{
  missing_header, invalid_token_text, invalid_type_text, revoked_text, is_access,
}
use seta_training.Core.Http.{Caller}
use seta_training.Jwks.{PublicKey}
use seta_training.Jwks.Client.{Client, get_key}

-- What the library makes of a token: its header, `none` for what is no token, and, by the key that the
-- client gives, its claims.
pub record Verifier (Token : Type 0) : Type 0 where
  pub header : Token → Option Header
  pub verify : (key : PublicKey) (issuer audience : String) (now : ℕ) → Token → Option Claims

pub record Check (Token : Type 0) : Type 0 where
  pub jwt : Verifier Token
  pub issuer : String
  pub audience : String

-- The client, the Redis that auth-service writes to, the clock, and which calls of Redis fail.
pub record Gate : Type 0 where
  pub client : Client
  pub redis : List Entry
  pub now : ℕ
  pub outages : List Bool

unfoldable pub blacklist_key : String → String
blacklist_key jti = "jwt:blacklist:" ++ jti

abbrev pub caller_of : Claims → Caller
caller_of c = record { id = some c.subject; role = some c.role }

-- `rdb.Exists(…)`: its error is logged, and the request goes on.
unfoldable pub check_blacklist : Claims → Gate → Result String Caller × Gate
unfolding blacklist_key
check_blacklist c g =
    if is_down g.outages then (ok (caller_of c), record g { outages = later g.outages }) else (
      if is_unexpired g.now (find (λ e. e.key == blacklist_key c.id) g.redis)
          then err revoked_text
          else ok (caller_of c),
      record g { outages = later g.outages },
    )

abbrev pub check_claims : Option Claims → Gate → Result String Caller × Gate
check_claims none g = (err invalid_token_text, g)
check_claims (some c) g = if is_access c then check_blacklist c g else (err invalid_type_text, g)

module _ {Token : Type 0} (s : Check Token) where
  abbrev pub check_signed : Token → Option PublicKey × Client → Gate → Result String Caller × Gate
  check_signed t (none, client) g = (err invalid_token_text, record g { client = client })
  check_signed t (some key, client) g =
      check_claims (s.jwt.verify key s.issuer s.audience g.now t) (record g { client = client })

  -- The function that is to give the key: a token by another method than RSA's gets none.
  abbrev pub check_token : Token → Option Header → Gate → Result String Caller × Gate
  check_token t none g = (err invalid_token_text, g)
  check_token t (some h) g =
      if h.is_rsa then check_signed t (get_key h.kid g.client) g else (err invalid_token_text, g)

  -- `none` is a header with no `Bearer ` before the token.
  unfoldable pub jwt_auth : Option Token → Gate → Result String Caller × Gate
  jwt_auth none g = (err missing_header, g)
  jwt_auth (some t) g = check_token t (s.jwt.header t) g
