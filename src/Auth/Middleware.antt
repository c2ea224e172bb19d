-- ===== src/Auth/Middleware.antt =====
-- auth-service/internal/middleware/jwt.go: the check of the bearer's token before the users' routes.
use seta_training.Prelude.{
  String, Bool, true, ◌||◌, Option, none, some, ◌==◌, Result, ok, err, if◌then◌else◌,
}
use seta_training.Auth.Libraries.{Claims}
use seta_training.Auth.World.{World, Error}
use seta_training.Auth.Tokens
use seta_training.Auth.Tokens.{Service, access_type}

-- What the handler that stands behind the middleware sees of the caller.
pub record Caller : Type 0 where
  pub id : String
  pub role : String

-- The texts of the answers 401.
abbrev pub missing_header : String
missing_header = "missing or invalid Authorization header"

abbrev pub invalid_token_text : String
invalid_token_text = "invalid token"

abbrev pub invalid_type_text : String
invalid_type_text = "invalid token type"

abbrev pub revoked_text : String
revoked_text = "token revoked"

-- `err != nil || blacklisted`
abbrev pub revoked_or_unknown : Result Error Bool → Bool
revoked_or_unknown (ok listed) = listed
revoked_or_unknown (err e) = true

abbrev pub caller_of : Claims → Caller
caller_of c = record { id = c.subject; role = c.role }

-- A type that is given has to be an access token's.
abbrev pub is_access : Claims → Bool
is_access c = c.type == "" || c.type == access_type

abbrev admitted : Claims → Result Error Bool × World → Result String Caller × World
admitted c (listed, w) =
    (if revoked_or_unknown listed then err revoked_text else ok (caller_of c), w)

abbrev pub check_claims : Option Claims → World → Result String Caller × World
check_claims none w = (err invalid_token_text, w)
check_claims (some c) w =
    if is_access c then admitted c (Tokens.is_blacklisted c.id w) else (err invalid_type_text, w)

-- `none` is a header with no `Bearer ` before the token.
unfoldable pub jwt_auth :
    {Token : Type 0} → Service Token → Option Token → World → Result String Caller × World
jwt_auth s none w = (err missing_header, w)
jwt_auth s (some token) w = check_claims (Tokens.parse_token s token w) w
