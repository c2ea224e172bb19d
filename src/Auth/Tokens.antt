-- ===== src/Auth/Tokens.antt =====
-- auth-service/internal/auth: repository.go, and service.go over the tokens of the library.
pub mod Rotation
pub mod Parsing
use seta_training.Prelude.{
  ℕ, ◌+◌, ◌-◌, String, Bool, true, false, not, ◌||◌, Option, none, some, List, ◌==◌, ltb, Result,
  ok, err, pure, raise, attempt, raise_if, ◌>>=◌, ◌>>◌, if◌then◌else◌,
}
use Prim.Native.String.{◌++◌}
use seta_training.Auth.Libraries.{Claims, Header, Jwt}
use seta_training.Auth.Db
use seta_training.Auth.World.{
  World, Error, invalid_token, token_revoked, sign_failed, Action, many, exec, redis_has, redis_set,
}

-- `AccessTokenTTL` and `refreshTokenTTL`, in seconds.
abbrev pub access_token_ttl : ℕ
access_token_ttl = 900

abbrev pub refresh_token_ttl : ℕ
refresh_token_ttl = 604800

abbrev pub access_type : String
access_type = "access"

abbrev pub refresh_type : String
refresh_type = "refresh"

-- `KeyID`
abbrev pub key_id : String
key_id = "auth-service-key"

unfoldable pub blacklist_key : String → String
blacklist_key jti = "jwt:blacklist:" ++ jti

-- The repository of the refresh tokens.
unfoldable pub insert : String → String → ℕ → Action (Unit {0})
insert jti user_id expires_at = exec (Db.insert_refresh_token jti user_id expires_at)

unfoldable pub mark_revoked : String → Action (Unit {0})
mark_revoked jti = exec (Db.mark_refresh_token_revoked jti)

unfoldable pub is_valid : String → Action Bool
is_valid jti = many (Db.is_refresh_token_valid jti)

unfoldable pub revoke_all_for_user : String → Action (Unit {0})
revoke_all_for_user user_id = exec (Db.revoke_all_refresh_tokens_for_user user_id)

-- `uuid.NewString()`
unfoldable pub new_uuid : Action String
new_uuid w =
    (ok (w.db.uuid w.db.issued), record w { db = record w.db { issued = w.db.issued + 1 } })

-- `time.Now()`
unfoldable pub now : Action ℕ
now w = (ok w.db.now, w)

-- The service's keys, issuer and audience.
pub record Service (Token : Type 0) : Type 0 where
  pub jwt : Jwt Token
  pub issuer : String
  pub audience : String

abbrev pub signed : {A : Type 0} → Option A → Action A
signed none = raise sign_failed
signed (some token) = pure token

-- `err != nil`, whatever the error.
abbrev pub or_bad : {A : Type 0} → Option A → Action A
or_bad none = raise invalid_token
or_bad (some a) = pure a

module _ {Token : Type 0} (s : Service Token) where
  abbrev pub claims_of : String → String → String → String → ℕ → ℕ → Claims
  claims_of role type subject id issued_at ttl = record {
    role = role;
    type = type;
    subject = subject;
    id = id;
    issued_at = issued_at;
    expires_at = issued_at + ttl;
    issuer = s.issuer;
    audience = s.audience;
  }

  unfoldable pub generate_token_pair : String → String → Action (Token × Token)
  generate_token_pair user_id role = do
    issued_at ← now
    access_id ← new_uuid
    access ← signed (
        s.jwt.sign key_id (claims_of role access_type user_id access_id issued_at access_token_ttl))
    refresh_id ← new_uuid
    refresh ← signed (
        s.jwt.sign key_id
          (claims_of role refresh_type user_id refresh_id issued_at refresh_token_ttl))
    insert refresh_id user_id (issued_at + refresh_token_ttl)
    pure (access, refresh)

  -- `keyFunc`: a token by another method than RSA's gets no key.
  abbrev pub with_key : Option Header → Option Claims → Option Claims
  with_key none claims = none
  with_key (some h) claims = if h.is_rsa then claims else none

  -- `ParseToken` with the expiry required, as its callers all have it.
  unfoldable pub parse_token : Token → World → Option Claims
  parse_token token w =
      with_key (s.jwt.header token) (s.jwt.parse s.issuer s.audience w.db.now token)

  -- The claims of a token that parses, and of one that is a refresh token too.
  unfoldable pub parsed : Token → Action Claims
  parsed token w = or_bad (parse_token token w) w

  unfoldable pub parsed_refresh : Token → Action Claims
  parsed_refresh token = do
    claims ← parsed token
    raise_if (not (claims.type == refresh_type)) invalid_token
    pure claims

  -- The answer to a token that is not valid: every token of the user is revoked, if it can be.
  unfoldable pub reuse : Claims → Action (Unit {0})
  reuse claims = do attempt (revoke_all_for_user claims.subject); raise token_revoked

  abbrev pub when : Bool → Action (Unit {0}) → Action (Unit {0})
  when true m = m
  when false m = pure tt

  unfoldable pub spend : Claims → Action (Unit {0})
  unfolding reuse
  spend claims = do
    valid ← is_valid claims.id
    when (not valid) (reuse claims)
    mark_revoked claims.id

  unfoldable pub rotate_refresh_token : Token → Action (Token × Token)
  unfolding parsed_refresh
  rotate_refresh_token token = do
    claims ← parsed_refresh token
    spend claims
    generate_token_pair claims.subject claims.role

  -- `time.Until` of the expiry, if that is to come.
  unfoldable pub blacklist : Claims → Action (Unit {0})
  blacklist claims w =
      when (ltb w.db.now claims.expires_at)
        (redis_set (blacklist_key claims.id) (claims.expires_at - w.db.now)) w

  unfoldable pub revoke_session : Token → Token → Action (Unit {0})
  unfolding parsed_refresh
  revoke_session access_token refresh_token = do
    access ← parsed access_token
    refresh ← parsed_refresh refresh_token
    raise_if (not (access.subject == refresh.subject)) invalid_token
    mark_revoked refresh.id
    blacklist access

unfoldable pub is_blacklisted : String → Action Bool
is_blacklisted jti = redis_has (blacklist_key jti)
