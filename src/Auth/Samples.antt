-- ===== src/Auth/Samples.antt =====
-- Small tables, and libraries that do as they promise, for the tests: Ann, a token of hers, and
-- tokens that are their claims.
use seta_training.Prelude.{
  ℕ, String, true, false, ◌&&◌, Option, none, some, [], ◌∷◌, ◌==◌, ltb, arith, eq_refl, eq_iff,
  if◌then◌else◌,
}
use seta_training.Auth.Libraries.{Bcrypt, IsBcrypt, Claims, Jwt, IsJwt}
use seta_training.Auth.Db.{Database}
use seta_training.Auth.World.{World}
use seta_training.Auth.Tokens.{
  Service, key_id, claims_of, access_type, refresh_type, access_token_ttl, refresh_token_ttl,
}

abbrev pub bcrypt : Bcrypt
bcrypt = record {
  generate = λ salt password. some password;
  compare = λ hash password. hash == password;
}

pub bcrypt-IsBcrypt : IsBcrypt bcrypt
bcrypt-IsBcrypt = record { accepts = λ salt password hash h. ground (arith, eq_refl hash) }

abbrev pub parse_claims : String → String → ℕ → Claims → Option Claims
parse_claims issuer audience now c =
    if c.issuer == issuer && c.audience == audience && ltb now c.expires_at then some c else none

abbrev pub jwt : Jwt Claims
jwt = record {
  sign = λ kid c. if kid == key_id then some c else none;
  header = λ c. some (record { is_rsa = true; kid = key_id });
  parse = parse_claims;
}

pub jwt-IsJwt : IsJwt jwt
jwt-IsJwt = record {
  parse-sign = λ kid c t now h early. ground (arith, eq_refl c.issuer, eq_refl c.audience);
  header-sign = λ kid c t h. ground (arith, eq_iff kid key_id);
  parse_unexpired = λ issuer audience now t c h. ground arith;
  parse_same = λ issuer audience now later t c c' h h'. ground arith;
}

abbrev pub service : Service Claims
service = record { jwt = jwt; issuer = "auth"; audience = "api" }

-- Ann's tokens, which expire.
abbrev pub ann_access : Claims
ann_access = claims_of service "manager" access_type "ann" "seen" 0 access_token_ttl

abbrev pub ann_refresh : Claims
ann_refresh = claims_of service "manager" refresh_type "ann" "old" 0 refresh_token_ttl

abbrev pub tables : Database
tables = record {
  users =
      record {
        user_id = "ann";
        username = "ann";
        email = "ann@x";
        password_hash = "secret";
        role = "manager";
        created_at = 0;
      }
      ∷ record {
        user_id = "bob";
        username = "bob";
        email = "bob@x";
        password_hash = "word";
        role = "member";
        created_at = 0;
      }
      ∷ [];
  tokens = record { jti = "old"; user_id = "ann"; expires_at = 604800; revoked = false } ∷ [];
  now = 7;
  uuid = λ _. "fresh";
  issued = 0;
  as_uuid = λ s. some s;
  fits = λ _. true;
}

-- The servers, whose calls all work.
abbrev pub servers : World
servers = record { db = tables; redis = []; messages = []; outages = [] }
