-- ===== src/Jwks/Tests.antt =====
-- The key set, the client and the check of core-service on a small key and Ann's tokens.
use seta_training.Prelude.{
  Bool, true, false, some, List, [], ◌∷◌, ◌≡◌, refl, ok, is_ok, arith, is_down, later, exists, find,
}
use seta_training.Auth.Db
use seta_training.Auth.Libraries.{Claims, Header}
use seta_training.Auth.World.{exec, redis_set}
use seta_training.Auth.Tokens
use seta_training.Auth.Tokens.{key_id}
use seta_training.Auth.Middleware
use seta_training.Auth.Middleware.{is_access}
use seta_training.Auth.Samples.{service, jwt-IsJwt, parse_claims, ann_access, ann_refresh, servers}
use seta_training.Jwks.{PublicKey, to_jwk, jwk_to_rsa}
use seta_training.Jwks.RoundTrip.{jwk_to_rsa-to_jwk}
use seta_training.Jwks.Client.{Client, answered, lookup, published, get_key}
use seta_training.Jwks.Check.{Check, Gate, jwt_auth, caller_of, check_blacklist}
use seta_training.Jwks.Admission.{
  Agree, admitted-is_verified, core_admits_pair, core_refuses_logged_out, redis_down_admits,
}

abbrev key : PublicKey
key = record { modulus = 66049; exponent = 3 }

jwk_to_rsa-to_jwk_example : jwk_to_rsa (to_jwk key) ≡ some key
jwk_to_rsa-to_jwk_example = jwk_to_rsa-to_jwk key (omega arith)

abbrev check : Check Claims
check = record {
  jwt = record {
    header = λ _. some (record { is_rsa = true; kid = key_id });
    verify = λ _. parse_claims;
  };
  issuer = "auth";
  audience = "api";
}

abbrev fresh_client : Client
fresh_client = record { keys = []; fetches = answered 200 (some (published key)) ∷ [] }

abbrev filled_client : Client
filled_client = record { keys = record { kid = key_id; key = key } ∷ []; fetches = [] }

abbrev gate : Client → List Bool → Gate
gate client outages = record { client = client; redis = []; now = 7; outages = outages }

service-Agree : Agree service check key
service-Agree = record {
  issuers = refl;
  audiences = refl;
  verifies = λ issuer audience now t. refl;
  headers = λ t. refl;
}

abbrev pair_access : Claims
pair_access = Tokens.claims_of service "manager" "access" "ann" "fresh" 7 900

abbrev pair_refresh : Claims
pair_refresh = Tokens.claims_of service "manager" "refresh" "ann" "fresh" 7 604800

core_admits_pair_example :
    (jwt_auth check (some pair_access) (gate fresh_client [])).0
    ≡ ok (record { id = some "ann"; role = some "manager" })
unfolding lookup Tokens.generate_token_pair Tokens.now Tokens.new_uuid Tokens.insert exec is_down
    Db.insert_refresh_token exists find
core_admits_pair_example =
    core_admits_pair service check key service-Agree "ann" "manager" servers pair_access
      pair_refresh (gate fresh_client []) jwt-IsJwt (omega arith) refl (omega arith) refl refl refl
      refl

redis_down_admits_example :
    ((jwt_auth check (some pair_access) (gate filled_client (true ∷ []))).0
      ≡ ok (record { id = some "ann"; role = some "manager" }))
    × (is_ok
          (Middleware.jwt_auth service
            (some pair_access)
            (record servers { outages = true ∷ [] })).0
        ≡ false)
unfolding lookup get_key Tokens.generate_token_pair Tokens.now Tokens.new_uuid Tokens.insert exec
    is_down Db.insert_refresh_token exists
redis_down_admits_example =
    redis_down_admits service check key service-Agree "ann" "manager" servers
      (record servers { outages = true ∷ [] }) pair_access pair_refresh
      (gate filled_client (true ∷ [])) [] jwt-IsJwt refl (omega arith) refl refl refl

core_refuses_logged_out_example :
    is_ok
      (jwt_auth check (some ann_access) (record (gate filled_client []) {
        redis = (Tokens.revoke_session service ann_access ann_refresh servers).1.redis;
      })).0
    ≡ false
unfolding lookup get_key Tokens.revoke_session Tokens.parsed Tokens.parsed_refresh
    Tokens.parse_token Tokens.mark_revoked exec is_down Db.mark_refresh_token_revoked
    Tokens.blacklist redis_set later exists
core_refuses_logged_out_example =
    core_refuses_logged_out service check key service-Agree ann_access ann_refresh ann_access
      (record { is_rsa = true; kid = key_id }) servers
      (record (gate filled_client []) {
        redis = (Tokens.revoke_session service ann_access ann_refresh servers).1.redis;
      })
      jwt-IsJwt refl refl refl refl refl refl

admitted-is_verified_example :
    (head : Header) × (k : PublicKey) × (c : Claims) × (some
        (record { is_rsa = true; kid = key_id })
      ≡ some head)
    × (head.is_rsa ≡ true)
    × (lookup head.kid (jwt_auth check (some ann_access) (gate filled_client [])).1.client.keys
        ≡ some k)
    × (parse_claims "auth" "api" 7 ann_access ≡ some c)
    × (is_access c ≡ true)
    × (caller_of ann_access ≡ caller_of c)
unfolding lookup get_key jwt_auth check_blacklist is_down find
admitted-is_verified_example =
    admitted-is_verified check ann_access (gate filled_client []) (caller_of ann_access) refl
