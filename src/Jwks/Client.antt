-- ===== src/Jwks/Client.antt =====
-- `JWKSClient` of core-service/internal/middleware/jwt.go: the keys that it has read, by their ids, and
-- what the key set's address answers.
pub mod Fetching
use seta_training.Prelude.{
  ℕ, String, Bool, true, false, not, Option, none, some, List, [], ◌∷◌, ◌==◌, find, upsert, equal,
  if◌then◌else◌,
}
use seta_training.Auth.Tokens.{key_id}
use seta_training.Jwks
use seta_training.Jwks.{PublicKey, Jwk, jwk_to_rsa}

-- A key of the set, and a key that has been read.
pub record NamedJwk : Type 0 where
  pub kid : String
  pub key : Jwk

pub record NamedKey : Type 0 where
  pub kid : String
  pub key : PublicKey

-- What a `GET` comes to; the body is `none` if it is not a key set.
pub data Fetched : Type 0 where
  unreachable : Fetched
  answered : (status : ℕ) (body : Option (List NamedJwk)) → Fetched

-- The keys, and what the next fetches come to. Without a next one the address cannot be reached.
pub record Client : Type 0 where
  pub keys : List NamedKey
  pub fetches : List Fetched

abbrev pub has_kid : String → NamedKey → Bool
has_kid kid k = k.kid == kid

unfoldable pub lookup : String → List NamedKey → Option PublicKey
lookup kid [] = none
lookup kid (k ∷ ks) = if has_kid kid k then some k.key else lookup kid ks

abbrev pub store_if : Option PublicKey → String → List NamedKey → List NamedKey
store_if none kid keys = keys
store_if (some key) kid keys = upsert (has_kid kid) (record { kid = kid; key = key }) keys

-- The loop over the keys of the set: one that cannot be read is passed over.
unfoldable pub store : List NamedJwk → List NamedKey → List NamedKey
store [] keys = keys
store (k ∷ ks) keys = store ks (store_if (jwk_to_rsa k.key) k.kid keys)

abbrev pub next_fetch : List Fetched → Fetched
next_fetch [] = unreachable
next_fetch (f ∷ fs) = f

abbrev pub later_fetches : List Fetched → List Fetched
later_fetches [] = []
later_fetches (f ∷ fs) = fs

abbrev pub with_keys : String → List NamedKey → Client → Option PublicKey × Client
with_keys kid keys c = (lookup kid keys, record c { keys = keys })

abbrev pub take_in : String → Fetched → Client → Option PublicKey × Client
take_in kid unreachable c = (none, c)
take_in kid (answered status none) c = (none, c)
take_in kid (answered status (some set)) c =
    if equal status 200 then with_keys kid (store set c.keys) c else (none, c)

unfoldable pub refresh : String → Client → Option PublicKey × Client
unfolding lookup store
refresh kid c = take_in kid (next_fetch c.fetches) (record c { fetches = later_fetches c.fetches })

abbrev pub or_refresh : String → Option PublicKey → Client → Option PublicKey × Client
or_refresh kid (some key) c = (some key, c)
or_refresh kid none c = refresh kid c

unfoldable pub get_key : String → Client → Option PublicKey × Client
get_key kid c = or_refresh kid (lookup kid c.keys) c

-- The set that auth-service's handler writes.
abbrev pub published : PublicKey → List NamedJwk
published key = record { kid = key_id; key = Jwks.to_jwk key } ∷ []
