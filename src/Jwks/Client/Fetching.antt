-- ===== src/Jwks/Client/Fetching.antt =====
-- What the client's keys are after a fetch of the key set.
use seta_training.Prelude.{◌<◌, String, none, some, List, [], ◌∷◌, ◌≡◌, arith, eq_refl, upsert}
use seta_training.Auth.Tokens.{key_id}
use seta_training.Jwks.{PublicKey}
use seta_training.Jwks.RoundTrip.{jwk_to_rsa-to_jwk}
use seta_training.Jwks.Client
use seta_training.Jwks.Client.{
  Client, NamedKey, NamedJwk, Fetched, answered, lookup, store, store_if, has_kid, get_key, refresh,
  published,
}

lookup-upsert :
    (kid : String) (key : PublicKey) (ks : List NamedKey)
    → lookup kid (upsert (has_kid kid) (record { kid = kid; key = key }) ks) ≡ some key
unfolding lookup upsert
lookup-upsert kid key [] = ground (arith, eq_refl kid)
lookup-upsert kid key (k ∷ ks) = ground (arith, eq_refl kid, lookup-upsert kid key ks)

-- A client that has no key of the name yet and reaches auth-service reads the published key, and keeps
-- it.
pub get_key-published :
    (key : PublicKey) (c : Client)
    → key.exponent < 4294967296
    → lookup key_id c.keys ≡ none
    → Client.next_fetch c.fetches ≡ answered 200 (some (published key))
    → ((get_key key_id c).0 ≡ some key) × (lookup key_id (get_key key_id c).1.keys ≡ some key)
unfolding get_key refresh store
get_key-published key c h missing fetched = (
  ground (arith, missing, fetched, jwk_to_rsa-to_jwk key h, lookup-upsert key_id key c.keys),
  ground (arith, missing, fetched, jwk_to_rsa-to_jwk key h, lookup-upsert key_id key c.keys),
)

-- The key that a client gives is one that it holds from then on.
pub get_key_held :
    (kid : String) (key : PublicKey) (c : Client)
    → (get_key kid c).0 ≡ some key
    → lookup kid (get_key kid c).1.keys ≡ some key
unfolding get_key refresh
get_key_held kid key c h = ground arith
