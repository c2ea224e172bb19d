-- ===== src/Auth/Identity.antt =====
-- Whom the tokens name: an account that is registered can log in, and the access token of a pair
-- lets its bearer pass as the user whom the pair was made for, the refresh token does not.
use seta_training.Prelude.{
  ◌<◌, ◌+◌, String, false, some, [], ◌∷◌, ◌≡◌, refl, ok, is_ok, arith, eq_refl, is_down, inl, inr,
  Option-cases, Result-cases, find, find-append, exists-eq-find, ap,
}
use seta_training.Auth.Libraries.{Claims, IsJwt, Bcrypt, IsBcrypt}
use seta_training.Auth.Db
use seta_training.Auth.Db.{Database, User, has_email}
use seta_training.Auth.World.{World, one, exec, publish, redis_has}
use seta_training.Auth.Users
use seta_training.Auth.Tokens
use seta_training.Auth.Tokens.{
  Service, key_id, refresh_type, access_type, access_token_ttl, refresh_token_ttl, claims_of,
}
use seta_training.Auth.Tokens.Parsing.{parse_token-sign, parse_token_same}
use seta_training.Auth.Logout.{is_listed}
use seta_training.Auth.Middleware.{jwt_auth, is_access}

-- The user whom a creation adds is the one with the e-mail.
get_user_by_email-create :
    (n m h r : String) (d d' : Database) (u : User)
    → Db.create_user n m h r d ≡ ok (u, d')
    → (Db.get_user_by_email m d' ≡ some u) × (u.password_hash ≡ h)
unfolding Db.create_user Db.get_user_by_email find
get_user_by_email-create n m h r d d' u done = (
  ground (
    arith,
    find-append (has_email m) d.users (u ∷ []),
    exists-eq-find (has_email m) d.users,
    eq_refl m,
  ),
  ground arith,
)

-- What a registration that succeeds has done: a hash, a row, and perhaps a message.
register_cases :
    (b : Bcrypt) (n m p r : String) (w : World) (u : User)
    → (Users.register b n m p r w).0 ≡ ok u
    → (h : String) × (b.generate w.db.issued p ≡ some h)
      × (Db.create_user n m h r w.db ≡ ok (u, (Users.register b n m p r w).1.db))
unfolding Users.register Users.create exec publish
register_cases b n m p r w u done = elim (Option-cases (b.generate w.db.issued p)) [
  | inl none_made ↦ absurd (ground arith)
  | inr (h, made) ↦ elim (Result-cases (Db.create_user n m h r w.db)) [
    | inr (e, failed) ↦ absurd (ground arith)
    | inl (x, created) ↦ (h, made, ground arith)
  ]
]

-- An account that is registered, whichever calls fail, can log in with the password while no call
-- fails and the users are as then: the login gives the user that the registration gave.
pub login-register :
    (b : Bcrypt) (n m p r : String) (w v : World) (u : User)
    → IsBcrypt b
    → (Users.register b n m p r w).0 ≡ ok u
    → v.db.users ≡ (Users.register b n m p r w).1.db.users
    → v.outages ≡ []
    → (Users.login b m p v).0 ≡ ok u
unfolding Users.login Users.find_by_email one is_down Db.get_user_by_email
login-register b n m p r w v u lib done same up =
    let (h, made, created) = register_cases b n m p r w u done in
    let (found, hash) =
      get_user_by_email-create n m h r w.db (Users.register b n m p r w).1.db u created in
    ground (arith, found, hash, same, lib.accepts w.db.issued p h made)

refresh-is_access : (c : Claims) → c.type ≡ refresh_type → is_access c ≡ false
refresh-is_access c h = rw h refl

module _ {Token : Type 0} (s : Service Token) (user_id role : String) (w : World) where
  abbrev pub access_claims : Claims
  access_claims =
      claims_of s role access_type user_id (w.db.uuid w.db.issued) w.db.now access_token_ttl

  abbrev pub refresh_claims : Claims
  refresh_claims =
      claims_of s role refresh_type user_id (w.db.uuid (w.db.issued + 1)) w.db.now refresh_token_ttl

  -- The two tokens of a pair are signed.
  pub signed_pair :
      (a f : Token)
      → (Tokens.generate_token_pair s user_id role w).0 ≡ ok (a, f)
      → (s.jwt.sign key_id access_claims ≡ some a) × (s.jwt.sign key_id refresh_claims ≡ some f)
  unfolding Tokens.generate_token_pair Tokens.now Tokens.new_uuid Tokens.insert exec
  signed_pair a f h = ground arith

  -- The access token of a pair lets its bearer pass, as the user and in the role that the pair was made
  -- for, until it expires, while no call fails and its id is not on the blacklist.
  pub jwt_auth-generate_token_pair :
      (a f : Token) (v : World)
      → IsJwt s.jwt
      → (Tokens.generate_token_pair s user_id role w).0 ≡ ok (a, f)
      → v.db.now < w.db.now + access_token_ttl
      → is_listed (w.db.uuid w.db.issued) v.db.now v.redis ≡ false
      → v.outages ≡ []
      → (jwt_auth s (some a) v).0 ≡ ok (record { id = user_id; role = role })
  unfolding jwt_auth Tokens.is_blacklisted redis_has is_down
  jwt_auth-generate_token_pair a f v lib done early clear up =
      let parsed =
        parse_token-sign s a lib key_id access_claims v refl refl (signed_pair a f done).0 early in
      ground (arith, parsed)

  -- The refresh token of a pair is refused where an access token is wanted, whichever calls fail.
  pub jwt_auth_refuses_refresh :
      (a f : Token) (v : World)
      → IsJwt s.jwt
      → (Tokens.generate_token_pair s user_id role w).0 ≡ ok (a, f)
      → is_ok (jwt_auth s (some f) v).0 ≡ false
  unfolding jwt_auth
  jwt_auth_refuses_refresh a f v lib done = elim (Option-cases (Tokens.parse_token s f v)) [
    | inl bad ↦ ground arith
    | inr (c, is) ↦
        let first =
          parse_token-sign s f lib key_id refresh_claims w refl refl (signed_pair a f done).1
            (omega arith) in
        let same : c ≡ refresh_claims = parse_token_same s f lib w v refresh_claims c first is in
        ground (arith, is, refresh-is_access c (ap (λ (y : Claims). y.type) same))
  ]
