-- ===== src/Jwks.antt =====
-- The key set that auth-service publishes and core-service reads: `JWKS` of auth-service's
-- internal/auth/handler.go, and `jwkToRSA` of core-service's internal/middleware/jwt.go.
use seta_training.Prelude.{
  ℕ, zero, suc, ◌+◌, ◌*◌, ◌-◌, ◌/◌, ◌%◌, ◌^◌, Bool, true, false, not, ◌&&◌, Option, none, some,
  List, [], ◌∷◌, ◌++◌, equal, ltb, if◌then◌else◌, length,
}
pub mod Base64
pub mod RoundTrip
pub mod Client
pub mod Check
pub mod Admission
mod Tests
use Base64.{encode, decode}

-- `rsa.PublicKey`
pub record PublicKey : Type 0 where
  pub modulus : ℕ
  pub exponent : ℕ

-- A key of the set, whose numbers are texts of the base64 alphabet.
pub record Jwk : Type 0 where
  pub n : List ℕ
  pub e : List ℕ

-- The bytes of a number, the last one first, with no zero at the end; there are less than `fuel`.
unfoldable pub low_bytes : ℕ → ℕ → List ℕ
low_bytes zero n = []
low_bytes (suc fuel) n =
    let rest = low_bytes fuel (n / 256) in if equal n 0 then [] else n % 256 ∷ rest

unfoldable pub reverse_onto : List ℕ → List ℕ → List ℕ
reverse_onto [] ys = ys
reverse_onto (x ∷ xs) ys = reverse_onto xs (x ∷ ys)

-- `N.Bytes()`, the first byte first. A number has less bytes than it counts.
unfoldable pub big_bytes : ℕ → List ℕ
unfolding low_bytes reverse_onto
big_bytes n = reverse_onto (low_bytes (n + 1) n) []

-- `new(big.Int).SetBytes(…)`
unfoldable pub set_bytes : ℕ → List ℕ → ℕ
set_bytes acc [] = acc
set_bytes acc (b ∷ bs) = set_bytes (acc * 256 + b) bs

-- `uint32(pub.E)`, and `binary.BigEndian.PutUint32`
unfoldable pub put_uint32 : ℕ → List ℕ
put_uint32 n = n / 16777216 % 256 ∷ n / 65536 % 256 ∷ n / 256 % 256 ∷ n % 256 ∷ []

abbrev strip_if : ℕ → List ℕ → List ℕ → List ℕ
strip_if b [] rest = b ∷ []
strip_if b (c ∷ bs) rest = if equal b 0 then rest else b ∷ c ∷ bs

-- The loop past the zeros in front, which leaves the last byte.
unfoldable pub strip_zeros : List ℕ → List ℕ
strip_zeros [] = []
strip_zeros (b ∷ bs) = strip_if b bs (strip_zeros bs)

unfoldable pub to_jwk : PublicKey → Jwk
unfolding big_bytes put_uint32 strip_zeros
to_jwk key = record {
  n = encode (big_bytes key.modulus);
  e = encode (strip_zeros (put_uint32 key.exponent));
}

-- `Int64()` of a number that is less than 2 ^ 63, as it is; the bits above are lost.
abbrev pub to_int64 : ℕ → ℕ
to_int64 n = n % 2 ^ 64

abbrev both : Option (List ℕ) → Option (List ℕ) → Option PublicKey
both (some n) (some e) =
    some (record { modulus = set_bytes 0 n; exponent = to_int64 (set_bytes 0 e) })
both (some n) none = none
both none e = none

unfoldable pub jwk_to_rsa : Jwk → Option PublicKey
unfolding set_bytes
jwk_to_rsa k = both (decode k.n) (decode k.e)
