-- ===== src/Jwks/RoundTrip.antt =====
-- The key that core-service reads in the set is the one that auth-service has published.
use seta_training.Prelude.{
  ℕ, zero, suc, ◌+◌, ◌*◌, ◌/◌, ◌<◌, some, List, [], ◌∷◌, ◌≡◌, refl, ◌∙◌, arith, equal, Bool-cases,
  inl, inr,
}
use seta_training.Jwks.{
  PublicKey, to_jwk, jwk_to_rsa, low_bytes, reverse_onto, big_bytes, set_bytes, put_uint32,
  strip_zeros,
}
use seta_training.Jwks.Base64.{AreBytes, decode-encode}

-- The number whose bytes, the last one first, are given.
abbrev value : List ℕ → ℕ
value [] = 0
value (b ∷ bs) = value bs * 256 + b

value-low_bytes : (fuel n : ℕ) → n < fuel → value (low_bytes fuel n) ≡ n
unfolding low_bytes
value-low_bytes zero n h = absurd (omega arith)
value-low_bytes (suc fuel) n h = elim (Bool-cases (equal n 0)) [
  | inl empty ↦ ground (arith, empty)
  | inr more ↦ ground (arith, more, value-low_bytes fuel (n / 256))
]

low_bytes-AreBytes : (fuel n : ℕ) → AreBytes (low_bytes fuel n)
unfolding low_bytes
low_bytes-AreBytes zero n = tt
low_bytes-AreBytes (suc fuel) n = elim (Bool-cases (equal n 0)) [
  | inl empty ↦ rw empty tt
  | inr more ↦ rw more ((omega arith), low_bytes-AreBytes fuel (n / 256))
]

reverse_onto-AreBytes : (xs ys : List ℕ) → AreBytes xs → AreBytes ys → AreBytes (reverse_onto xs ys)
unfolding reverse_onto
reverse_onto-AreBytes [] ys h k = k
reverse_onto-AreBytes (x ∷ xs) ys h k = reverse_onto-AreBytes xs (x ∷ ys) h.1 (h.0, k)

-- Reading a reversed number goes on from the number.
set_bytes-reverse_onto :
    (xs ys : List ℕ) → set_bytes 0 (reverse_onto xs ys) ≡ set_bytes (value xs) ys
unfolding set_bytes reverse_onto
set_bytes-reverse_onto [] ys = refl
set_bytes-reverse_onto (x ∷ xs) ys = set_bytes-reverse_onto xs (x ∷ ys)

set_bytes-big_bytes : (n : ℕ) → set_bytes 0 (big_bytes n) ≡ n
unfolding big_bytes set_bytes
set_bytes-big_bytes n =
    set_bytes-reverse_onto (low_bytes (n + 1) n) [] ∙ value-low_bytes (n + 1) n (omega arith)

big_bytes-AreBytes : (n : ℕ) → AreBytes (big_bytes n)
unfolding big_bytes
big_bytes-AreBytes n =
    reverse_onto-AreBytes (low_bytes (n + 1) n) [] (low_bytes-AreBytes (n + 1) n) tt

strip_zeros-AreBytes : (bs : List ℕ) → AreBytes bs → AreBytes (strip_zeros bs)
unfolding strip_zeros
strip_zeros-AreBytes [] h = tt
strip_zeros-AreBytes (b ∷ []) h = h
strip_zeros-AreBytes (b ∷ c ∷ bs) h = elim (Bool-cases (equal b 0)) [
  | inl empty ↦ rw empty (strip_zeros-AreBytes (c ∷ bs) h.1)
  | inr more ↦ rw more h
]

set_bytes-strip_zeros : (bs : List ℕ) → set_bytes 0 (strip_zeros bs) ≡ set_bytes 0 bs
unfolding strip_zeros set_bytes
set_bytes-strip_zeros [] = refl
set_bytes-strip_zeros (b ∷ []) = refl
set_bytes-strip_zeros (b ∷ c ∷ bs) = elim (Bool-cases (equal b 0)) [
  | inl empty ↦ ground (arith, empty, set_bytes-strip_zeros (c ∷ bs))
  | inr more ↦ rw more refl
]

set_bytes-put_uint32 : (n : ℕ) → n < 4294967296 → set_bytes 0 (put_uint32 n) ≡ n
unfolding set_bytes put_uint32
set_bytes-put_uint32 n h = omega arith

put_uint32-AreBytes : (n : ℕ) → AreBytes (put_uint32 n)
unfolding put_uint32
put_uint32-AreBytes n = (omega arith, (omega arith, (omega arith, (omega arith, tt))))

-- A key that is published as a JWK is read as the same key, if its exponent has at most 32 bits.
pub jwk_to_rsa-to_jwk :
    (key : PublicKey) → key.exponent < 4294967296 → jwk_to_rsa (to_jwk key) ≡ some key
unfolding to_jwk jwk_to_rsa
jwk_to_rsa-to_jwk key h = ground (
  arith,
  decode-encode (big_bytes key.modulus) (big_bytes-AreBytes key.modulus),
  decode-encode (strip_zeros (put_uint32 key.exponent))
      (strip_zeros-AreBytes (put_uint32 key.exponent) (put_uint32-AreBytes key.exponent)),
  set_bytes-big_bytes key.modulus,
  set_bytes-strip_zeros (put_uint32 key.exponent),
  set_bytes-put_uint32 key.exponent h,
)
