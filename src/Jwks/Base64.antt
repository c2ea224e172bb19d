-- ===== src/Jwks/Base64.antt =====
-- `base64.RawURLEncoding`: a text of its alphabet is given by the places of its letters, 0 to 63.
use seta_training.Prelude.{
  ℕ, ◌+◌, ◌*◌, ◌/◌, ◌%◌, ◌<◌, Option, none, some, List, [], ◌∷◌, ◌≡◌, refl, arith, All, ap,
}

-- Three bytes are four letters; there is no padding.
unfoldable pub encode : List ℕ → List ℕ
encode [] = []
encode (a ∷ []) = a / 4 ∷ a % 4 * 16 ∷ []
encode (a ∷ b ∷ []) = a / 4 ∷ (a % 4 * 16 + b / 16) ∷ b % 16 * 4 ∷ []
encode (a ∷ b ∷ c ∷ bs) = a / 4 ∷ (a % 4 * 16 + b / 16) ∷ (b % 16 * 4 + c / 64) ∷ c % 64 ∷ encode bs

abbrev after_three : ℕ → ℕ → ℕ → Option (List ℕ) → Option (List ℕ)
after_three a b c none = none
after_three a b c (some bs) = some (a ∷ b ∷ c ∷ bs)

-- A single letter at the end is an error; the bits that are over are not looked at.
unfoldable pub decode : List ℕ → Option (List ℕ)
decode [] = some []
decode (x ∷ []) = none
decode (x ∷ y ∷ []) = some ((x * 4 + y / 16) ∷ [])
decode (x ∷ y ∷ z ∷ []) = some ((x * 4 + y / 16) ∷ (y % 16 * 16 + z / 4) ∷ [])
decode (x ∷ y ∷ z ∷ t ∷ rest) =
    after_three (x * 4 + y / 16) (y % 16 * 16 + z / 4) (z % 4 * 64 + t) (decode rest)

abbrev pub AreBytes : List ℕ → Type 0
AreBytes = All (λ b. b < 256)

one_byte : (a : ℕ) → a < 256 → a / 4 * 4 + a % 4 * 16 / 16 ≡ a
one_byte a h = omega arith

first_byte : (a b : ℕ) → a < 256 → b < 256 → a / 4 * 4 + (a % 4 * 16 + b / 16) / 16 ≡ a
first_byte a b h k = omega arith

last_byte : (a b : ℕ) → a < 256 → b < 256 → (a % 4 * 16 + b / 16) % 16 * 16 + b % 16 * 4 / 4 ≡ b
last_byte a b h k = omega arith

middle_byte :
    (a b c : ℕ)
    → a < 256
    → b < 256
    → c < 256
    → (a % 4 * 16 + b / 16) % 16 * 16 + (b % 16 * 4 + c / 64) / 4 ≡ b
middle_byte a b c h k l = omega arith

third_byte : (b c : ℕ) → b < 256 → c < 256 → (b % 16 * 4 + c / 64) % 4 * 64 + c % 64 ≡ c
third_byte b c h k = omega arith

-- What is encoded is decoded.
pub decode-encode : (bs : List ℕ) → AreBytes bs → decode (encode bs) ≡ some bs
unfolding decode encode
decode-encode [] h = refl
decode-encode (a ∷ []) h = ap (λ n. some (n ∷ [])) (one_byte a h.0)
decode-encode (a ∷ b ∷ []) h = ground (arith, first_byte a b h.0 h.1.0, last_byte a b h.0 h.1.0)
decode-encode (a ∷ b ∷ c ∷ bs) h = ground (
  arith,
  decode-encode bs h.1.1.1,
  first_byte a b h.0 h.1.0,
  middle_byte a b c h.0 h.1.0 h.1.1.0,
  third_byte b c h.1.0 h.1.1.0,
)
