-- ===== src/Auth/Import/Trim.antt =====
-- `strings.TrimSpace` and `strings.EqualFold`, which the reading of a file of users goes by.
use Prim.Native.String.{String, [], ◌∷◌}
use Prim.Native.Char.{code}
use seta_training.Prelude.{ℕ, ◌+◌, Bool, true, false, ◌&&◌, ◌||◌, leb, equal, if◌then◌else◌, ◌==◌}

-- `unicode.IsSpace`
abbrev pub is_space : ℕ → Bool
is_space n =
    (leb 9 n && leb n 13)
    || equal n 32
    || equal n 133
    || equal n 160
    || equal n 5760
    || (leb 8192 n && leb n 8202)
    || equal n 8232
    || equal n 8233
    || equal n 8239
    || equal n 8287
    || equal n 12288

unfoldable pub trim_left : String → String
trim_left [] = []
trim_left (c ∷ s) = let rest = trim_left s in if is_space (code c) then rest else c ∷ s

unfoldable pub trim_right : String → String
trim_right [] = []
trim_right (c ∷ s) =
    let rest = trim_right s in if is_space (code c) && rest == "" then "" else c ∷ rest

-- `strings.TrimSpace`
unfoldable pub trim_space : String → String
unfolding trim_left trim_right
trim_space s = trim_left (trim_right s)

-- The lower case of a letter of the header; `ſ` and the Kelvin sign fold to `s` and `k`.
abbrev pub fold : ℕ → ℕ
fold n =
    if leb 65 n && leb n 90
    then n + 32
    else if equal n 383
    then 115
    else if equal n 8490
    then 107
    else n

-- `strings.EqualFold` against a text of small letters.
unfoldable pub equal_fold : String → String → Bool
equal_fold [] [] = true
equal_fold [] (d ∷ t) = false
equal_fold (c ∷ s) [] = false
equal_fold (c ∷ s) (d ∷ t) = equal (fold (code c)) (code d) && equal_fold s t
