-- ===== src/Prelude/Strings.antt =====
-- `strings.Split` at a comma.
use Prim.Native.String.{String, [] as nil, ◌∷◌ as cons}
use Prim.Native.Char.{Char, code}
use mathlib.Core.List.{List, [], ◌∷◌}
use seta_training.Prelude.Tests.{equal, if◌then◌else◌}

-- A character in front of the first of some texts.
abbrev pub in_front : Char → List String → List String
in_front c [] = cons c nil ∷ []
in_front c (s ∷ ss) = cons c s ∷ ss

unfoldable pub split_commas : String → List String
split_commas nil = nil ∷ []
split_commas (cons c s) =
    let rest = split_commas s in if equal (code c) 44 then nil ∷ rest else in_front c rest
