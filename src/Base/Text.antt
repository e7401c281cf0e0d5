-- ===== src/Base/Text.antt =====
-- The characters of a native string, as the bytes that C has.
use Prim.Native.Char.{code}
use Prim.Native.String.{String}
use Prim.Native.Nat.{ℕ}
use mathlib.Core.List.{List, [], ◌∷◌}

abbrev pub codes : String → List ℕ
codes String.[] = []
codes (String.◌∷◌ letter rest) = code letter ∷ codes rest
