-- ===== src/Prelude/Text.antt =====
-- Texts as bytes: a literal is ASCII, so its code points are its bytes.
use Prim.Native.Nat.{ℕ}
use Prim.Native.Char.{code}
use Prim.Native.String.{String}
use mathlib.Core.List.{List, [], ◌∷◌}

abbrev pub bytes : String → List ℕ
bytes String.[] = []
bytes (String.◌∷◌ first others) = code first ∷ bytes others
