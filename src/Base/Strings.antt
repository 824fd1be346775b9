-- ===== src/Base/Strings.antt =====
-- C strings as lists of bytes: literals, ASCII case, and strings that are free of a byte.
use Prim.Native.Nat.{ℕ, ◌+◌}
use Prim.Native.Char.{code}
use Prim.Native.String.{String}
use mathlib.Core.Logic.{◌≢◌}
use mathlib.Core.Bool.{◌&&◌}
use mathlib.Core.List.{List, [], ◌∷◌, ◌++◌}
use gstd_1_x.Base.Tests.{leb, if◌then◌else◌}

abbrev pub Text : Type 0
Text = List ℕ

-- The bytes of a literal.
abbrev pub codes : String → Text
codes String.[] = []
codes (String.◌∷◌ c s) = code c ∷ codes s

abbrev pub space : ℕ
space = 32

abbrev pub slash : ℕ
slash = 47

-- ASCII lower case of one byte.
abbrev pub to_lower : ℕ → ℕ
to_lower c = if leb b'A' c && leb c b'Z' then c + 32 else c

-- The byte `d` does not occur.
abbrev pub Free : ℕ → Text → Type 0
Free d [] = Unit
Free d (c ∷ s) = (c ≢ d) × Free d s

pub Free-append : (d : ℕ) (s t : Text) → Free d s → Free d t → Free d (s ++ t)
Free-append d [] t hs ht = ht
Free-append d (c ∷ s) t hs ht = (hs.0, Free-append d s t hs.1 ht)
