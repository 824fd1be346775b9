-- ===== src/Base/Integers.antt =====
-- Integers over the native numbers, and numbers as they are printed.
use Prim.Native.Nat.{ℕ, zero, suc, ◌+◌, ◌/◌, ◌%◌}
use mathlib.Core.Bool.{Bool, false}
use mathlib.Core.List.{List, [], ◌∷◌, ◌++◌}
use gstd_1_x.Base.Tests.{ltb, ◌==◌, if◌then◌else◌}

-- negsuc n is -(n + 1).
pub data ℤ : Type 0 where
  pos : ℕ → ℤ
  negsuc : ℕ → ℤ

abbrev pub is_zero : ℤ → Bool
is_zero (pos n) = n == 0
is_zero (negsuc n) = false

-- The digits of a number of at most as many digits as the fuel.
unfoldable pub digits : ℕ → ℕ → List ℕ
digits zero n = []
digits (suc fuel) n =
    let front = digits fuel (n / 10) in
    if ltb n 10 then (48 + n) ∷ [] else front ++ (48 + n % 10) ∷ []

-- "%u", of a number of at most twenty digits.
abbrev pub decimal : ℕ → List ℕ
decimal n = digits 20 n

-- "%d"
abbrev pub signed : ℤ → List ℕ
signed (pos n) = decimal n
signed (negsuc n) = 45 ∷ decimal (n + 1)
