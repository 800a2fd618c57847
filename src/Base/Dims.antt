-- ===== src/Base/Dims.antt =====
-- Lists of dimension lengths.
use parallel_io.Base.{ℕ, ◌*◌, ◌<◌, List, [], ◌∷◌, arith}

-- Every dimension has an element.
abbrev pub AllPos : List ℕ → Type 0
AllPos [] = Unit {0}
AllPos (g ∷ gs) = (0 < g) × AllPos gs

-- The number of elements of an array.
unfoldable pub product : List ℕ → ℕ
product [] = 1
product (g ∷ gs) = g * product gs

pub product-pos : (gs : List ℕ) → AllPos gs → 0 < product gs
unfolding product
product-pos [] a = omega arith
product-pos (g ∷ gs) (p, a) = grind (arith, product-pos gs a)
