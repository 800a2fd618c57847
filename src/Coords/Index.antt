-- ===== src/Coords/Index.antt =====
-- Row-major indices over the natural numbers: what the two functions compute on offsets that are
-- not negative.
use parallel_io.Base.Dims.{product}
use parallel_io.Base.{ap₂, ℕ, ◌+◌, ◌*◌, ◌/◌, ◌%◌, ◌<◌, ◌≡◌, refl, ap, List, [], ◌∷◌, map, arith}
use parallel_io.Base.Int.{ℤ, pos, +ℤ-pos, *ℤ-pos}
use parallel_io.Coords.{stride_walk, coord_to_lindex}

-- The row-major index of coordinates in an array of these lengths.
unfoldable pub lindex : List ℕ → List ℕ → ℕ
unfolding product
lindex [] gs = 0
lindex (c ∷ cs) [] = 0
lindex (c ∷ cs) (g ∷ gs) = c * product gs + lindex cs gs

-- Coordinates within the lengths, one for each.
abbrev pub InBox : List ℕ → List ℕ → Type 0
InBox [] [] = Unit {0}
InBox [] (g ∷ gs) = ⊥
InBox (c ∷ cs) [] = ⊥
InBox (c ∷ cs) (g ∷ gs) = (c < g) × InBox cs gs

pub lindex-lt : (cs gs : List ℕ) → InBox cs gs → lindex cs gs < product gs
unfolding lindex
lindex-lt [] [] h = omega arith
lindex-lt [] (g ∷ gs) h = elim h [ ]
lindex-lt (c ∷ cs) [] h = elim h [ ]
lindex-lt (c ∷ cs) (g ∷ gs) (p, h) = grind (arith, lindex-lt cs gs h)

stride_walk-pos :
    (cs gs : List ℕ)
    → InBox cs gs
    → stride_walk (map pos cs) (map pos gs) ≡ (pos (lindex cs gs), pos (product gs))
unfolding stride_walk lindex
stride_walk-pos [] [] h = refl
stride_walk-pos [] (g ∷ gs) h = elim h [ ]
stride_walk-pos (c ∷ cs) [] h = elim h [ ]
stride_walk-pos (c ∷ cs) (g ∷ gs) (p, h) =
    rw (stride_walk-pos cs gs h, *ℤ-pos c (product gs), +ℤ-pos, *ℤ-pos (product gs) g)
      (ap₂ (λ (a b : ℕ). (pos a, pos b)) (omega arith) (omega arith))

-- On coordinates in the box `coord_to_lindex` is the row-major index.
pub coord_to_lindex-lindex :
    (cs gs : List ℕ) → InBox cs gs → coord_to_lindex (map pos cs) (map pos gs) ≡ pos (lindex cs gs)
unfolding coord_to_lindex
coord_to_lindex-lindex cs gs h = ap (λ (t : ℤ × ℤ). t.0) (stride_walk-pos cs gs h)

-- The coordinates of an index, and what is left of it.
unfoldable pub coords : List ℕ → ℕ → List ℕ
unfolding product
coords [] n = []
coords (g ∷ gs) n = (n / product gs) % g ∷ coords gs n
