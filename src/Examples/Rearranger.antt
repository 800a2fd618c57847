-- ===== src/Examples/Rearranger.antt =====
-- Instances of the theorems on the decisions of src/clib/pio_rearrange.c.
use parallel_io.Base.{ℕ, zero, List, [], ◌∷◌}
use parallel_io.Base.Int.{ℤ, pos}

-- Two tasks hold the elements 1 and 3 of three, and a hole.
abbrev two_maps : ℕ → List ℤ
two_maps zero = pos 1 ∷ []
two_maps r = pos 3 ∷ pos 0 ∷ []
