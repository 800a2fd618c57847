-- ===== src/Examples/BoxDecomp.antt =====
-- Tests and instances for src/clib/pioc_sc.c.
use parallel_io.Base.{ℕ, ◌+◌, ◌*◌, ◌/◌, ◌≡◌, refl, true, false, some, List, [], ◌∷◌, map, arith}
use parallel_io.Base.Error.{ok}
use parallel_io.Base.Int.{ℤ, pos}
use parallel_io.Support.Types.{Build, int, find_mpi_type, mpi_int}
use native.Mathlib.Nat.{mod-eq-zero_of_dvd}
use parallel_io.BoxDecomp.Gcd.{gcd}
use parallel_io.BoxDecomp.GcdList.{IsGcdAll}
use parallel_io.BoxDecomp.GcdArray.{lgcd_array, lgcd_array_narrows}
use parallel_io.BoxDecomp.OneDim.{compute_one_dim, IsPartition, compute_one_dim-IsPartition}
use parallel_io.BoxDecomp.StartCount.Plan.{Box}
use parallel_io.BoxDecomp.StartCount.Total.{IsDecomposition, calc_start_and_count-IsDecomposition}

gcd_runs : gcd (pos 12) (pos 18) ≡ pos 6
unfolding gcd
gcd_runs = refl

-- Seven elements over three tasks: the last task gets the one left over.
one_dim_runs : map (λ r. (compute_one_dim 7 3 r).count) (0 ∷ 1 ∷ 2 ∷ []) ≡ 2 ∷ 2 ∷ 3 ∷ []
unfolding compute_one_dim
one_dim_runs = refl

compute_one_dim-IsPartition_example : IsPartition 7 3 (compute_one_dim 7 3)
compute_one_dim-IsPartition_example = compute_one_dim-IsPartition 7 3 (omega arith)

abbrev build : Build
build = record { mpi_serial = false; netcdf4 = true }

-- A stand-in for the rounded quotient of floats.
abbrev rounded : ℕ → ℤ → ℤ
rounded a (pos b) = pos ((2 * a + b) / (2 * b))
rounded a b = pos 0

int_known : find_mpi_type build int ≡ ok (mpi_int, 4)
unfolding find_mpi_type
int_known = refl

calc_start_and_count-IsDecomposition_example :
    (u : ℕ) × (bs : List Box) × IsDecomposition build rounded 1048576 int (4000 ∷ 3000 ∷ []) 4 u bs
calc_start_and_count-IsDecomposition_example =
    calc_start_and_count-IsDecomposition build rounded 1048576 int (4000 ∷ 3000 ∷ []) 4 int_known
      (omega arith) (omega arith)

lgcd_array_narrows_example :
    (lgcd_array (pos 4294967296 ∷ pos 3 ∷ []) ≡ some (pos 3)) × ¬ IsGcdAll 3 (4294967296 ∷ 3 ∷ [])
lgcd_array_narrows_example =
    lgcd_array_narrows 1 3 (omega arith) (omega arith) (omega arith)
      (λ h. absurd (omega (arith, mod-eq-zero_of_dvd 3 h)))
