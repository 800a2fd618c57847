-- ===== src/Examples/SortedCopy.antt =====
-- Two variables of three elements, for `pio_sorted_copy` of src/clib/pio_darray_int.c.
use parallel_io.Base.{ℕ, ◌+◌, ◌*◌, ◌<◌, ◌≡◌, refl, some, List, [], ◌∷◌, arith, get_elem?}
use parallel_io.Base.Error.{Result, ok, err, ebadtype}
use parallel_io.Base.Int.{pos}
use parallel_io.Support.Types.{PioType}
use parallel_io.SortedCopy.{Cells, copy_in, sorted_copy}
use parallel_io.SortedCopy.RoundTrip.{sorted_copy-sorted_copy}

abbrev a_remap : List ℕ
a_remap = 2 ∷ 0 ∷ 1 ∷ []

abbrev squares : Cells ℕ
squares c = c * c

abbrev nothing_yet : Cells ℕ
nothing_yet c = 0

sorted_copy_unknown_type :
    sorted_copy PioType.other a_remap squares nothing_yet 2 (pos 0) ≡ err ebadtype
unfolding sorted_copy
sorted_copy_unknown_type = refl

first_cells : Result (Cells ℕ) → List ℕ
first_cells (ok cells) = cells 0 ∷ cells 1 ∷ cells 2 ∷ cells 3 ∷ cells 4 ∷ cells 5 ∷ []
first_cells (err e) = []

both_variables :
    first_cells (sorted_copy PioType.int a_remap squares nothing_yet 2 (pos 0))
    ≡ 4 ∷ 0 ∷ 1 ∷ 25 ∷ 9 ∷ 16 ∷ []
unfolding sorted_copy copy_in first_cells
both_variables = refl

sorted_copy-sorted_copy_example :
    (out : Cells ℕ) × (back : Cells ℕ) × (sorted_copy PioType.int a_remap squares nothing_yet 2
        (pos 0)
      ≡ ok out)
    × (sorted_copy PioType.int a_remap out nothing_yet 2 (pos 1) ≡ ok back)
    × ((i w r : ℕ)
        → get_elem? a_remap i ≡ some r
        → w < 2
        → (out (i + 3 * w) ≡ squares (r + 3 * w)) × (back (r + 3 * w) ≡ squares (r + 3 * w)))
sorted_copy-sorted_copy_example =
    sorted_copy-sorted_copy PioType.int a_remap 2 squares nothing_yet nothing_yet (pos 1) (λ e. cc)
      ((omega arith, (omega arith, tt)), ((omega arith, tt), (tt, tt)))
      ((omega arith), (omega arith, (omega arith, tt))) refl
