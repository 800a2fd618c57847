-- ===== src/Regions/BufferSize.antt =====
-- The size of the IO buffer, src/clib/pio_rearrange.c: `compute_maxIObuffersize`, on the lists of
-- regions of all IO tasks; MPI_Allreduce with MPI_MAX takes the maximum over the tasks.
use parallel_io.Base.{
  length-drop, ℕ, ◌+◌, ◌*◌, ◌<◌, max, ◌≡◌, refl, ◌∙◌, none, some, Option, List, [], ◌∷◌, arith, ltb,
  if◌then◌else◌, length, drop,
}
use parallel_io.Base.Int.{ℤ}
use parallel_io.Base.Dims.{product}
use parallel_io.Regions.{Region}
use parallel_io.Regions.Find.{Inside}
use parallel_io.Regions.Cover.{Covers}

-- The body of the loop over the regions: what one region adds to `totiosize`.
region_size : List ℕ → ℕ
region_size [] = 0
region_size (c ∷ count) = if ltb 0 c then c * product count else 0

-- The loop over the regions of one task.
region_sizes : ℕ → List Region → ℕ
unfolding region_size
region_sizes totiosize [] = totiosize
region_sizes totiosize (region ∷ rs) = region_sizes (totiosize + region_size region.count) rs

-- MPI_MAX of what the tasks hand in.
all_max : List (List Region) → ℕ
unfolding region_sizes
all_max [] = 0
all_max (rs ∷ tasks) = max (region_sizes 0 rs) (all_max tasks)

-- The `maxiobuflen` that each task gets; `none`: the assertion that it is positive fails.
pub compute_max_io_buffer_size : List (List Region) → Option ℕ
unfolding all_max
compute_max_io_buffer_size tasks =
    let totiosize = all_max tasks in if ltb 0 totiosize then some totiosize else none

region_size-product :
    (g : ℕ) (gs corner count : List ℕ)
    → Inside corner count (g ∷ gs)
    → region_size count ≡ product count
unfolding region_size product
region_size-product g gs [] [] i = elim i [ ]
region_size-product g gs [] (c ∷ cs) i = elim i [ ]
region_size-product g gs (s ∷ ss) [] i = elim i [ ]
region_size-product g gs (s ∷ ss) (c ∷ cs) (p, q, i) = ground arith

region_sizes-Covers :
    (g : ℕ) (gs : List ℕ) (t n : ℕ) (cells : List ℤ) (rs : List Region)
    → Covers (g ∷ gs) n cells rs
    → region_sizes t rs ≡ t + length cells
unfolding region_sizes
region_sizes-Covers g gs t n cells [] c = rw c (omega arith)
region_sizes-Covers g gs t n cells (r ∷ rs) (e, d, p, q, c) =
    let len = product r.count in
    let s = region_size-product g gs d.corner r.count d.inside in
    let ih = region_sizes-Covers g gs (t + region_size r.count) (n + len) (drop len cells) rs c in
    ih ∙ omega (arith, s, length-drop len cells)

-- Each task's regions take that task's mapped entries.
abbrev pub AllCover : List ℕ → List (List ℤ) → List (List Region) → Type 0
AllCover gs [] [] = Unit {0}
AllCover gs (cells ∷ maps) (rs ∷ tasks) = ((n : ℕ) × Covers gs n cells rs) × AllCover gs maps tasks
AllCover gs _ _ = ⊥

-- The largest number of entries that a task maps.
abbrev pub most_entries : List (List ℤ) → ℕ
most_entries [] = 0
most_entries (cells ∷ maps) = max (length cells) (most_entries maps)

all_max-AllCover :
    (g : ℕ) (gs : List ℕ) (maps : List (List ℤ)) (tasks : List (List Region))
    → AllCover (g ∷ gs) maps tasks
    → all_max tasks ≡ most_entries maps
unfolding all_max
all_max-AllCover g gs [] [] c = refl
all_max-AllCover g gs [] (rs ∷ tasks) c = elim c [ ]
all_max-AllCover g gs (cells ∷ maps) [] c = elim c [ ]
all_max-AllCover g gs (cells ∷ maps) (rs ∷ tasks) ((n, c), a) =
    let e : region_sizes 0 rs ≡ length cells =
      region_sizes-Covers g gs 0 n cells rs c ∙ omega arith in
    rw (e, all_max-AllCover g gs maps tasks a) refl

-- For an array with a dimension, tasks whose regions take their mapped entries, and a task with such
-- an entry, the assertion holds and `maxiobuflen` is the largest number of entries that a task maps.
pub compute_max_io_buffer_size-AllCover :
    (g : ℕ) (gs : List ℕ) (maps : List (List ℤ)) (tasks : List (List Region))
    → AllCover (g ∷ gs) maps tasks
    → 0 < most_entries maps
    → compute_max_io_buffer_size tasks ≡ some (most_entries maps)
unfolding compute_max_io_buffer_size
compute_max_io_buffer_size-AllCover g gs maps tasks c p =
    rw (all_max-AllCover g gs maps tasks c) (ground arith)
