-- ===== src/Sort.antt =====
-- The sort over a communicator and the check for duplicates, src/clib/parallel_sort.c: `cmp`,
-- `partition`, `is_unique`, `parallel_sort` and `run_unique_check`. MPI is a parameter with the
-- documented effect of its collectives; `rand` is a parameter, `qsort` is a sort by `cmp`. The
-- allocations succeed.

pub mod Count
pub mod Partition
pub mod Blocks
pub mod Exchange
pub mod Global
pub mod Unique
use parallel_io.Base.{
  ℕ, zero, suc, ◌+◌, ◌-◌, ◌*◌, ◌/◌, ◌<◌, ◌≡◌, Bool, true, false, not, ◌||◌, Option, none, some,
  List, [], ◌∷◌, ◌++◌, length, get_or, replicate, ltb, ◌==◌, if◌then◌else◌, foldl,
}
use parallel_io.Base.Int.{ℤ, pos, negsuc, ◌==ℤ◌, ltb_ℤ}
use parallel_io.Base.Ranks.{tabulate, concat_to, sum_to, max_to}

unfoldable pub cmp : ℤ → ℤ → ℤ
cmp p1 p2 = if p1 ==ℤ p2 then pos 0 else if ltb_ℤ p1 p2 then negsuc 0 else pos 1

-- `qsort` with `cmp`.
unfoldable pub insert : ℤ → List ℤ → List ℤ
unfolding cmp
insert x [] = x ∷ []
insert x (y ∷ ys) =
    let rest = insert x ys in if ltb_ℤ (pos 0) (cmp x y) then y ∷ rest else x ∷ y ∷ ys

unfoldable pub qsort : List ℤ → List ℤ
unfolding insert
qsort [] = []
qsort (x ∷ xs) = insert x (qsort xs)

-- The segment of the array that `partition` works on: what stands before `first`, and what stands
-- from `first` on, before `i`.
pub record Segment : Type 0 where
  pub below : List ℤ
  pub others : List ℤ

-- The first loop: `first` goes on to the first entry that is not below the pivot.
unfoldable pub skip_below : ℤ → List ℤ → List ℤ × List ℤ
skip_below pivot [] = ([], [])
skip_below pivot (x ∷ xs) =
    let (below, rest) = skip_below pivot xs in
    if not (ltb_ℤ x pivot) then ([], x ∷ xs) else (x ∷ below, rest)

-- `*i` is swapped with `*first`, and `first` goes on.
abbrev pub swap : ℤ → List ℤ → List ℤ → Segment
swap x below [] = record { below = below ++ x ∷ []; others = [] }
swap x below (m ∷ ms) = record { below = below ++ x ∷ []; others = ms ++ m ∷ [] }

-- One round of the second loop, at `*i`.
unfoldable pub partition_step : ℤ → Segment → ℤ → Segment
partition_step pivot s x =
    if ltb_ℤ x pivot then swap x s.below s.others else record s { others = s.others ++ x ∷ [] }

unfoldable pub partition_loop : ℤ → Segment → List ℤ → Segment
unfolding partition_step
partition_loop pivot s [] = s
partition_loop pivot s (x ∷ xs) = partition_loop pivot (partition_step pivot s x) xs

-- The second loop, from where the first one stopped.
unfoldable pub resume : ℤ → List ℤ × List ℤ → Segment
unfolding partition_loop
resume pivot (below, []) = record { below = below; others = [] }
resume pivot (below, x ∷ xs) = partition_loop pivot (record { below = below; others = x ∷ [] }) xs

-- The array after `partition`, split at the returned pointer.
unfoldable pub partition : ℤ → List ℤ → Segment
unfolding skip_below resume
partition pivot v = resume pivot (skip_below pivot v)

-- `none`: the assertion fails.
unfoldable pub unique_loop : ℤ → List ℤ → Option Bool
unique_loop previous [] = some true
unique_loop previous (x ∷ xs) =
    let rest = unique_loop x xs in
    if x ==ℤ pos 0
    then rest
    else if ltb_ℤ x previous
    then none
    else if x ==ℤ previous
    then some false
    else rest

unfoldable pub is_unique : List ℤ → Option Bool
unfolding unique_loop
is_unique [] = some true
is_unique (x ∷ xs) = if length (x ∷ xs) == 1 then some true else unique_loop x xs

-- The blocks that the successive calls of `partition` leave between the positions `pivot_pos`.
unfoldable pub blocks : List ℤ → List ℤ → List (List ℤ)
unfolding partition
blocks [] v = v ∷ []
blocks (pivot ∷ pivots) v = let s = partition pivot v in s.below ∷ blocks pivots s.others

-- `rand` as a function of the rank and the round, and RAND_MAX + 1.
unfoldable pub sample_pivots : ℕ → (ℕ → ℕ) → ℕ → List ℤ → List ℤ
sample_pivots size rand rand_end v =
    if length v == 0
    then replicate (size - 1) (pos 0)
    else tabulate (size - 1) (λ i. get_or v (length v * rand i / rand_end) (pos 0))

-- Every `(size - 1)`-th of the sorted samples.
unfoldable pub choose_pivots : ℕ → List ℤ → List ℤ
choose_pivots size pivots = tabulate (size - 1) (λ i. get_or pivots ((i + 1) * (size - 1)) (pos 0))

-- The displacements of consecutive blocks with the counts `count 0`, `count 1`, ...
unfoldable pub displs : ℕ → (ℕ → ℕ) → List ℕ
displs size count = tabulate size (λ i. sum_to i count)

-- What a rank gives to MPI_Alltoallv for its side of sending, and of receiving.
pub record Send : Type 0 where
  pub data_out : List ℤ
  pub sendcounts : List ℕ
  pub sdispls : List ℕ

pub record Receive : Type 0 where
  pub recvcounts : List ℕ
  pub rdispls : List ℕ

-- The arguments that say that a rank's data are the blocks `block 0`, `block 1`, ... in a row.
abbrev pub sends_blocks : ℕ → (ℕ → List ℤ) → Send
sends_blocks size block = record {
  data_out = concat_to size block;
  sendcounts = tabulate size (λ i. length (block i));
  sdispls = displs size (λ i. length (block i));
}

abbrev pub receives_blocks : ℕ → (ℕ → List ℤ) → Receive
receives_blocks size block = record {
  recvcounts = tabulate size (λ i. length (block i));
  rdispls = displs size (λ i. length (block i));
}

-- An MPI communicator: MPI_Comm_size, MPI_Allgather, MPI_Alltoallv and MPI_Allreduce with MPI_MAX, as
-- functions of what each rank brings. Every rank gets the same from the first and the last.
pub record Comm : Type 1 where
  pub size : ℕ
  pub allgather : {A : Type 0} → (ℕ → List A) → List A
  pub alltoallv : (ℕ → Send) → (ℕ → Receive) → ℕ → List ℤ
  pub allreduce_max : (ℕ → ℕ) → ℕ
  pub allgather-concat : {A : Type 0} (f : ℕ → List A) → allgather f ≡ concat_to size f
  -- Where counts and displacements say so, block `r` of rank `s` becomes block `s` of rank `r`.
  pub alltoallv-blocks :
      (block : ℕ → ℕ → List ℤ) (sends : ℕ → Send) (receives : ℕ → Receive)
      → ((s : ℕ) → s < size → sends s ≡ sends_blocks size (block s))
      → ((r : ℕ) → r < size → receives r ≡ receives_blocks size (λ s. block s r))
      → (r : ℕ) → r < size
      → alltoallv sends receives r ≡ concat_to size (λ s. block s r)
  pub allreduce_max-max : (f : ℕ → ℕ) → allreduce_max f ≡ max_to size f

abbrev pub dups : Option Bool → ℕ
dups (some false) = 1
dups o = 0

abbrev pub is_none : Option Bool → Bool
is_none none = true
is_none (some b) = false

-- Some rank below `n` stops at its assertion.
unfoldable pub stops : ℕ → (ℕ → Option Bool) → Bool
stops zero f = false
stops (suc n) f = stops n f || is_none (f n)

module _ (comm : Comm) (rand : ℕ → ℕ → ℕ) (rand_end : ℕ) where
  open comm use {size, allgather, alltoallv, allreduce_max}

  -- The pivots that every rank ends up with.
  unfoldable pub pivots_of : (ℕ → List ℤ) → List ℤ
  unfolding choose_pivots qsort sample_pivots
  pivots_of v =
      choose_pivots size
        (qsort (allgather (λ rank. sample_pivots size (rand rank) rand_end (v rank))))

  -- Block `i` of a rank after the partitions.
  unfoldable pub block_of : (ℕ → List ℤ) → ℕ → ℕ → List ℤ
  unfolding blocks pivots_of
  block_of v rank i = get_or (blocks (pivots_of v) (v rank)) i []

  unfoldable pub block_sizes : (ℕ → List ℤ) → List ℕ
  unfolding block_of
  block_sizes v = allgather (λ rank. tabulate size (λ i. length (block_of v rank i)))

  unfoldable pub send_of : (ℕ → List ℤ) → ℕ → Send
  unfolding block_of block_sizes displs
  send_of v rank =
      let count : ℕ → ℕ = λ i. get_or (block_sizes v) (rank * size + i) 0 in
      record {
        data_out = concat_to size (block_of v rank);
        sendcounts = tabulate size count;
        sdispls = displs size count;
      }

  unfoldable pub receive_of : (ℕ → List ℤ) → ℕ → Receive
  unfolding block_sizes displs
  receive_of v rank =
      let count : ℕ → ℕ = λ i. get_or (block_sizes v) (rank + size * i) 0 in
      record { recvcounts = tabulate size count; rdispls = displs size count }

  -- `v rank` is the data of a rank; the result is the new data of each.
  unfoldable pub parallel_sort : (ℕ → List ℤ) → ℕ → List ℤ
  unfolding send_of receive_of qsort
  parallel_sort v rank =
      let v2 = alltoallv (send_of v) (receive_of v) rank in
      if ltb 0 (length v2) then qsort v2 else v2

  unfoldable pub run_unique_check : (ℕ → List ℤ) → Option Bool
  unfolding parallel_sort is_unique stops
  run_unique_check v =
      let unique : ℕ → Option Bool = λ rank. is_unique (parallel_sort v rank) in
      if stops size unique then none else some (ltb 0 (allreduce_max (λ rank. dups (unique rank))))
