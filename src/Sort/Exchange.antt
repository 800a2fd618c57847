-- ===== src/Sort/Exchange.antt =====
-- The counts and displacements of the exchange, and the data of a rank after it.
use parallel_io.Base.{
  ℕ, ◌+◌, ◌*◌, ◌<◌, ◌≡◌, refl, ap, ◌∙◌, List, [], ◌∷◌, arith, if◌then◌else◌, get_or, length, ltb,
}
use parallel_io.Base.Int.{ℤ}
use parallel_io.Base.Ranks.{
  tabulate, concat_to, sum_to, tabulate-ext, sum_to-ext, length-tabulate, get_or-tabulate,
  get_or-concat_to,
}
use parallel_io.Sort.{
  sends_blocks, receives_blocks, Comm, displs, qsort, block_of, block_sizes, send_of, receive_of,
  parallel_sort,
}

displs-ext : (n : ℕ) (f g : ℕ → ℕ) → ((i : ℕ) → i < n → f i ≡ g i) → displs n f ≡ displs n g
unfolding displs
displs-ext n f g e =
    tabulate-ext n (λ i. sum_to i f) (λ i. sum_to i g)
      (λ i h. sum_to-ext i f g (λ j l. e j (omega arith)))

module _ (comm : Comm) (rand : ℕ → ℕ → ℕ) (rand_end : ℕ) (v : ℕ → List ℤ) where
  open comm use {size, allgather-concat, alltoallv-blocks}

  abbrev block : ℕ → ℕ → List ℤ
  block = block_of comm rand rand_end v

  sizes : ℕ → List ℕ
  sizes s = tabulate size (λ i. length (block s i))

  block_sizes-length :
      (s i : ℕ)
      → s < size
      → i < size
      → get_or (block_sizes comm rand rand_end v) (s * size + i) 0 ≡ length (block s i)
  unfolding block_sizes sizes
  block_sizes-length s i h g =
      ap (λ l. get_or l (s * size + i) 0) (allgather-concat sizes)
      ∙ get_or-concat_to size size sizes s i 0
          (λ t l. length-tabulate size (λ j. length (block t j))) h g
      ∙ get_or-tabulate size (λ j. length (block s j)) i 0 g

  -- A rank tells MPI_Alltoallv the blocks that it has.
  send_of-blocks : (s : ℕ) → s < size → send_of comm rand rand_end v s ≡ sends_blocks size (block s)
  unfolding send_of
  send_of-blocks s h =
      let e = λ (i : ℕ) (g : i < size). block_sizes-length s i h g in
      let t = tabulate-ext size _ (λ i. length (block s i)) e in
      let d = displs-ext size _ (λ i. length (block s i)) e in rw (t, d) refl

  -- ... and the blocks that the others have for it.
  receive_of-blocks :
      (r : ℕ) → r < size → receive_of comm rand rand_end v r ≡ receives_blocks size (λ s. block s r)
  unfolding receive_of
  receive_of-blocks r h =
      let index : (s : ℕ) → r + size * s ≡ s * size + r = λ s. omega arith in
      let e = λ (s : ℕ) (g : s < size).
        ap (λ k. get_or (block_sizes comm rand rand_end v) k 0) (index s)
        ∙ block_sizes-length s r g h in
      let t = tabulate-ext size _ (λ s. length (block s r)) e in
      let d = displs-ext size _ (λ s. length (block s r)) e in rw (t, d) refl

  if_qsort : (l : List ℤ) → (if ltb 0 (length l) then qsort l else l) ≡ qsort l
  unfolding qsort
  if_qsort [] = refl
  if_qsort (x ∷ xs) = ground arith

  -- A rank ends up with the blocks that the ranks have for it, sorted.
  pub parallel_sort-blocks :
      (r : ℕ)
      → r < size
      → parallel_sort comm rand rand_end v r ≡ qsort (concat_to size (λ s. block s r))
  unfolding parallel_sort
  parallel_sort-blocks r h =
      if_qsort (comm.alltoallv (send_of comm rand rand_end v) (receive_of comm rand rand_end v) r)
      ∙ ap qsort (
          alltoallv-blocks block _ _ (λ s l. send_of-blocks s l) (λ s l. receive_of-blocks s l) r h)
