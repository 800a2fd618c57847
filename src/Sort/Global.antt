-- ===== src/Sort/Global.antt =====
-- The data of all ranks after `parallel_sort`.
use parallel_io.Base.{
  subst, ℕ, suc, ◌+◌, ◌-◌, ◌*◌, ◌≤◌, ◌<◌, ◌≡◌, sym, ap, ◌∙◌, List, arith, get_or, length,
}
use parallel_io.Base.Int.{ℤ, pos}
use parallel_io.Base.Ranks.{concat_to, sum_to, sum_to-ext, sum_to-swap, length-tabulate}
use parallel_io.Sort.{Comm, choose_pivots, pivots_of, block_of, parallel_sort}
use parallel_io.Sort.Count.{
  count, count-concat_to, in_concat_to, Before, IsSorted, SameCounts, qsort-SameCounts,
  qsort-IsSorted, concat_to-Sorted,
}
use parallel_io.Sort.Blocks.{blocks-count, blocks-Below, blocks-NoneBelow}
use parallel_io.Sort.Exchange.{parallel_sort-blocks}

length-choose_pivots : (n : ℕ) (l : List ℤ) → length (choose_pivots n l) ≡ n - 1
unfolding choose_pivots
length-choose_pivots n l = length-tabulate (n - 1) (λ i. get_or l ((i + 1) * (n - 1)) (pos 0))

module _ (comm : Comm) (rand : ℕ → ℕ → ℕ) (rand_end : ℕ) (v : ℕ → List ℤ) where
  open comm use {size}

  abbrev block : ℕ → ℕ → List ℤ
  block = block_of comm rand rand_end v

  abbrev sorted : ℕ → List ℤ
  sorted = parallel_sort comm rand rand_end v

  -- What rank `r` gets, before it sorts.
  abbrev column : ℕ → List ℤ
  column r = concat_to size (λ s. block s r)

  length-pivots : 1 ≤ size → suc (length (pivots_of comm rand rand_end v)) ≡ size
  unfolding pivots_of
  length-pivots h =
      let e : length (pivots_of comm rand rand_end v) ≡ size - 1 = length-choose_pivots size _ in
      omega arith

  block-count : (s : ℕ) (x : ℤ) → 1 ≤ size → sum_to size (λ r. count x (block s r)) ≡ count x (v s)
  unfolding block_of
  block-count s x h =
      subst (λ n. sum_to n (λ r. count x (block s r)) ≡ count x (v s)) (length-pivots h)
        (blocks-count (pivots_of comm rand rand_end v) (v s) x)

  sorted-count :
      (r : ℕ) (x : ℤ) → r < size → count x (sorted r) ≡ sum_to size (λ s. count x (block s r))
  sorted-count r x h =
      ap (count x) (parallel_sort-blocks comm rand rand_end v r h)
      ∙ qsort-SameCounts (column r) x
      ∙ count-concat_to x size (λ s. block s r)

  -- No entry is lost or made.
  pub parallel_sort-SameCounts : 1 ≤ size → SameCounts (concat_to size sorted) (concat_to size v)
  parallel_sort-SameCounts h x =
      count-concat_to x size sorted
      ∙ sum_to-ext size _ _ (λ r l. sorted-count r x l)
      ∙ sum_to-swap size size (λ r s. count x (block s r))
      ∙ sum_to-ext size _ _ (λ s l. block-count s x h)
      ∙ sym (count-concat_to x size v)

  -- The rank of a value is fixed by the pivots.
  pub parallel_sort-Before : 1 ≤ size → (i j : ℕ) → i < j → j < size → Before (sorted i) (sorted j)
  unfolding block_of
  parallel_sort-Before o i j h g x y p q =
      let pivots = pivots_of comm rand rand_end v in
      let len = length-pivots o in
      let (s, l, p') = in_column i x (omega arith) p in
      let (t, m, q') = in_column j y g q in
      let low = blocks-Below pivots (v s) i (omega arith) x p' in
      let high = blocks-NoneBelow pivots (v t) i j h (omega arith) y q' in ground arith
    where
      in_column :
          (r : ℕ) (z : ℤ)
          → r < size
          → 0 < count z (sorted r)
          → (s : ℕ) × (s < size) × (0 < count z (block s r))
      in_column r z h p =
          in_concat_to z size (λ s. block s r)
            (omega (arith, p, sorted-count r z h, count-concat_to z size (λ s. block s r)))

  pub parallel_sort-local : (r : ℕ) → r < size → IsSorted (sorted r)
  parallel_sort-local r h =
      rw (parallel_sort-blocks comm rand rand_end v r h) (qsort-IsSorted (column r))

  -- For one rank or more, after `parallel_sort` the data of the ranks, one after the other, are in order
  -- and have each value as often as before.
  pub parallel_sort-IsSorted :
      1 ≤ size
      → IsSorted (concat_to size sorted) × SameCounts (concat_to size sorted) (concat_to size v)
  parallel_sort-IsSorted h = (
    concat_to-Sorted size sorted (λ r l. parallel_sort-local r l)
        (λ i j l m. parallel_sort-Before h i j l m),
    λ x. parallel_sort-SameCounts h x,
  )
