-- ===== src/Examples/ListComm.antt =====
-- A communicator that computes its collectives on lists, for the instances of the sort.
use parallel_io.Base.{
  ℕ, zero, suc, ◌+◌, ◌-◌, ◌≤◌, ◌<◌, ◌≡◌, refl, ap, ◌∙◌, List, [], ◌∷◌, ◌++◌, length, length-append,
  get_or, take, drop, arith, ℕ_discrete,
}
use parallel_io.Base.Int.{ℤ}
use parallel_io.Base.Ranks.{concat_to, sum_to, max_to, concat_to-ext, get_or-tabulate}
use parallel_io.Sort.{Send, Receive, sends_blocks, receives_blocks, displs, Comm}

abbrev pub part : Send → ℕ → List ℤ
part s r = take (get_or s.sendcounts r 0) (drop (get_or s.sdispls r 0) s.data_out)

drop-append_left : (n : ℕ) (xs ys : List ℤ) → n ≤ length xs → drop n (xs ++ ys) ≡ drop n xs ++ ys
drop-append_left zero xs ys h = refl
drop-append_left (suc n) [] ys h = absurd (omega arith)
drop-append_left (suc n) (x ∷ xs) ys h = drop-append_left n xs ys (omega arith)

take-append_left : (n : ℕ) (xs ys : List ℤ) → n ≤ length xs → take n (xs ++ ys) ≡ take n xs
take-append_left zero xs ys h = refl
take-append_left (suc n) [] ys h = absurd (omega arith)
take-append_left (suc n) (x ∷ xs) ys h = ap (λ l. x ∷ l) (take-append_left n xs ys (omega arith))

take-all : (xs : List ℤ) → take (length xs) xs ≡ xs
take-all [] = refl
take-all (x ∷ xs) = ap (λ l. x ∷ l) (take-all xs)

drop-all : (xs ys : List ℤ) → drop (length xs) (xs ++ ys) ≡ ys
drop-all [] ys = refl
drop-all (x ∷ xs) ys = drop-all xs ys

length-drop_part : (n : ℕ) (xs : List ℤ) → length (drop n xs) ≡ length xs - n
length-drop_part zero xs = omega arith
length-drop_part (suc n) [] = omega arith
length-drop_part (suc n) (x ∷ xs) = omega (arith, length-drop_part n xs)

length-blocks_to :
    (n : ℕ) (block : ℕ → List ℤ) → length (concat_to n block) ≡ sum_to n (λ i. length (block i))
unfolding concat_to sum_to
length-blocks_to zero block = refl
length-blocks_to (suc n) block =
    omega (arith, length-append (concat_to n block) (block n), length-blocks_to n block)

sum-le : (n r : ℕ) (f : ℕ → ℕ) → r < n → sum_to r f + f r ≤ sum_to n f
unfolding sum_to
sum-le zero r f h = absurd (omega arith)
sum-le (suc n) r f h = elim (ℕ_discrete r n) [
  | yes e ↦ rw e (omega arith)
  | no o ↦ omega (arith, sum-le n r f (omega arith))
]

-- Block `r` of the row of blocks.
slice-block :
    (n : ℕ) (block : ℕ → List ℤ) (r : ℕ)
    → r < n
    → take (length (block r)) (drop (sum_to r (λ i. length (block i))) (concat_to n block))
      ≡ block r
unfolding concat_to
slice-block zero block r h = absurd (omega arith)
slice-block (suc n) block r h =
    let len = length-blocks_to n block in
    elim (ℕ_discrete r n) [
      | yes e ↦ rw (e, ← len, drop-all (concat_to n block) (block n)) (take-all (block n))
      | no o ↦
          let fits = sum-le n r (λ i. length (block i)) (omega arith) in
          let start = sum_to r (λ i. length (block i)) in
          ap (take (length (block r)))
            (drop-append_left start (concat_to n block) (block n) (omega arith))
          ∙ take-append_left (length (block r)) (drop start (concat_to n block)) (block n)
              (omega (arith, length-drop_part start (concat_to n block)))
          ∙ slice-block n block r (omega arith)
    ]

part-block : (n : ℕ) (block : ℕ → List ℤ) (r : ℕ) → r < n → part (sends_blocks n block) r ≡ block r
unfolding displs
part-block n block r h =
    rw
      (
        get_or-tabulate n (λ i. length (block i)) r 0 h,
        get_or-tabulate n (λ i. sum_to i (λ j. length (block j))) r 0 h,
      )
      (slice-block n block r h)

pub exchange_lem :
    (size : ℕ) (block : ℕ → ℕ → List ℤ) (sends : ℕ → Send) (receives : ℕ → Receive)
    → ((s : ℕ) → s < size → sends s ≡ sends_blocks size (block s))
    → ((r : ℕ) → r < size → receives r ≡ receives_blocks size (λ s. block s r))
    → (r : ℕ) → r < size
    → concat_to size (λ s. part (sends s) r) ≡ concat_to size (λ s. block s r)
exchange_lem size block sends receives e g r h =
    concat_to-ext size (λ s. part (sends s) r) (λ s. block s r)
      (λ s l. ap (λ w. part w r) (e s l) ∙ part-block size (block s) r h)

abbrev pub list_comm : ℕ → Comm
list_comm n = record {
  size = n;
  allgather = λ f. concat_to n f;
  alltoallv = λ sends receives r. concat_to n (λ s. part (sends s) r);
  allreduce_max = max_to n;
  allgather-concat = λ f. refl;
  alltoallv-blocks = exchange_lem n;
  allreduce_max-max = λ f. refl;
}
