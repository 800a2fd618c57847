-- ===== src/Examples/Sort.antt =====
-- The sort of src/clib/parallel_sort.c on two ranks.
use parallel_io.Base.{ℕ, zero, suc, ◌≡◌, ◌↔◌, refl, Bool, true, Option, some, List, [], ◌∷◌, arith}
use parallel_io.Base.Int.{ℤ, pos}
use parallel_io.Base.Ranks.{concat_to}
use parallel_io.Sort.{partition, parallel_sort, run_unique_check}
use parallel_io.Sort.Count.{IsSorted, SameCounts}
use parallel_io.Sort.Partition.{Splits, partition-Splits}
use parallel_io.Sort.Global.{parallel_sort-IsSorted}
use parallel_io.Sort.Unique.{HasDuplicate, run_unique_check-HasDuplicate}
use parallel_io.Examples.ListComm.{list_comm}

-- Two holes and the value 4 on both ranks.
abbrev two_ranks : ℕ → List ℤ
two_ranks zero = pos 4 ∷ pos 0 ∷ pos 7 ∷ []
two_ranks n = pos 0 ∷ pos 4 ∷ pos 1 ∷ []

abbrev rand : ℕ → ℕ → ℕ
rand rank i = 1

partition_runs :
    partition (pos 4) (pos 7 ∷ pos 1 ∷ pos 4 ∷ pos 2 ∷ [])
    ≡ record { below = pos 1 ∷ pos 2 ∷ []; others = pos 4 ∷ pos 7 ∷ [] }
unfolding partition
partition_runs = refl

sort_runs :
    concat_to 2 (parallel_sort (list_comm 2) rand 3 two_ranks)
    ≡ pos 0 ∷ pos 0 ∷ pos 1 ∷ pos 4 ∷ pos 4 ∷ pos 7 ∷ []
unfolding parallel_sort concat_to parallel_io.Base.Ranks.tabulate parallel_io.Base.Ranks.sum_to
sort_runs = refl

partition-Splits_example :
    Splits (pos 4) (partition (pos 4) (pos 7 ∷ pos 1 ∷ [])) (pos 7 ∷ pos 1 ∷ [])
partition-Splits_example = partition-Splits (pos 4) (pos 7 ∷ pos 1 ∷ [])

parallel_sort-IsSorted_example :
    IsSorted (concat_to 2 (parallel_sort (list_comm 2) rand 3 two_ranks))
    × SameCounts
        (concat_to 2 (parallel_sort (list_comm 2) rand 3 two_ranks))
        (concat_to 2 two_ranks)
parallel_sort-IsSorted_example = parallel_sort-IsSorted (list_comm 2) rand 3 two_ranks (omega arith)

run_unique_check-HasDuplicate_example :
    (b : Bool) × (run_unique_check (list_comm 2) rand 3 two_ranks ≡ some b)
    × ((b ≡ true) ↔ HasDuplicate (concat_to 2 two_ranks))
run_unique_check-HasDuplicate_example =
    run_unique_check-HasDuplicate (list_comm 2) rand 3 two_ranks (omega arith)
