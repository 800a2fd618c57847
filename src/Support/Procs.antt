-- ===== src/Support/Procs.antt =====
-- `determine_procs` of src/clib/pioc_support.c, for allocations that succeed.
use parallel_io.Base.{
  ltb, if◌then◌else◌, ℕ, zero, suc, ◌+◌, Option, none, some, List, [], ◌∷◌, ◌++◌, length, take,
}

-- The inner loop: `n` processes from `last_proc` on.
unfoldable pub procs_from : ℕ → ℕ → List ℕ
procs_from last_proc zero = []
procs_from last_proc (suc n) = last_proc ∷ procs_from (suc last_proc) n

-- The loop over the components without a list of processes.
unfoldable pub assign_procs : ℕ → List ℕ → List (List ℕ)
unfolding procs_from
assign_procs last_proc [] = []
assign_procs last_proc (n ∷ ns) = procs_from last_proc n ∷ assign_procs (last_proc + n) ns

-- `memcpy` for each component; a list that is too short is read past its end.
unfoldable pub copy_procs : List ℕ → List (List ℕ) → Option (List (List ℕ))
copy_procs [] lists = some []
copy_procs (n ∷ ns) [] = none
copy_procs (n ∷ ns) (l ∷ ls) =
    let rest = copy_procs ns ls in
    if ltb (length l) n then none else (elim rest [ none ↦ none | some r ↦ some (take n l ∷ r) ])

unfoldable pub determine_procs : ℕ → List ℕ → Option (List (List ℕ)) → Option (List (List ℕ))
unfolding assign_procs copy_procs
determine_procs num_io_procs num_procs_per_comp none =
    some (assign_procs num_io_procs num_procs_per_comp)
determine_procs num_io_procs num_procs_per_comp (some proc_list) =
    copy_procs num_procs_per_comp proc_list

unfoldable pub total : List ℕ → ℕ
total [] = 0
total (n ∷ ns) = n + total ns

pub lengths : List (List ℕ) → List ℕ
lengths [] = []
lengths (l ∷ ls) = length l ∷ lengths ls

pub join : List (List ℕ) → List ℕ
join [] = []
join (l ∷ ls) = l ++ join ls
