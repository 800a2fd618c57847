-- ===== src/BoxDecomp/OneDim.antt =====
-- `compute_one_dim` of src/clib/pioc_sc.c: the share of one dimension that an IO task gets. The
-- asserted inputs are numbers that are not negative, and a count of tasks that is positive.
use native.Mathlib.Nat.{mod-eq_of_lt, add-zero}
use parallel_io.Base.{
  ℕ, zero, suc, ◌+◌, ◌-◌, ◌*◌, ◌/◌, ◌%◌, ◌≤◌, ◌<◌, ◌≡◌, ap, subst, arith, dec_lt, ltb, leb,
  if◌then◌else◌,
}

pub record Share : Type 0 where
  pub start : ℕ
  pub count : ℕ

-- `irank + remainder - ioprocs` is negative or zero where the subtraction stops at 0.
unfoldable pub compute_one_dim : ℕ → ℕ → ℕ → Share
compute_one_dim gdim ioprocs rank =
    let irank = rank % ioprocs in
    let lcount = gdim / ioprocs in
    let lstart = lcount * irank in
    let remainder = gdim - lcount * ioprocs in
    if leb (ioprocs - irank) remainder
    then (let adds = irank + remainder - ioprocs in
        record { start = (if ltb 0 adds then lstart + adds else lstart); count = lcount + 1 })
    else record { start = lstart; count = lcount }

module _ (gdim ioprocs : ℕ) (some_procs : 0 < ioprocs) where
  abbrev share : ℕ → Share
  share rank = compute_one_dim gdim ioprocs rank

  abbrev quotient : ℕ
  quotient = gdim / ioprocs

  abbrev leftover : ℕ
  leftover = gdim - quotient * ioprocs

  leftover-lt : leftover < ioprocs
  leftover-lt = grind arith

  leftover-add : quotient * ioprocs + leftover ≡ gdim
  leftover-add = grind arith

  -- The last `leftover` tasks get one element more.
  share_closed :
      (rank : ℕ)
      → rank < ioprocs
      → ((share rank).start ≡ quotient * rank + (rank + leftover - ioprocs))
        × ((share rank).count
            ≡ quotient + (rank + 1 + leftover - ioprocs) - (rank + leftover - ioprocs))
  unfolding compute_one_dim
  share_closed rank h = let small = leftover-lt in rw (mod-eq_of_lt h) (ground arith)

  -- The first task starts at 0.
  pub share_first : (share 0).start ≡ 0
  share_first = grind (arith, share_closed 0 some_procs, leftover-lt)

  -- Each task starts where the one before it stops.
  pub share_next :
      (rank : ℕ)
      → rank + 1 < ioprocs
      → (share (rank + 1)).start ≡ (share rank).start + (share rank).count
  share_next rank h =
      omega (arith, share_closed rank (omega arith), share_closed (rank + 1) h, leftover-lt)

  -- The last one stops at the end of the dimension.
  pub share_last : (rank : ℕ) → rank + 1 ≡ ioprocs → (share rank).start + (share rank).count ≡ gdim
  share_last rank h = omega (
    arith,
    share_closed rank (omega arith),
    leftover-lt,
    leftover-add,
    ap (λ (t : ℕ). quotient * t) h,
  )

  -- The end of a task's share.
  abbrev stop : ℕ → ℕ
  stop rank = (share rank).start + (share rank).count

  stop-le-start : (k r : ℕ) → r + 1 + k < ioprocs → stop r ≤ (share (r + 1 + k)).start
  stop-le-start zero r h = rw (add-zero (r + 1)) (omega (arith, share_next r (omega arith)))
  stop-le-start (suc k) r h =
      let e : r + 1 + suc k ≡ r + 1 + k + 1 = omega arith in
      rw e (omega (arith, stop-le-start k r (omega arith), share_next (r + 1 + k) (omega arith)))

  -- Shares of different tasks do not meet.
  pub share_disjoint : (r s : ℕ) → r < s → s < ioprocs → stop r ≤ (share s).start
  share_disjoint r s h k =
      let e : r + 1 + (s - (r + 1)) ≡ s = omega arith in
      subst (λ t. stop r ≤ (share t).start) e (stop-le-start (s - (r + 1)) r (omega arith))

  owner_below :
      (n i : ℕ)
      → n < ioprocs
      → i < stop n
      → (rank : ℕ) × (rank ≤ n) × ((share rank).start ≤ i) × (i < stop rank)
  owner_below zero i h k = (0, omega arith, omega (arith, share_first), k)
  owner_below (suc n) i h k = elim (dec_lt i (share (suc n)).start) [
    | no here ↦ (suc n, omega arith, omega arith, k)
    | yes before ↦
        let e : n + 1 ≡ suc n = omega arith in
        let next : (share (suc n)).start ≡ stop n =
          subst (λ t. (share t).start ≡ stop n) e (share_next n (omega arith)) in
        let (rank, le, a, b) = owner_below n i (omega arith) (omega arith) in
        (rank, omega arith, a, b)
  ]

  -- Every index of the dimension is in the share of a task.
  pub share_covers :
      (i : ℕ)
      → i < gdim
      → (rank : ℕ) × (rank < ioprocs) × ((share rank).start ≤ i) × (i < stop rank)
  share_covers i h =
      let last = share_last (ioprocs - 1) (omega arith) in
      let (rank, le, a, b) = owner_below (ioprocs - 1) i (omega arith) (omega arith) in
      (rank, omega arith, a, b)

-- The tasks' shares are the cells of a partition of 0 .. gdim - 1: every index has an owner, and
-- two owners of one index are the same task.
pub record IsPartition (gdim ioprocs : ℕ) (share : ℕ → Share) : Type 0 where
  pub covers :
      (i : ℕ)
      → i < gdim
      → (rank : ℕ) × (rank < ioprocs)
        × ((share rank).start ≤ i)
        × (i < (share rank).start + (share rank).count)
  pub within : (rank : ℕ) → rank < ioprocs → (share rank).start + (share rank).count ≤ gdim
  pub disjoint :
      (r s i : ℕ)
      → r < ioprocs
      → s < ioprocs
      → (share r).start ≤ i
      → i < (share r).start + (share r).count
      → (share s).start ≤ i
      → i < (share s).start + (share s).count
      → r ≡ s
  pub balanced : (r s : ℕ) → r < ioprocs → s < ioprocs → (share r).count ≤ (share s).count + 1

-- Two different shares do not hold one index.
share_unique :
    (gdim ioprocs : ℕ) (p : 0 < ioprocs) (r s i : ℕ)
    → r < ioprocs
    → s < ioprocs
    → (compute_one_dim gdim ioprocs r).start ≤ i
    → i < stop gdim ioprocs p r
    → (compute_one_dim gdim ioprocs s).start ≤ i
    → i < stop gdim ioprocs p s
    → r ≡ s
share_unique gdim ioprocs p r s i rp sp a b c d =
    grind (arith, share_disjoint gdim ioprocs p r s, share_disjoint gdim ioprocs p s r)

share_within :
    (gdim ioprocs : ℕ) (p : 0 < ioprocs) (r : ℕ) → r < ioprocs → stop gdim ioprocs p r ≤ gdim
share_within gdim ioprocs p r h = elim (dec_lt (r + 1) ioprocs) [
  | no last ↦ omega (arith, share_last gdim ioprocs p r (omega arith))
  | yes more ↦ omega (
    arith,
    share_disjoint gdim ioprocs p r (ioprocs - 1) (omega arith) (omega arith),
    share_last gdim ioprocs p (ioprocs - 1) (omega arith),
  )
]

-- With at least one task the shares partition the dimension, and their sizes differ by at most one.
pub compute_one_dim-IsPartition :
    (gdim ioprocs : ℕ) → 0 < ioprocs → IsPartition gdim ioprocs (compute_one_dim gdim ioprocs)
compute_one_dim-IsPartition gdim ioprocs p = record {
  covers = share_covers gdim ioprocs p;
  within = share_within gdim ioprocs p;
  disjoint = share_unique gdim ioprocs p;
  balanced =
      λ r s a b. omega (arith, share_closed gdim ioprocs p r a, share_closed gdim ioprocs p s b);
}

-- A task's rank counts modulo the number of tasks.
pub compute_one_dim-mod :
    (gdim ioprocs rank : ℕ)
    → 0 < ioprocs
    → compute_one_dim gdim ioprocs rank ≡ compute_one_dim gdim ioprocs (rank % ioprocs)
unfolding compute_one_dim
compute_one_dim-mod gdim ioprocs rank p =
    rw (mod-eq_of_lt {n = rank % ioprocs} {m = ioprocs} (omega arith))

-- Whatever the rank, the share ends within the dimension.
pub compute_one_dim-le :
    (gdim ioprocs rank : ℕ)
    → 0 < ioprocs
    → (compute_one_dim gdim ioprocs rank).start + (compute_one_dim gdim ioprocs rank).count ≤ gdim
compute_one_dim-le gdim ioprocs rank p =
    rw (compute_one_dim-mod gdim ioprocs rank p)
      (share_within gdim ioprocs p (rank % ioprocs) (omega arith))

-- A dimension with no fewer elements than tasks gives every task an element.
pub compute_one_dim-pos :
    (gdim ioprocs rank : ℕ)
    → 0 < ioprocs
    → ioprocs ≤ gdim
    → 0 < (compute_one_dim gdim ioprocs rank).count
unfolding compute_one_dim
compute_one_dim-pos gdim ioprocs rank p h = let q : 0 < gdim / ioprocs = grind arith in ground arith
