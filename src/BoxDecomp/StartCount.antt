-- ===== src/BoxDecomp/StartCount.antt =====
-- `CalcStartandCount` of src/clib/pioc_sc.c. The lengths of the dimensions are positive
-- (`PIOc_InitDecomp` refuses others), so no division here is by zero.
pub mod Split
pub mod Plan
pub mod Search
pub mod Total
use parallel_io.Base.Dims.{AllPos, product, product-pos}
use parallel_io.Base.{
  ℕ, zero, suc, ◌+◌, ◌-◌, ◌*◌, ◌/◌, ◌%◌, ◌^◌, ◌≤◌, ◌<◌, min, max, ◌≡◌, refl, sym, ap, subst, ◌∙◌,
  ◌≢◌, ◌↔◌, ◌⊎◌, inl, inr, dif_pos, dif_neg, Bool, true, false, ◌&&◌, ◌||◌, not, Option, none, some,
  List, [], ◌∷◌, ◌++◌, map, arith, dec_lt, dec_le, ℕ_discrete, ltb, leb, ◌==◌, if◌then◌else◌,
  Bool-cases, Option-cases, length, get_elem?, set, get_or, take, drop, replicate,
}
use parallel_io.Base.Int.{ℤ, pos, neg, pos_part}
use mathlib.Core.Option
use parallel_io.Base.Error.{Result, ok, err}
use parallel_io.Support.Types.{Build, PioType, find_mpi_type}
use parallel_io.BoxDecomp.OneDim.{Share, compute_one_dim}

-- The whole of a dimension.
abbrev pub whole : ℕ → Share
whole g = record { start = 0; count = g }

abbrev pub nothing : ℕ → Share
nothing g = record { start = 0; count = 0 }

-- The innermost dimension that need not be split: the loop over `i`, from `k - 1` down to 0, with
-- the product `p` of the element size and the lengths seen.
find_ldims : List ℕ → ℕ → ℕ → ℕ → ℕ → ℕ
find_ldims gdims procs maxbytes zero p = length gdims - 1
find_ldims gdims procs maxbytes (suc i) p =
    let p' = p * get_or gdims i 0 in
    elim (ltb maxbytes (p' / procs)) [ true ↦ i | false ↦ find_ldims gdims procs maxbytes i p' ]

-- What follows that loop: the new `ldims` and `use_io_procs`.
adjust : List ℕ → ℕ → ℕ → ℕ × ℕ
adjust gdims ldims procs =
    if ltb (get_or gdims ldims 0) procs
    then (if ltb 0 ldims && ltb procs (get_or gdims (ldims - 1) 0)
        then (ldims - 1, procs)
        else (ldims, procs - procs % get_or gdims ldims 0))
    else (ldims, procs)

abbrev cons_share : Share → Option (List Share) → Option (List Share)
cons_share s none = none
cons_share s (some r) = some (s ∷ r)

-- The loop over dimensions `0 .. ldims`, `k` of them left; the dimensions after them stay whole.
-- `none` is `piodie`.
split : ℕ → ℕ → ℕ → ℕ → List ℕ → Option (List Share)
split iorank zero ioprocs tiorank gs = some (map whole gs)
split iorank (suc k) ioprocs tiorank [] = some []
split iorank (suc k) ioprocs tiorank (g ∷ gs) = elim (leb ioprocs g) [
  | true ↦
      let s = compute_one_dim g ioprocs tiorank in
      elim (ltb (g + 1) (s.start + s.count)) [
        | true ↦ none
        | false ↦ cons_share s (split iorank k ioprocs tiorank gs)
      ]
  | false ↦ elim (ltb 1 g) [
    | true ↦
        let s = compute_one_dim g g (iorank * g / ioprocs) in
        cons_share s (split iorank k (ioprocs / g) (iorank % (ioprocs / g)) gs)
    | false ↦ cons_share (whole g) (split iorank k ioprocs tiorank gs)
  ]
]

-- The number of elements in a task's box.
pub volume : List Share → ℕ
volume [] = 1
volume (s ∷ r) = s.count * volume r

-- What the loop over tasks reads and does not change.
pub record Shape : Type 0 where
  pub gdims : List ℕ
  pub basesize : ℕ
  pub maxbytes : ℕ

-- One round of the loop over tasks: the new `use_io_procs`, and this task's box.
pub round : Shape → ℕ → ℕ → Option (ℕ × List Share)
round s procs iorank =
    let ldims = find_ldims s.gdims procs s.maxbytes (length s.gdims) s.basesize in
    let a = adjust s.gdims ldims procs in
    Option.map (λ box. (a.1, box)) (split iorank (a.0 + 1) a.1 iorank s.gdims)

-- How the loop over tasks ended, with `use_io_procs` and `mystart`, `mycount`.
pub record Pass : Type 0 where
  pub converged : Bool
  pub use_io_procs : ℕ
  pub mine : List Share

-- The loop over tasks from `iorank` on; `fuel` bounds the tasks left.
pub pass : Shape → ℕ → ℕ → ℕ → ℕ → ℕ → List Share → Option Pass
pass s myiorank zero procs iorank tpsize mine =
    some (record { converged = false; use_io_procs = procs; mine = mine })
pass s myiorank (suc fuel) procs iorank tpsize mine = elim (ltb iorank procs) [
  | false ↦ some (record { converged = false; use_io_procs = procs; mine = mine })
  | true ↦ elim (round s procs iorank) [
    | none ↦ none
    | some (procs', box) ↦
        let mine' = if myiorank == iorank then box else mine in
        let tpsize' = tpsize + volume box in
        let pgdims = product s.gdims in
        elim (tpsize' == pgdims && procs' == iorank + 1) [
          | true ↦ some (record { converged = true; use_io_procs = procs'; mine = mine' })
          | false ↦ elim (leb pgdims tpsize') [
            | true ↦ some (record { converged = false; use_io_procs = procs'; mine = mine' })
            | false ↦ pass s myiorank fuel procs' (iorank + 1) tpsize' mine'
          ]
        ]
  ]
]

-- `while (!converged)`: `none` is `piodie`, or the end of the fuel.
pub search_loop : Shape → ℕ → ℕ → ℕ → List Share → Option Pass
search_loop s myiorank zero procs mine = none
search_loop s myiorank (suc fuel) procs mine = elim (pass s myiorank procs procs 0 0 mine) [
  | none ↦ none
  | some p ↦ elim p.converged [
    | true ↦ some p
    | false ↦ search_loop s myiorank fuel (p.use_io_procs - 1) p.mine
  ]
]

-- `minbytes / basesize`, rounded to zero.
min_block_size : ℕ → ℕ → ℤ
min_block_size blocksize basesize =
    if leb 256 blocksize
    then pos ((blocksize - 256) / basesize)
    else neg ((256 - blocksize) / basesize)

-- `rounded a b` is `(int)((float)a / (float)b + 0.5)`, computed by the C implementation.
module _ (build : Build) (rounded : ℕ → ℤ → ℤ) (blocksize : ℕ) where
  pub first_use_io_procs : ℕ → ℕ → ℕ → ℕ
  unfolding min_block_size
  first_use_io_procs pgdims basesize num_io_procs =
      max 1 (min (pos_part (rounded pgdims (min_block_size blocksize basesize))) num_io_procs)

  pub shape : List ℕ → ℕ → ℕ → Shape
  shape gdims basesize procs = record {
    gdims = gdims;
    basesize = basesize;
    maxbytes = max blocksize (product gdims * basesize / procs) + 256;
  }

  -- Tasks that are not used get the empty box.
  pub finish : List ℕ → ℕ → Pass → List Share × ℕ
  finish gdims myiorank p =
      ((if ltb myiorank p.use_io_procs then p.mine else map nothing gdims), p.use_io_procs)

  -- The box of task `myiorank`, and `*num_aiotasks`.
  pub calc_start_and_count : PioType → List ℕ → ℕ → ℕ → Option (Result (List Share × ℕ))
  unfolding first_use_io_procs shape finish
  calc_start_and_count pio_type gdims num_io_procs myiorank = elim (find_mpi_type build pio_type) [
    | err e ↦ some (err e)
    | ok (t, basesize) ↦
        let procs = first_use_io_procs (product gdims) basesize num_io_procs in
        Option.map (λ p. ok (finish gdims myiorank p))
          (search_loop (shape gdims basesize procs) myiorank (procs + 1) procs (map nothing gdims))
  ]
