-- ===== src/BoxDecomp/StartCount/Total.antt =====
-- `CalcStartandCount` as the tasks see it together: one plan, of which each task gets its part.
use parallel_io.Base.Dims.{AllPos, product}
use parallel_io.Base.{
  lt→ltb, ℕ, zero, suc, ◌+◌, ◌≤◌, ◌<◌, max, ◌≡◌, refl, subst, ◌∙◌, inl, inr, Option, some, List, [],
  ◌∷◌, map, arith, ltb, if◌then◌else◌, Option-cases, length, get_elem?,
}
use mathlib.Core.Option
use parallel_io.Base.Error.{Result, ok}
use parallel_io.Base.Int.{ℤ}
use parallel_io.Support.Types.{Build, PioType, MpiType, find_mpi_type}
use parallel_io.BoxDecomp.OneDim.{Share}
use parallel_io.BoxDecomp.StartCount.{
  Shape, Pass, nothing, search_loop, first_use_io_procs, shape, finish, calc_start_and_count,
}
use parallel_io.BoxDecomp.StartCount.Split.{IsArray}
use parallel_io.BoxDecomp.StartCount.Plan.{Box, total, AllFit}
use parallel_io.BoxDecomp.StartCount.Search.{search_plan-IsComplete, search_loop-Agrees, Agrees}

module _ (build : Build) (rounded : ℕ → ℤ → ℤ) (blocksize : ℕ) (pio_type : PioType) (gdims : List ℕ)
    (num_io_procs : ℕ) where
  abbrev calc : ℕ → Option (Result (List Share × ℕ))
  calc = calc_start_and_count build rounded blocksize pio_type gdims num_io_procs

  -- The boxes `bs` of the `u` tasks that are used: what each task's call returns, that the boxes
  -- fit, and that together they have as many elements as the array.
  pub record IsDecomposition (u : ℕ) (bs : List Box) : Type 0 where
    pub all_tasks : length bs ≡ u
    pub some_task : 0 < u
    pub no_more : u ≤ max 1 num_io_procs
    pub fits : AllFit gdims bs
    pub all_elements : total bs ≡ product gdims
    pub used : (my : ℕ) (b : Box) → get_elem? bs my ≡ some b → calc my ≡ some (ok (b, u))
    pub unused : (my : ℕ) → u ≤ my → calc my ≡ some (ok (map nothing gdims, u))

  module _ {m : MpiType} {basesize : ℕ}
      (known : find_mpi_type build pio_type ≡ ok (m, basesize)) where
    abbrev procs : ℕ
    procs = first_use_io_procs build rounded blocksize (product gdims) basesize num_io_procs

    abbrev start : Shape
    start = shape build rounded blocksize gdims basesize procs

    abbrev searched : ℕ → Option Pass
    searched my = search_loop start my (procs + 1) procs (map nothing gdims)

    calc-searched :
        (my : ℕ)
        → calc my ≡ Option.map (λ p. ok (finish build rounded blocksize gdims my p)) (searched my)
    unfolding calc_start_and_count
    calc-searched my = rw (known, calc_start_and_count)

    calc_lem :
        (my u : ℕ) (bs : List Box)
        → Agrees u bs my (searched my)
        → (mine : Box) × (calc my ≡ some (ok ((if ltb my u then mine else map nothing gdims), u)))
          × ((b : Box) → get_elem? bs my ≡ some b → mine ≡ b)
    unfolding finish
    calc_lem my u bs h = elim (Option-cases (searched my)) [
      | inl e ↦ absurd (subst (Agrees u bs my) e h)
      | inr (p, e) ↦
          let k : Agrees u bs my (some p) = subst (Agrees u bs my) e h in
          (p.mine, calc-searched my ∙ (rw (e, k.0)), k.1)
    ]

    first-pos : (0 < procs) × (procs ≤ max 1 num_io_procs)
    unfolding first_use_io_procs
    first-pos = (omega arith, omega arith)

    start-IsArray : 0 < length gdims → AllPos gdims → IsArray start
    unfolding shape
    start-IsArray n a = record { has_dims = n; all_pos = a }

    start-gdims : start.gdims ≡ gdims
    unfolding shape
    start-gdims = refl

    get_elem?-lt : (bs : List Box) (my : ℕ) (b : Box) → get_elem? bs my ≡ some b → my < length bs
    get_elem?-lt [] my b e = cc
    get_elem?-lt (x ∷ bs) zero b e = omega arith
    get_elem?-lt (x ∷ bs) (suc my) b e = omega (arith, get_elem?-lt bs my b e)

    -- For a known type and positive dimensions the calls of all tasks return, without `piodie`, and
    -- agree on a number of IO tasks, at least 1 and at most `num_io_procs` or 1; each of those gets a
    -- box inside the array, the others nothing, and the boxes have as many elements together as the array.
    pub calc_start_and_count-IsDecomposition :
        0 < length gdims → AllPos gdims → (u : ℕ) × (bs : List Box) × IsDecomposition u bs
    unfolding shape
    calc_start_and_count-IsDecomposition n a =
        let (u, bs, e, c) =
          search_plan-IsComplete start (procs + 1) procs (start-IsArray n a) first-pos.0
            (omega arith) in
        let one = λ (my : ℕ).
          calc_lem my u bs
            (search_loop-Agrees start my (procs + 1) procs (map nothing gdims) u bs e) in
        (
          u,
          bs,
          record {
            all_tasks = c.all_tasks;
            some_task = c.some_task;
            no_more = omega (arith, c, first-pos);
            fits = c.fits;
            all_elements = c.all_elements;
            used = λ my b k.
                (one my).1
                ∙ rw (
                  lt→ltb my u (omega (arith, c.all_tasks, get_elem?-lt bs my b k)),
                  (one my).2 b k,
                );
            unused = λ my h. (one my).1 ∙ (ground arith);
          },
        )
