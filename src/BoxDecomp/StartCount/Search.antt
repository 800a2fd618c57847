-- ===== src/BoxDecomp/StartCount/Search.antt =====
-- Lemmas on the search for the number of tasks in `CalcStartandCount`, src/clib/pioc_sc.c.
use parallel_io.Base.Dims.{product}
use parallel_io.Base.{
  ℕ, zero, suc, ◌+◌, ◌-◌, ◌≤◌, ◌<◌, ◌≡◌, refl, subst, ◌∙◌, inl, inr, Bool, true, false, Option,
  none, some, List, [], ◌∷◌, arith, ℕ_discrete, Option-cases, length, get_elem?,
}
use parallel_io.BoxDecomp.StartCount.{Shape, Pass, pass, search_loop}
use parallel_io.BoxDecomp.StartCount.Split.{IsArray, round_one}
use parallel_io.BoxDecomp.StartCount.Plan.{
  Box, pass_plan, after_round, pick, pass-pass_plan, total, AllFit, Sound, pass_plan-Sound,
}

pub search_plan : Shape → ℕ → ℕ → Option (ℕ × List Box)
search_plan s zero procs = none
search_plan s (suc fuel) procs = elim (pass_plan s procs procs 0 0) [
  | none ↦ none
  | some (c, u, bs) ↦ elim c [ true ↦ some (u, bs) | false ↦ search_plan s fuel (u - 1) ]
]

-- What one task's search returns, for a plan of the tasks' boxes.
abbrev pub Agrees : ℕ → List Box → ℕ → Option Pass → Type 0
Agrees u bs my none = ⊥
Agrees u bs my (some p) = (p.use_io_procs ≡ u) × ((b : Box) → get_elem? bs my ≡ some b → p.mine ≡ b)

-- A task picks the box at its own place.
pick_later : (my i : ℕ) (bs : List Box) (mine : Box) → my < i → pick my i bs mine ≡ mine
pick_later my i [] mine h = refl
pick_later my i (b ∷ bs) mine h = ground (arith, pick_later my (i + 1) bs mine)

pick_lem :
    (k my i : ℕ) (bs : List Box) (mine b : Box)
    → my ≡ i + k
    → get_elem? bs k ≡ some b
    → pick my i bs mine ≡ b
pick_lem k my i [] mine b h e = cc
pick_lem zero my i (x ∷ bs) mine b h e = ground (arith, pick_later my (i + 1) bs x)
pick_lem (suc k) my i (x ∷ bs) mine b h e =
    ground (arith, pick_lem k my (i + 1) bs mine b (omega arith) e)

pass_of_plan :
    (s : Shape) (my procs : ℕ) (mine : Box) (c : Bool) (u : ℕ) (bs : List Box)
    → pass_plan s procs procs 0 0 ≡ some (c, u, bs)
    → pass s my procs procs 0 0 mine
      ≡ some (record { converged = c; use_io_procs = u; mine = pick my 0 bs mine })
pass_of_plan s my procs mine c u bs e = pass-pass_plan s my procs procs 0 0 mine ∙ rw e

search_loop_done :
    (s : Shape) (my fuel procs : ℕ) (mine box : Box) (u : ℕ)
    → pass s my procs procs 0 0 mine
      ≡ some (record { converged = true; use_io_procs = u; mine = box })
    → search_loop s my (suc fuel) procs mine
      ≡ some (record { converged = true; use_io_procs = u; mine = box })
unfolding search_loop
search_loop_done s my fuel procs mine box u e = ground arith

search_loop_again :
    (s : Shape) (my fuel procs : ℕ) (mine box : Box) (u : ℕ)
    → pass s my procs procs 0 0 mine
      ≡ some (record { converged = false; use_io_procs = u; mine = box })
    → search_loop s my (suc fuel) procs mine ≡ search_loop s my fuel (u - 1) box
unfolding search_loop
search_loop_again s my fuel procs mine box u e = ground arith

pub search_loop-Agrees :
    (s : Shape) (my fuel procs : ℕ) (mine : Box) (u : ℕ) (bs : List Box)
    → search_plan s fuel procs ≡ some (u, bs)
    → Agrees u bs my (search_loop s my fuel procs mine)
unfolding search_plan
search_loop-Agrees s my zero procs mine u bs h = cc
search_loop-Agrees s my (suc fuel) procs mine u bs h =
    elim (Option-cases (pass_plan s procs procs 0 0)) [
      | inl e ↦ absurd (ground arith)
      | inr ((true, u', bs'), e) ↦
          let f = pass_of_plan s my procs mine true u' bs' e in
          rw (search_loop_done s my fuel procs mine (pick my 0 bs' mine) u' f)
            (ground arith, λ b k. pick_lem my my 0 bs' mine b (omega arith) (ground arith))
      | inr ((false, u', bs'), e) ↦
          let f = pass_of_plan s my procs mine false u' bs' e in
          rw (search_loop_again s my fuel procs mine (pick my 0 bs' mine) u' f)
            (search_loop-Agrees s my fuel (u' - 1) (pick my 0 bs' mine) u bs (ground arith))
    ]

-- A plan that converged: every box fits, and the boxes hold as many elements as the array.
pub record IsComplete (s : Shape) (procs u : ℕ) (bs : List Box) : Type 0 where
  pub some_task : 0 < u
  pub no_more : u ≤ procs
  pub fits : AllFit s.gdims bs
  pub all_elements : total bs ≡ product s.gdims
  pub all_tasks : length bs ≡ u

pass_plan_one :
    (s : Shape) → IsArray s → (bs : List Box) × (pass_plan s 1 1 0 0 ≡ some (true, 1, bs))
unfolding pass_plan after_round
pass_plan_one s v = let (box, e, f) = round_one s v in (box ∷ [], ground arith)

not_one :
    (s : Shape) (procs u : ℕ) (bs : List Box)
    → IsArray s
    → 0 < procs
    → pass_plan s procs procs 0 0 ≡ some (false, u, bs)
    → 2 ≤ procs
not_one s procs u bs v p e = elim (ℕ_discrete procs 1) [
  | no h ↦ omega arith
  | yes h ↦
      let (bs', f) = pass_plan_one s v in
      let g : pass_plan s 1 1 0 0 ≡ some (false, u, bs) =
        subst (λ t. pass_plan s t t 0 0 ≡ some (false, u, bs)) h e in
      absurd (ground arith)
]

IsComplete-of_Sound :
    (s : Shape) (procs u : ℕ) (bs : List Box)
    → Sound s procs 0 0 (some (true, u, bs))
    → IsComplete s procs u bs
IsComplete-of_Sound s procs u bs k =
    let f = k.2 refl in
    record {
      some_task = k.0.positive;
      no_more = k.0.no_more;
      fits = k.1;
      all_elements = omega arith;
      all_tasks = omega arith;
    }

IsComplete-mono :
    (s : Shape) (procs procs' u : ℕ) (bs : List Box)
    → procs ≤ procs'
    → IsComplete s procs u bs
    → IsComplete s procs' u bs
IsComplete-mono s procs procs' u bs h c = record {
  some_task = c.some_task;
  no_more = omega (arith, c);
  fits = c.fits;
  all_elements = c.all_elements;
  all_tasks = c.all_tasks;
}

search_plan_done :
    (s : Shape) (fuel procs u : ℕ) (bs : List Box)
    → pass_plan s procs procs 0 0 ≡ some (true, u, bs)
    → search_plan s (suc fuel) procs ≡ some (u, bs)
unfolding search_plan
search_plan_done s fuel procs u bs e = rw (e, search_plan)

search_plan_again :
    (s : Shape) (fuel procs u : ℕ) (bs : List Box)
    → pass_plan s procs procs 0 0 ≡ some (false, u, bs)
    → search_plan s (suc fuel) procs ≡ search_plan s fuel (u - 1)
unfolding search_plan
search_plan_again s fuel procs u bs e = rw (e, search_plan)

-- The search ends with a complete plan.
pub search_plan-IsComplete :
    (s : Shape) (fuel procs : ℕ)
    → IsArray s
    → 0 < procs
    → procs < fuel
    → (u : ℕ) × (bs : List Box) × (search_plan s fuel procs ≡ some (u, bs))
      × IsComplete s procs u bs
unfolding search_plan
search_plan-IsComplete s zero procs v p h = absurd (omega arith)
search_plan-IsComplete s (suc fuel) procs v p h =
    let sound = pass_plan-Sound s procs procs 0 0 v p in
    elim (Option-cases (pass_plan s procs procs 0 0)) [
      | inl e ↦ absurd (rw e at sound)
      | inr ((true, u, bs), e) ↦
          let k : Sound s procs 0 0 (some (true, u, bs)) = rw e at sound in
          (u, bs, search_plan_done s fuel procs u bs e, IsComplete-of_Sound s procs u bs k)
      | inr ((false, u, bs), e) ↦
          let k : Sound s procs 0 0 (some (false, u, bs)) = rw e at sound in
          let two = not_one s procs u bs v p e in
          let more = k.0.two_stay two in
          let less = k.0.no_more in
          let (u', bs', e', c) =
            search_plan-IsComplete s fuel (u - 1) v (omega arith) (omega arith) in
          (
            u',
            bs',
            search_plan_again s fuel procs u bs e ∙ e',
            IsComplete-mono s (u - 1) procs u' bs' (omega arith) c,
          )
    ]
