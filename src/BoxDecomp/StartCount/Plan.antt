-- ===== src/BoxDecomp/StartCount/Plan.antt =====
-- A pass over the tasks, seen from outside the tasks: the plan of all boxes. Each
-- task's own pass takes its box from that plan.
use parallel_io.Base.Dims.{product}
use parallel_io.Base.{
  ℕ, zero, suc, ◌+◌, ◌<◌, ◌≡◌, refl, subst, inl, inr, Bool, true, false, ◌&&◌, Option, none, some,
  List, [], ◌∷◌, arith, ltb, leb, ◌==◌, if◌then◌else◌, Bool-cases, Option-cases, length,
}
use parallel_io.BoxDecomp.OneDim.{Share}
use parallel_io.BoxDecomp.StartCount.{Shape, Pass, round, volume, pass}
use parallel_io.BoxDecomp.StartCount.Split.{IsArray, Fits, Adjusted, round_lem}

abbrev pub Box : Type 0
Box = List Share

-- A pass over the tasks: whether it converged, the tasks used, and the boxes in the tasks' order.
abbrev pub Plan : Type 0
Plan = Bool × ℕ × List Box

abbrev add_box : Box → Option Plan → Option Plan
add_box b none = none
add_box b (some (c, u, bs)) = some (c, u, b ∷ bs)

-- After a round: stop with success, stop without, or go on with the `rest`.
unfoldable pub after_round : Shape → ℕ → ℕ → ℕ → Box → Option Plan → Option Plan
after_round s procs' iorank tpsize' box rest =
    if tpsize' == product s.gdims && procs' == iorank + 1
    then some (true, procs', box ∷ [])
    else (if leb (product s.gdims) tpsize'
        then some (false, procs', box ∷ [])
        else add_box box rest)

unfoldable pub pass_plan : Shape → ℕ → ℕ → ℕ → ℕ → Option Plan
pass_plan s zero procs iorank tpsize = some (false, procs, [])
pass_plan s (suc fuel) procs iorank tpsize = elim (ltb iorank procs) [
  | false ↦ some (false, procs, [])
  | true ↦ elim (round s procs iorank) [
    | none ↦ none
    | some (procs', box) ↦
        after_round s procs' iorank (tpsize + volume box) box
          (pass_plan s fuel procs' (iorank + 1) (tpsize + volume box))
  ]
]

-- The box that task `myiorank` keeps of the boxes of tasks `i`, `i + 1`, ...
abbrev pub pick : ℕ → ℕ → List Box → Box → Box
pick my i [] mine = mine
pick my i (b ∷ bs) mine = pick my (i + 1) bs (if my == i then b else mine)

abbrev pub as_pass : ℕ → ℕ → Box → Option Plan → Option Pass
as_pass my i mine none = none
as_pass my i mine (some (c, u, bs)) =
    some (record { converged = c; use_io_procs = u; mine = pick my i bs mine })

as_pass-add_box :
    (my i : ℕ) (mine b : Box) (o : Option Plan)
    → as_pass my i mine (add_box b o) ≡ as_pass my (i + 1) (if my == i then b else mine) o
as_pass-add_box my i mine b none = refl
as_pass-add_box my i mine b (some (c, u, bs)) = refl

pub pass-pass_plan :
    (s : Shape) (my fuel procs iorank tpsize : ℕ) (mine : Box)
    → pass s my fuel procs iorank tpsize mine
      ≡ as_pass my iorank mine (pass_plan s fuel procs iorank tpsize)
unfolding pass pass_plan after_round
pass-pass_plan s my zero procs iorank tpsize mine = refl
pass-pass_plan s my (suc fuel) procs iorank tpsize mine =
    elim (Option-cases (round s procs iorank)) [
      | inl e ↦ ground arith
      | inr ((procs', box), e) ↦
          let tpsize' = tpsize + volume box in
          let mine' = if my == iorank then box else mine in
          ground (
            arith,
            pass-pass_plan s my fuel procs' (iorank + 1) tpsize' mine',
            as_pass-add_box my iorank mine box (pass_plan s fuel procs' (iorank + 1) tpsize'),
          )
    ]

-- The sum of the boxes' volumes.
unfoldable pub total : List Box → ℕ
total [] = 0
total (b ∷ bs) = volume b + total bs

abbrev pub AllFit : List ℕ → List Box → Type 0
AllFit gs [] = Unit {0}
AllFit gs (b ∷ bs) = Fits gs b × AllFit gs bs

-- A plan that converged accounts for every element and for every task.
abbrev pub Sound : Shape → ℕ → ℕ → ℕ → Option Plan → Type 0
Sound s procs iorank tpsize none = ⊥
Sound s procs iorank tpsize (some (c, u, bs)) =
    Adjusted procs u
    × AllFit s.gdims bs
    × (c ≡ true → (tpsize + total bs ≡ product s.gdims) × (iorank + length bs ≡ u))

add_box-Sound :
    (s : Shape) (procs procs' iorank tpsize : ℕ) (b : Box) (o : Option Plan)
    → Adjusted procs procs'
    → Fits s.gdims b
    → Sound s procs' (iorank + 1) (tpsize + volume b) o
    → Sound s procs iorank tpsize (add_box b o)
unfolding total
add_box-Sound s procs procs' iorank tpsize b none a f h = h
add_box-Sound s procs procs' iorank tpsize b (some (c, u, bs)) a f (h, fs, k) =
    (omega (arith, a, h), (f, fs), λ e. (omega (arith, (k e).0), omega (arith, (k e).1)))

after_round-Sound :
    (s : Shape) (procs procs' iorank tpsize : ℕ) (b : Box) (o : Option Plan)
    → Adjusted procs procs'
    → Fits s.gdims b
    → Sound s procs' (iorank + 1) (tpsize + volume b) o
    → Sound s procs iorank tpsize (after_round s procs' iorank (tpsize + volume b) b o)
unfolding after_round total
after_round-Sound s procs procs' iorank tpsize b o a f h =
    let more = add_box-Sound s procs procs' iorank tpsize b o a f h in
    elim (Bool-cases (tpsize + volume b == product s.gdims && procs' == iorank + 1)) [
      | inl done ↦
          subst (Sound s procs iorank tpsize) {x = some (true, procs', b ∷ [])} (ground arith)
            (a, (f, tt), λ e. ground arith)
      | inr go ↦ elim (Bool-cases (leb (product s.gdims) (tpsize + volume b))) [
        | inl full ↦
            subst (Sound s procs iorank tpsize) {x = some (false, procs', b ∷ [])} (ground arith)
              (a, (f, tt), λ e. cc)
        | inr part ↦ subst (Sound s procs iorank tpsize) {x = add_box b o} (ground arith) more
      ]
    ]

pub pass_plan-Sound :
    (s : Shape) (fuel procs iorank tpsize : ℕ)
    → IsArray s
    → 0 < procs
    → Sound s procs iorank tpsize (pass_plan s fuel procs iorank tpsize)
unfolding pass_plan
pass_plan-Sound s zero procs iorank tpsize v p = (omega arith, tt, λ e. cc)
pass_plan-Sound s (suc fuel) procs iorank tpsize v p =
    let (procs', box, e, f, a) = round_lem s procs iorank v p in
    let ih = pass_plan-Sound s fuel procs' (iorank + 1) (tpsize + volume box) v a.positive in
    let rest = pass_plan s fuel procs' (iorank + 1) (tpsize + volume box) in
    elim (Bool-cases (ltb iorank procs)) [
      | inr stop ↦
          subst (Sound s procs iorank tpsize) {x = some (false, procs, [])} (ground arith)
            (stopped s procs iorank tpsize p)
      | inl go ↦
          subst (Sound s procs iorank tpsize)
            {x = after_round s procs' iorank (tpsize + volume box) box rest} (ground arith)
            (after_round-Sound s procs procs' iorank tpsize box rest a f ih)
    ]
  where
    stopped :
        (s : Shape) (procs iorank tpsize : ℕ)
        → 0 < procs
        → Sound s procs iorank tpsize (some (false, procs, []))
    stopped s procs iorank tpsize p = (omega arith, tt, λ e. cc)
