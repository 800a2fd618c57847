-- ===== src/BoxDecomp/StartCount/Split.antt =====
-- Lemmas on one round of the loop over tasks in `CalcStartandCount`, src/clib/pioc_sc.c: a task's box
-- and the number of tasks.
use parallel_io.Base.Dims.{AllPos, product}
use parallel_io.Base.{
  ℕ, zero, suc, ◌+◌, ◌-◌, ◌*◌, ◌/◌, ◌%◌, ◌≤◌, ◌<◌, ◌≡◌, refl, ap, Option, some, List, [], ◌∷◌, map,
  arith, dec_lt, dec_le, length, get_or,
}
use parallel_io.BoxDecomp.OneDim.{Share, compute_one_dim, compute_one_dim-le}
use parallel_io.BoxDecomp.StartCount.{
  whole, find_ldims, adjust, cons_share, split, volume, Shape, round,
}

-- The box has a share for every dimension, and each ends within its dimension.
abbrev pub Fits : List ℕ → List Share → Type 0
Fits [] [] = Unit {0}
Fits [] (s ∷ r) = ⊥
Fits (g ∷ gs) [] = ⊥
Fits (g ∷ gs) (s ∷ r) = (s.start + s.count ≤ g) × Fits gs r

pub whole-Fits : (gs : List ℕ) → Fits gs (map whole gs)
whole-Fits [] = tt
whole-Fits (g ∷ gs) = (omega arith, whole-Fits gs)

abbrev Splits : List ℕ → Option (List Share) → Type 0
Splits gs r = (box : List Share) × (r ≡ some box) × Fits gs box

cons-Splits :
    (g : ℕ) (gs : List ℕ) (s : Share) (r : Option (List Share))
    → s.start + s.count ≤ g
    → Splits gs r
    → Splits (g ∷ gs) (cons_share s r)
cons-Splits g gs s r h (box, e, f) = (s ∷ box, rw e, (h, f))

-- The loop over dimensions does not reach `piodie`.
split-Splits :
    (iorank k ioprocs tiorank : ℕ) (gs : List ℕ)
    → 0 < ioprocs
    → AllPos gs
    → Splits gs (split iorank k ioprocs tiorank gs)
unfolding split
split-Splits iorank zero ioprocs tiorank gs p a = (map whole gs, refl, whole-Fits gs)
split-Splits iorank (suc k) ioprocs tiorank [] p a = ([], refl, tt)
split-Splits iorank (suc k) ioprocs tiorank (g ∷ gs) p (gp, a) = elim (dec_le ioprocs g) [
  | yes enough ↦
      let s = compute_one_dim g ioprocs tiorank in
      let h = compute_one_dim-le g ioprocs tiorank p in
      let (box, e, f) = split-Splits iorank k ioprocs tiorank gs p a in
      (s ∷ box, ground arith, (h, f))
  | no few ↦ elim (dec_lt 1 g) [
    | yes more ↦
        let s = compute_one_dim g g (iorank * g / ioprocs) in
        let h = compute_one_dim-le g g (iorank * g / ioprocs) gp in
        let q : 0 < ioprocs / g = grind arith in
        let (box, e, f) = split-Splits iorank k (ioprocs / g) (iorank % (ioprocs / g)) gs q a in
        (s ∷ box, ground arith, (h, f))
    | no one ↦
        let (box, e, f) = split-Splits iorank k ioprocs tiorank gs p a in
        (whole g ∷ box, ground arith, (omega arith, f))
  ]
]

find_ldims-lt :
    (gdims : List ℕ) (procs maxbytes k p : ℕ)
    → 0 < length gdims
    → k ≤ length gdims
    → find_ldims gdims procs maxbytes k p < length gdims
unfolding find_ldims
find_ldims-lt gdims procs maxbytes zero p n h = omega arith
find_ldims-lt gdims procs maxbytes (suc k) p n h =
    ground (arith, find_ldims-lt gdims procs maxbytes k (p * get_or gdims k 0) n)

AllPos-get_or : (gs : List ℕ) (i : ℕ) → AllPos gs → i < length gs → 0 < get_or gs i 0
AllPos-get_or [] i a h = absurd (omega arith)
AllPos-get_or (g ∷ gs) zero (p, a) h = p
AllPos-get_or (g ∷ gs) (suc i) (p, a) h = AllPos-get_or gs i a (omega arith)

-- `procs - procs % g`, with `g` below `procs`, keeps at least `g`, and at least 2.
round_down :
    (procs g : ℕ)
    → 0 < g
    → g < procs
    → (0 < procs - procs % g) × (procs - procs % g ≤ procs) × (2 ≤ procs - procs % g)
round_down procs g p h = elim (dec_lt 1 g) [
  | yes more ↦ (grind arith, omega arith, grind arith)
  | no one ↦ let e : g ≡ 1 = omega arith in rw e (omega arith)
]

pub record Adjusted (procs procs' : ℕ) : Type 0 where
  pub positive : 0 < procs'
  pub no_more : procs' ≤ procs
  pub two_stay : 2 ≤ procs → 2 ≤ procs'

adjust-Adjusted :
    (gdims : List ℕ) (ldims procs : ℕ)
    → 0 < procs
    → AllPos gdims
    → ldims < length gdims
    → Adjusted procs (adjust gdims ldims procs).1
unfolding adjust
adjust-Adjusted gdims ldims procs p a h =
    let g = get_or gdims ldims 0 in
    let gp : 0 < g = AllPos-get_or gdims ldims a h in
    elim (dec_lt g procs) [
      | yes few ↦ let r = round_down procs g gp few in ground arith
      | no enough ↦ ground arith
    ]

-- The array has a dimension, and an element.
pub record IsArray (s : Shape) : Type 0 where
  pub has_dims : 0 < length s.gdims
  pub all_pos : AllPos s.gdims

-- Every round ends with a box, and with a number of tasks that is positive and has not grown.
pub round_lem :
    (s : Shape) (procs iorank : ℕ)
    → IsArray s
    → 0 < procs
    → (procs' : ℕ) × (box : List Share) × (round s procs iorank ≡ some (procs', box))
      × Fits s.gdims box
      × Adjusted procs procs'
unfolding round
round_lem s procs iorank v p =
    let n = length s.gdims in
    let ldims = find_ldims s.gdims procs s.maxbytes n s.basesize in
    let l = find_ldims-lt s.gdims procs s.maxbytes n s.basesize v.has_dims (omega arith) in
    let a = adjust s.gdims ldims procs in
    let good = adjust-Adjusted s.gdims ldims procs p v.all_pos l in
    let (box, e, f) = split-Splits iorank (a.0 + 1) a.1 iorank s.gdims good.positive v.all_pos in
    (a.1, box, rw e, f, good)

one_share : (g rank : ℕ) → compute_one_dim g 1 rank ≡ whole g
unfolding compute_one_dim
one_share g rank = ground arith

-- With one task nothing is split.
split_one : (k tiorank : ℕ) (gs : List ℕ) → AllPos gs → split 0 k 1 tiorank gs ≡ some (map whole gs)
unfolding split
split_one zero tiorank gs a = refl
split_one (suc k) tiorank [] a = refl
split_one (suc k) tiorank (g ∷ gs) (p, a) =
    ground (arith, one_share g tiorank, split_one k tiorank gs a)

volume-whole : (gs : List ℕ) → volume (map whole gs) ≡ product gs
unfolding volume product
volume-whole [] = refl
volume-whole (g ∷ gs) = ap (λ (t : ℕ). g * t) (volume-whole gs)

adjust_one :
    (gdims : List ℕ) (ldims : ℕ) → 0 < get_or gdims ldims 0 → adjust gdims ldims 1 ≡ (ldims, 1)
unfolding adjust
adjust_one gdims ldims p = ground arith

-- With one task the round gives the whole array.
pub round_one :
    (s : Shape)
    → IsArray s
    → (box : List Share) × (round s 1 0 ≡ some (1, box)) × (volume box ≡ product s.gdims)
unfolding round
round_one s v =
    let n = length s.gdims in
    let ldims = find_ldims s.gdims 1 s.maxbytes n s.basesize in
    let l = find_ldims-lt s.gdims 1 s.maxbytes n s.basesize v.has_dims (omega arith) in
    let e = adjust_one s.gdims ldims (AllPos-get_or s.gdims ldims v.all_pos l) in
    (map whole s.gdims, rw (e, split_one (ldims + 1) 0 s.gdims v.all_pos), volume-whole s.gdims)
