-- ===== src/Regions/Expand.antt =====
-- `expand_region` of src/clib/pio_rearrange.c: the box it takes from the map, and its strides.
use parallel_io.Base.{
  ℕ, zero, suc, ◌+◌, ◌*◌, ◌≤◌, ◌<◌, ◌≡◌, refl, sym, ap, subst, ◌∙◌, inl, inr, true, false, some,
  List, [], ◌∷◌, arith, ℕ_discrete, Bool-cases, Option-cases, get_elem?,
}
use parallel_io.Base.Int.{ℤ, pos, ◌+ℤ◌, ==ℤ_iff}
use parallel_io.Base.Dims.{product}
use parallel_io.Coords.Index.{lindex, InBox, lindex-lt}
use parallel_io.Regions.{row_ok, dim_loop, expand_region, Expansion, ones}

-- Row `a` of the map is the first row, moved by `a * stride`, for the rows below `i`.
abbrev Rows : List ℤ → ℕ → ℕ → ℕ → Type 0
Rows cells size stride i =
    (a j : ℕ) (x : ℤ)
    → a < i
    → j < size
    → get_elem? cells j ≡ some x
    → get_elem? cells (a * size + j) ≡ some (x +ℤ pos (a * stride))

row_ok_head :
    (cells : List ℤ) (i size stride n j : ℕ) (x y : ℤ)
    → row_ok cells i size stride (suc n) j ≡ true
    → get_elem? cells (i * size + j) ≡ some x
    → get_elem? cells j ≡ some y
    → x ≡ y +ℤ pos (i * stride)
unfolding row_ok
row_ok_head cells i size stride n j x y h e f =
    let k = (==ℤ_iff x (y +ℤ pos (i * stride))).0 in ground (arith, k)

row_ok_cell :
    (cells : List ℤ) (i size stride n j : ℕ)
    → row_ok cells i size stride (suc n) j ≡ true
    → (x : ℤ) × (get_elem? cells (i * size + j) ≡ some x)
unfolding row_ok
row_ok_cell cells i size stride n j h = elim (Option-cases (get_elem? cells (i * size + j))) [
  | inl e ↦ absurd (ground arith)
  | inr (x, e) ↦ (x, e)
]

row_ok_lem :
    (cells : List ℤ) (i size stride n j k : ℕ) (y : ℤ)
    → row_ok cells i size stride n j ≡ true
    → j ≤ k
    → k < j + n
    → get_elem? cells k ≡ some y
    → get_elem? cells (i * size + k) ≡ some (y +ℤ pos (i * stride))
unfolding row_ok
row_ok_lem cells i size stride zero j k y h p q e = absurd (omega arith)
row_ok_lem cells i size stride (suc n) j k y h p q e = elim (ℕ_discrete j k) [
  | yes here ↦
      let (x, f) = row_ok_cell cells i size stride n j h in
      let d : get_elem? cells j ≡ some y = subst (λ t. get_elem? cells t ≡ some y) (sym here) e in
      let g = row_ok_head cells i size stride n j x y h f d in
      subst (λ t. get_elem? cells (i * size + t) ≡ some (y +ℤ pos (i * stride))) here
        (f ∙ ap some g)
  | no later ↦
      row_ok_lem cells i size stride n (j + 1) k y (ground arith) (omega arith) (omega arith) e
]

+ℤ-zero : (x : ℤ) → x +ℤ pos 0 ≡ x
unfolding ◌+ℤ◌
+ℤ-zero x = ground arith

+ℤ-regroup : (m : ℤ) (a b : ℕ) → m +ℤ pos a +ℤ pos b ≡ m +ℤ pos (b + a)
unfolding ◌+ℤ◌
+ℤ-regroup m a b = ground arith

Rows-one : (cells : List ℤ) (size stride : ℕ) → Rows cells size stride 1
Rows-one cells size stride a j x p q e =
    let z : a ≡ 0 = omega arith in
    let f : a * size + j ≡ j = rw z (omega arith) in
    let g : a * stride ≡ 0 = rw z (omega arith) in rw (f, g, +ℤ-zero x) e

Rows-suc :
    (cells : List ℤ) (size stride i : ℕ)
    → Rows cells size stride i
    → row_ok cells i size stride size 0 ≡ true
    → Rows cells size stride (i + 1)
Rows-suc cells size stride i r h a j x p q e = elim (ℕ_discrete a i) [
  | yes last ↦ rw last (row_ok_lem cells i size stride size 0 j x h (omega arith) (omega arith) e)
  | no earlier ↦ r a j x (omega arith) q e
]

-- The rows that `dim_loop` counts are there, at most as many as there is room for.
record Counted (cells : List ℤ) (size stride limit c : ℕ) : Type 0 where
  rows : Rows cells size stride c
  positive : 0 < c
  bounded : c ≤ limit

dim_loop-Counted :
    (cells : List ℤ) (size stride k i c limit : ℕ)
    → Rows cells size stride i
    → 0 < c
    → c ≤ i
    → c ≤ limit
    → i + k ≤ limit + 1
    → Counted cells size stride limit (dim_loop cells size stride k i c).0
unfolding dim_loop
dim_loop-Counted cells size stride zero i c limit r p q l m = record {
  rows = λ a j x s. r a j x (omega arith);
  positive = p;
  bounded = l;
}
dim_loop-Counted cells size stride (suc k) i c limit r p q l m =
    elim (Bool-cases (row_ok cells i size stride size 0)) [
      | inl good ↦
          subst (Counted cells size stride limit) {x = (dim_loop cells size stride k (i + 1) i).0}
            (ground arith)
            (dim_loop-Counted cells size stride k (i + 1) i limit
              (Rows-suc cells size stride i r good) (omega arith) (omega arith) (omega arith)
              (omega arith))
      | inr bad ↦
          subst (Counted cells size stride limit) {x = i} (ground arith)
            (record { rows = r; positive = omega arith; bounded = omega arith })
    ]

-- Every cell of the box of these counts is in the map, at its place.
abbrev pub Placed : List ℤ → ℤ → List ℕ → List ℕ → Type 0
Placed cells m gs count =
    (ks : List ℕ)
    → InBox ks count
    → get_elem? cells (lindex ks count) ≡ some (m +ℤ pos (lindex ks gs))

abbrev pub Within : List ℕ → List ℕ → Type 0
Within [] [] = Unit {0}
Within [] (m ∷ ms) = ⊥
Within (c ∷ cs) [] = ⊥
Within (c ∷ cs) (m ∷ ms) = (0 < c) × (c ≤ m) × Within cs ms

pub record Expands (cells : List ℤ) (m : ℤ) (gs ms : List ℕ) (e : Expansion) : Type 0 where
  pub placed : Placed cells m gs e.count
  pub within : Within e.count ms
  pub arguments : e.more ≡ true → (e.size ≡ product e.count) × (e.stride ≡ product gs)

-- One dimension more, at count `c`, whose rows are there.
Placed-Rows :
    (cells : List ℤ) (m : ℤ) (gs count : List ℕ) (g c : ℕ)
    → Placed cells m gs count
    → Rows cells (product count) (product gs) c
    → Placed cells m (g ∷ gs) (c ∷ count)
unfolding lindex
Placed-Rows cells m gs count g c p r [] h = elim h [ ]
Placed-Rows cells m gs count g c p r (k ∷ ks) (q, h) =
    let f = r k (lindex ks count) (m +ℤ pos (lindex ks gs)) q (lindex-lt ks count h) (p ks h) in
    f ∙ ap some (+ℤ-regroup m (lindex ks gs) (k * product gs))

-- One dimension more, not expanded.
Placed-one :
    (cells : List ℤ) (m : ℤ) (gs count : List ℕ) (g : ℕ)
    → Placed cells m gs count
    → Placed cells m (g ∷ gs) (1 ∷ count)
Placed-one cells m gs count g p =
    Placed-Rows cells m gs count g 1 p (Rows-one cells (product count) (product gs))

expand_done :
    (g m : ℕ) (gs ms count : List ℕ) (cells : List ℤ) (old : ℕ)
    → (expand_region gs ms cells count).more ≡ false
    → expand_region (g ∷ gs) (m ∷ ms) cells (old ∷ count)
      ≡ record (expand_region gs ms cells count) {
        count = old ∷ (expand_region gs ms cells count).count;
      }
unfolding expand_region
expand_done g m gs ms count cells old e = rw e

expand_more :
    (g m : ℕ) (gs ms count : List ℕ) (cells : List ℤ) (old : ℕ)
    → (expand_region gs ms cells count).more ≡ true
    → let e = expand_region gs ms cells count in
      let d = dim_loop cells e.size e.stride m 1 old in
      expand_region (g ∷ gs) (m ∷ ms) cells (old ∷ count)
      ≡ record { count = d.0 ∷ e.count; size = e.size * d.0; stride = e.stride * g; more = d.1 }
unfolding expand_region
expand_more g m gs ms count cells old e = rw e

expand_nil :
    (cells : List ℤ) (m : ℤ)
    → get_elem? cells 0 ≡ some m
    → Expands cells m [] [] (expand_region [] [] cells [])
unfolding expand_region lindex product
expand_nil cells m f = record {
  placed = λ ks h. nil ks h;
  within = tt;
  arguments = λ t. (refl, refl);
}
  where
    nil :
        (ks : List ℕ)
        → InBox ks []
        → get_elem? cells (lindex ks []) ≡ some (m +ℤ pos (lindex ks []))
    nil [] h = f ∙ ap some (sym (+ℤ-zero m))
    nil (k ∷ ks) h = elim h [ ]

Rows-at :
    (cells : List ℤ) (size stride size' stride' c : ℕ)
    → size ≡ size'
    → stride ≡ stride'
    → Rows cells size stride c
    → Rows cells size' stride' c
Rows-at cells size stride size' stride' c p q r =
    subst (λ t. Rows cells t stride' c) p (subst (λ t. Rows cells size t c) q r)

product-cons : (c : ℕ) (cs : List ℕ) → product (c ∷ cs) ≡ c * product cs
unfolding product
product-cons c cs = refl

-- The counts that are found, from all counts 1 on, describe a box of the map.
pub expand_region-Expands :
    (gs ms : List ℕ) (cells : List ℤ) (m : ℤ)
    → get_elem? cells 0 ≡ some m
    → Within (ones gs) ms
    → Expands cells m gs ms (expand_region gs ms cells (ones gs))
expand_region-Expands [] [] cells m f w = expand_nil cells m f
expand_region-Expands [] (n ∷ ms) cells m f w = elim w [ ]
expand_region-Expands (g ∷ gs) [] cells m f w = elim w [ ]
expand_region-Expands (g ∷ gs) (n ∷ ms) cells m f (p, q, w) =
    let e = expand_region gs ms cells (ones gs) in
    let ih = expand_region-Expands gs ms cells m f w in
    elim (Bool-cases e.more) [
      | inr stop ↦ rw (expand_done g n gs ms (ones gs) cells 1 stop) (record {
        placed = Placed-one cells m gs e.count g ih.placed;
        within = (p, q, ih.within);
        arguments = λ t. absurd (cc stop);
      })
      | inl go ↦
          let args = ih.arguments go in
          let d =
            dim_loop-Counted cells e.size e.stride n 1 1 n (Rows-one cells e.size e.stride)
              (omega arith) (omega arith) q (omega arith) in
          rw (expand_more g n gs ms (ones gs) cells 1 go) (record {
            placed =
                Placed-Rows cells m gs e.count g _ ih.placed
                  (Rows-at cells e.size e.stride _ _ _ args.0 args.1 d.rows);
            within = (d.positive, d.bounded, ih.within);
            arguments = λ t.
                let c = (dim_loop cells e.size e.stride n 1 1).0 in
                (
                  omega (arith, product-cons c e.count, ap (λ (t : ℕ). t * c) args.0),
                  omega (arith, product-cons g gs, ap (λ (t : ℕ). t * g) args.1),
                );
          })
    ]
