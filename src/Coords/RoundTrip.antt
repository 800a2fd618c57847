-- ===== src/Coords/RoundTrip.antt =====
-- `idx_to_dim_list` and `coord_to_lindex` of src/clib/pio_rearrange.c, one after the other.
use parallel_io.Base.Dims.{AllPos, product, product-pos}
use parallel_io.Base.{
  ap₂, ℕ, ◌+◌, ◌*◌, ◌/◌, ◌%◌, ◌<◌, ◌≡◌, refl, sym, ap, ◌∙◌, List, [], ◌∷◌, map, arith,
}
use native.Mathlib.Nat.{
  div-eq_of_lt, div-add-mod', add-mul-mod_self_right, mod-eq_of_lt, mul-add-div_right,
  div-div-eq-div-mul,
}
use parallel_io.Base.Int.{ℤ, pos, quot, *ℤ-pos, -ℤ-pos}
use parallel_io.Coords.{walk, idx_to_dim_list, coord_to_lindex}
use parallel_io.Coords.Index.{lindex, InBox, lindex-lt, coords, coord_to_lindex-lindex}

walk-coords :
    (gs : List ℕ) (n : ℕ) → walk gs (pos n) ≡ (map pos (coords gs n), pos (n / product gs))
unfolding walk coords quot
walk-coords [] n = ap (λ (t : ℕ). ([], pos t)) (omega arith)
walk-coords (g ∷ gs) n =
    let q = n / product gs in
    rw (walk-coords gs n, *ℤ-pos (q / g) g, -ℤ-pos q (q / g * g) (omega (arith, div-add-mod' q g)))
      (ap₂ (λ (a b : ℕ). (pos a ∷ map pos (coords gs n), pos b)) (omega (arith, div-add-mod' q g))
        (div-div-eq-div-mul n (product gs) g ∙ ap (λ (t : ℕ). n / t) (omega arith)))

pub idx_to_dim_list-coords :
    (gs : List ℕ) (n : ℕ) → idx_to_dim_list gs (pos n) ≡ map pos (coords gs n)
unfolding idx_to_dim_list
idx_to_dim_list-coords gs n = ap (λ (t : List ℤ × ℤ). t.0) (walk-coords gs n)

-- The coordinates of any index lie in the array.
pub coords-InBox : (gs : List ℕ) (n : ℕ) → AllPos gs → InBox (coords gs n) gs
unfolding coords
coords-InBox [] n a = tt
coords-InBox (g ∷ gs) n (p, a) = (omega arith, coords-InBox gs n a)

pub digit_mod : (n p g : ℕ) → 0 < p → 0 < g → n / p % g * p + n % p ≡ n % (g * p)
digit_mod n p g pp gp =
    let q = n / p / g in
    let r = n / p % g * p + n % p in
    let e : n ≡ r + q * (g * p) =
      omega (arith, div-add-mod' n p, ap (λ (t : ℕ). t * p) (div-add-mod' (n / p) g)) in
    let d : n / p % g < g = omega arith in
    let l : n % p < p = omega arith in
    let k : r < g * p = below (n / p % g) (n % p) d l in
    sym (
      ap (λ (t : ℕ). t % (g * p)) e
      ∙ add-mul-mod_self_right r q (g * p)
      ∙ mod-eq_of_lt {n = r} {m = g * p} k)
  where
    below : (a b : ℕ) → a < g → b < p → a * p + b < g * p
    below a b h k = grind arith

pub lindex-coords : (gs : List ℕ) (n : ℕ) → AllPos gs → lindex (coords gs n) gs ≡ n % product gs
unfolding lindex coords
lindex-coords [] n a = omega arith
lindex-coords (g ∷ gs) n (p, a) =
    rw (lindex-coords gs n a) (digit_mod n (product gs) g (product-pos gs a) p)

pub digit_unique : (c d l m p : ℕ) → l < p → m < p → c * p + l ≡ d * p + m → (c ≡ d) × (l ≡ m)
digit_unique c d l m p h k e =
    let f : (c * p + l) / p ≡ c = quotient c l h in
    let g : (d * p + m) / p ≡ d = quotient d m k in
    let same : c ≡ d = sym f ∙ ap (λ (t : ℕ). t / p) e ∙ g in
    (same, omega (arith, ap (λ (t : ℕ). t * p) same))
  where
    quotient : (a b : ℕ) → b < p → (a * p + b) / p ≡ a
    quotient a b h =
        mul-add-div_right (omega arith) a b ∙ (let z : b / p ≡ 0 = div-eq_of_lt h in omega arith)

pub lindex-injective :
    (cs ds gs : List ℕ) → InBox cs gs → InBox ds gs → lindex cs gs ≡ lindex ds gs → cs ≡ ds
unfolding lindex
lindex-injective [] [] gs h k e = refl
lindex-injective [] (d ∷ ds) [] h k e = elim k [ ]
lindex-injective [] (d ∷ ds) (g ∷ gs) h k e = elim h [ ]
lindex-injective (c ∷ cs) [] [] h k e = elim h [ ]
lindex-injective (c ∷ cs) [] (g ∷ gs) h k e = elim k [ ]
lindex-injective (c ∷ cs) (d ∷ ds) [] h k e = elim h [ ]
lindex-injective (c ∷ cs) (d ∷ ds) (g ∷ gs) (p, h) (q, k) e =
    let (f, r) =
      digit_unique c d (lindex cs gs) (lindex ds gs) (product gs) (lindex-lt cs gs h)
        (lindex-lt ds gs k) e in
    ap₂ (◌∷◌) f (lindex-injective cs ds gs h k r)

-- For positive dimensions, an index of the array comes back from its coordinates.
pub coord_to_lindex-idx_to_dim_list :
    (gs : List ℕ) (n : ℕ)
    → AllPos gs
    → n < product gs
    → coord_to_lindex (idx_to_dim_list gs (pos n)) (map pos gs) ≡ pos n
coord_to_lindex-idx_to_dim_list gs n a h =
    rw (idx_to_dim_list-coords gs n, coord_to_lindex-lindex (coords gs n) gs (coords-InBox gs n a))
      (ap pos (lindex-coords gs n a ∙ mod-eq_of_lt h))

-- For positive dimensions, coordinates in the array come back from their index.
pub idx_to_dim_list-coord_to_lindex :
    (cs gs : List ℕ)
    → AllPos gs
    → InBox cs gs
    → idx_to_dim_list gs (coord_to_lindex (map pos cs) (map pos gs)) ≡ map pos cs
idx_to_dim_list-coord_to_lindex cs gs a h =
    let n = lindex cs gs in
    let e = lindex-coords gs n a ∙ mod-eq_of_lt (lindex-lt cs gs h) in
    rw (coord_to_lindex-lindex cs gs h, idx_to_dim_list-coords gs n)
      (ap (map pos) (lindex-injective (coords gs n) cs gs (coords-InBox gs n a) h e))
