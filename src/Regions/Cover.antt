-- ===== src/Regions/Cover.antt =====
-- `get_regions` of src/clib/pio_rearrange.c and the entries of the map that its regions hold.
use parallel_io.Base.{
  length-append, length-drop, ℕ, zero, suc, ◌+◌, ◌-◌, ◌≤◌, ◌<◌, ◌≡◌, refl, ◌∙◌, false, none, some,
  List, [], ◌∷◌, ◌++◌, arith, length, get_elem?, drop,
}
use native.Mathlib.Nat.{mod-eq_of_lt}
use parallel_io.Base.Int.{ℤ, pos, ltb_ℤ}
use parallel_io.Base.Dims.{AllPos, product, product-pos}
use parallel_io.Coords.Index.{lindex, coords}
use parallel_io.Coords.RoundTrip.{coords-InBox, lindex-coords}
use parallel_io.Regions.{Region, find_region, region_loop, skip_holes, get_regions, ones}
use parallel_io.Regions.Find.{Describes, Inside, find_region-Describes}

-- Every entry is a 1-based offset into the array.
abbrev pub AllMapped : List ℕ → List ℤ → Type 0
AllMapped gs [] = Unit {0}
AllMapped gs (m ∷ cells) = ((z : ℕ) × (m ≡ pos (suc z)) × (z < product gs)) × AllMapped gs cells

-- The regions, in their order, take the entries from place `n` on, each as many as its box has
-- cells, and each describes the entries that it takes.
abbrev pub Covers : List ℕ → ℕ → List ℤ → List Region → Type 0
Covers gs n cells [] = cells ≡ []
Covers gs n cells (r ∷ rs) =
    (r.loffset ≡ n)
    × Describes gs cells r
    × (0 < product r.count)
    × (product r.count ≤ length cells)
    × Covers gs (n + product r.count) (drop (product r.count) cells) rs

Inside-AllPos : (ss cs gs : List ℕ) → Inside ss cs gs → AllPos cs
Inside-AllPos [] [] gs i = tt
Inside-AllPos (s ∷ ss) [] gs i = tt
Inside-AllPos [] (c ∷ cs) [] i = elim i [ ]
Inside-AllPos [] (c ∷ cs) (g ∷ gs) i = elim i [ ]
Inside-AllPos (s ∷ ss) (c ∷ cs) [] i = elim i [ ]
Inside-AllPos (s ∷ ss) (c ∷ cs) (g ∷ gs) (p, q, i) = (p, Inside-AllPos ss cs gs i)

lt-of_get : (cells : List ℤ) (n : ℕ) (x : ℤ) → get_elem? cells n ≡ some x → n < length cells
lt-of_get [] n x e = cc
lt-of_get (y ∷ cells) zero x e = omega arith
lt-of_get (y ∷ cells) (suc n) x e = omega (arith, lt-of_get cells n x e)

Describes-le :
    (gs : List ℕ) (cells : List ℤ) (r : Region)
    → Describes gs cells r
    → (0 < product r.count) × (product r.count ≤ length cells)
Describes-le gs cells r d =
    let a = Inside-AllPos d.corner r.count gs d.inside in
    let p = product-pos r.count a in
    let n = product r.count - 1 in
    let ks = coords r.count n in
    let e = lindex-coords r.count n a ∙ mod-eq_of_lt {m = product r.count} (omega arith) in
    let l = lt-of_get cells (lindex ks r.count) _ (d.places ks (coords-InBox r.count n a)) in
    (p, omega arith)

AllMapped-drop :
    (gs : List ℕ) (n : ℕ) (cells : List ℤ) → AllMapped gs cells → AllMapped gs (drop n cells)
AllMapped-drop gs zero cells a = a
AllMapped-drop gs (suc n) [] a = tt
AllMapped-drop gs (suc n) (m ∷ cells) (p, a) = AllMapped-drop gs n cells a

region_loop-Covers :
    (gs : List ℕ) (fuel n : ℕ) (cells : List ℤ)
    → AllPos gs
    → AllMapped gs cells
    → length cells < fuel
    → (rs : List Region) × (region_loop gs fuel n cells ≡ some rs) × Covers gs n cells rs
unfolding region_loop
region_loop-Covers gs zero n cells a m h = absurd (omega arith)
region_loop-Covers gs (suc fuel) n [] a m h = ([], refl, refl)
region_loop-Covers gs (suc fuel) n (x ∷ cells) a ((z, e, l), m) h =
    let r = find_region gs n x cells (ones gs) in
    let len = product r.count in
    let d : Describes gs (x ∷ cells) r = rw e (find_region-Describes gs n z cells a l) in
    let (p, q) = Describes-le gs (x ∷ cells) r d in
    let (rs, f, c) =
      region_loop-Covers gs fuel (n + len) (drop len (x ∷ cells)) a
        (AllMapped-drop gs len (x ∷ cells) ((z, e, l), m))
        (omega (arith, length-drop len (x ∷ cells))) in
    (r ∷ rs, rw f, (refl, d, p, q, c))

abbrev pub AllHoles : List ℤ → Type 0
AllHoles [] = Unit {0}
AllHoles (m ∷ cells) = (ltb_ℤ (pos 0) m ≡ false) × AllHoles cells

skip_holes-append :
    (gs : List ℕ) (holes : List ℤ) (m : ℤ) (cells : List ℤ)
    → AllHoles holes
    → AllMapped gs (m ∷ cells)
    → skip_holes (holes ++ m ∷ cells) ≡ some (length holes)
unfolding skip_holes
skip_holes-append gs [] m cells h ((z, e, l), a) = rw e (ground arith)
skip_holes-append gs (x ∷ holes) m cells (p, h) a = rw (p, skip_holes-append gs holes m cells h a)

drop-append : (xs ys : List ℤ) → drop (length xs) (xs ++ ys) ≡ ys
drop-append [] ys = refl
drop-append (x ∷ xs) ys = drop-append xs ys

length-suffix : (xs ys : List ℤ) → length ys ≤ length (xs ++ ys)
length-suffix xs ys = omega (arith, length-append xs ys)

get_regions-loop :
    (gs : List ℕ) (cells : List ℤ) (first : Region) (n : ℕ)
    → skip_holes cells ≡ some n
    → get_regions gs (some cells) first ≡ region_loop gs (length cells + 1) n (drop n cells)
unfolding get_regions
get_regions-loop gs cells first n e = rw (e, get_regions)

-- The dimensions are positive; holes stand only before the first mapped entry. Then `get_regions` ends, and its
-- regions take the mapped entries one after the other.
pub get_regions-Covers :
    (gs : List ℕ) (holes : List ℤ) (m : ℤ) (cells : List ℤ) (first : Region)
    → AllPos gs
    → AllHoles holes
    → AllMapped gs (m ∷ cells)
    → (rs : List Region) × (get_regions gs (some (holes ++ m ∷ cells)) first ≡ some rs)
      × Covers gs (length holes) (m ∷ cells) rs
get_regions-Covers gs holes m cells first a h v =
    let whole = holes ++ m ∷ cells in
    let e = skip_holes-append gs holes m cells h v in
    let (rs, f, c) =
      region_loop-Covers gs (length whole + 1) (length holes) (m ∷ cells) a v
        (omega (arith, length-suffix holes (m ∷ cells))) in
    (rs, get_regions-loop gs whole first (length holes) e ∙ rw (drop-append holes (m ∷ cells)) f, c)

skip_holes-none : (holes : List ℤ) → AllHoles holes → skip_holes holes ≡ none
unfolding skip_holes
skip_holes-none [] h = refl
skip_holes-none (x ∷ holes) (p, h) = rw (p, skip_holes-none holes h)

-- The search for the first mapped entry reads past the end of a map that has only holes.
pub get_regions-AllHoles :
    (gs : List ℕ) (holes : List ℤ) (first : Region)
    → AllHoles holes
    → get_regions gs (some holes) first ≡ none
unfolding get_regions
get_regions-AllHoles gs holes first h = rw (skip_holes-none holes h, get_regions)
