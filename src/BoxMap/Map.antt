-- ===== src/BoxMap/Map.antt =====
-- What the map of `PIOc_InitDecomp_bc` holds.
use parallel_io.Base.{
  ℕ, zero, suc, ◌+◌, ◌/◌, ◌%◌, ◌≤◌, ◌<◌, ◌≡◌, refl, sym, ap, ◌∙◌, false, some, List, [], ◌∷◌, map,
  arith, length, get_elem?, replicate,
}
use parallel_io.Base.Dims.{AllPos, product}
use parallel_io.Base.Error.{ok}
use parallel_io.Base.Int.{ℤ, pos, abs, +ℤ-pos}
use native.Mathlib.Nat.{zero-div, mod-eq_of_lt}
use parallel_io.Coords.Index.{lindex, coords, InBox, lindex-lt}
use parallel_io.Coords.RoundTrip.{coords-InBox, lindex-injective, lindex-coords}
use parallel_io.BoxMap.{prods, entry, advance, entries, box_map, box_refused, init_decomp_bc}
use parallel_io.Registry.Iosystems.{Iosystem, get_iosystem_from_id}
use parallel_io.BoxMap.Odometer.{advance-coords}

-- The coordinates in the array of coordinates in the box.
abbrev pub shift : List ℕ → List ℕ → List ℕ
shift (s ∷ start) (c ∷ cs) = (s + c) ∷ shift start cs
shift start cs = []

-- The box has a length and a start for each dimension, and lies in the array.
abbrev pub Fits : List ℕ → List ℕ → List ℕ → Type 0
Fits [] [] [] = Unit {0}
Fits (g ∷ gs) (s ∷ start) (c ∷ count) = (s + c ≤ g) × Fits gs start count
Fits gs start count = ⊥

prods-product : (gs : List ℕ) → (prods gs).1 ≡ product gs
unfolding prods product
prods-product [] = refl
prods-product (g ∷ gs) = rw (prods-product gs) (omega arith)

entry-lindex :
    (gs start count cs : List ℕ)
    → Fits gs start count
    → InBox cs count
    → entry start cs (prods gs).0 ≡ lindex (shift start cs) gs + 1
unfolding entry prods lindex
entry-lindex [] [] [] [] f h = refl
entry-lindex (g ∷ gs) (s ∷ start) (c ∷ count) (l ∷ cs) (lt, f) (p, h) =
    rw (entry-lindex gs start count cs f h, prods-product gs) (omega arith)
entry-lindex [] [] [] (l ∷ cs) f h = absurd h
entry-lindex (g ∷ gs) (s ∷ start) (c ∷ count) [] f h = absurd h
entry-lindex gs start count cs f h = absurd f

shift-InBox :
    (gs start count cs : List ℕ) → Fits gs start count → InBox cs count → InBox (shift start cs) gs
shift-InBox [] [] [] [] f h = tt
shift-InBox (g ∷ gs) (s ∷ start) (c ∷ count) (l ∷ cs) (lt, f) (p, h) =
    (omega arith, shift-InBox gs start count cs f h)
shift-InBox [] [] [] (l ∷ cs) f h = absurd h
shift-InBox (g ∷ gs) (s ∷ start) (c ∷ count) [] f h = absurd h
shift-InBox gs start count cs f h = absurd f

length-entries :
    (n : ℕ) (count start prod loc : List ℕ) → length (entries n count start prod loc) ≡ n
unfolding entries
length-entries zero count start prod loc = refl
length-entries (suc n) count start prod loc =
    ap suc (length-entries n count start prod (advance count loc).0)

entries-coords :
    (n i j : ℕ) (count start prod : List ℕ)
    → AllPos count
    → i < n
    → get_elem? (entries n count start prod (coords count j)) i
      ≡ some (entry start (coords count (j + i)) prod)
unfolding entries
entries-coords zero i j count start prod h lt = absurd (omega arith)
entries-coords (suc n) zero j count start prod h lt = let e : j + 0 ≡ j = omega arith in rw (e) refl
entries-coords (suc n) (suc i) j count start prod h lt =
    let e : j + suc i ≡ j + 1 + i = omega arith in
    rw (advance-coords count j h, e) (entries-coords n i (j + 1) count start prod h (omega arith))

first-coords : (count : List ℕ) → AllPos count → replicate (length count) 0 ≡ coords count 0
unfolding coords
first-coords [] h = refl
first-coords (c ∷ count) (hc, h) =
    let e : 0 / product count % c ≡ 0 = rw (zero-div (product count)) (omega arith) in
    rw (e, first-coords count h) refl

product-AllPos : (count : List ℕ) → 0 < product count → AllPos count
unfolding product
product-AllPos [] h = tt
product-AllPos (zero ∷ count) h = absurd (omega arith)
product-AllPos (suc c ∷ count) h = (omega arith, product-AllPos count (grind arith))

shift-injective :
    (gs start count cs ds : List ℕ)
    → Fits gs start count
    → InBox cs count
    → InBox ds count
    → shift start cs ≡ shift start ds
    → cs ≡ ds
shift-injective [] [] [] [] [] f h k e = refl
shift-injective (g ∷ gs) (s ∷ start) (c ∷ count) (l ∷ cs) (m ∷ ds) (lt, f) (p, h) (q, k) e =
    let (same, rest) = parts e in
    rw (shift-injective gs start count cs ds f h k rest) (ap (λ t. t ∷ ds) (omega arith))
  where
    parts : {a b : ℕ} {xs ys : List ℕ} → a ∷ xs ≡ b ∷ ys → (a ≡ b) × (xs ≡ ys)
    parts e = (cc, cc)
shift-injective [] [] [] [] (m ∷ ds) f h k e = absurd k
shift-injective [] [] [] (l ∷ cs) ds f h k e = absurd h
shift-injective (g ∷ gs) (s ∷ start) (c ∷ count) [] ds f h k e = absurd h
shift-injective (g ∷ gs) (s ∷ start) (c ∷ count) (l ∷ cs) [] f h k e = absurd k
shift-injective gs start count cs ds f h k e = absurd f

-- Its length, its entries in the order of the box, where they lie, and that no two are the same.
pub record IsBoxMap (gs start count m : List ℕ) : Type 0 where
  pub len : length m ≡ product count
  pub at :
      (i : ℕ)
      → i < product count
      → get_elem? m i ≡ some (lindex (shift start (coords count i)) gs + 1)
  pub in_array : (i x : ℕ) → i < product count → get_elem? m i ≡ some x → (0 < x) × (x ≤ product gs)
  pub distinct :
      (i j x : ℕ)
      → i < product count
      → j < product count
      → get_elem? m i ≡ some x
      → get_elem? m j ≡ some x
      → i ≡ j

box_map-at :
    (gs start count : List ℕ)
    → Fits gs start count
    → (i : ℕ) → i < product count
    → get_elem? (box_map gs start count) i ≡ some (lindex (shift start (coords count i)) gs + 1)
unfolding box_map
box_map-at gs start count f i lt =
    let h = product-AllPos count (omega arith) in
    let z : 0 + i ≡ i = omega arith in
    rw (first-coords count h, entries-coords (product count) i 0 count start (prods gs).0 h lt, z)
      (rw (entry-lindex gs start count (coords count i) f (coords-InBox count i h)) refl)

length-box_map : (gs start count : List ℕ) → length (box_map gs start count) ≡ product count
unfolding box_map
length-box_map gs start count =
    length-entries (product count) count start (prods gs).0 (replicate (length count) 0)

box_map-IsBoxMap :
    (gs start count : List ℕ)
    → Fits gs start count
    → IsBoxMap gs start count (box_map gs start count)
box_map-IsBoxMap gs start count f =
    let at_i = box_map-at gs start count f in
    let inside = λ (i : ℕ) (h : AllPos count).
      shift-InBox gs start count (coords count i) f (coords-InBox count i h) in
    record {
      len = length-box_map gs start count;
      at = at_i;
      in_array = λ i x lt e.
          let h = product-AllPos count (omega arith) in
          let e' = at_i i lt in
          let same : x ≡ lindex (shift start (coords count i)) gs + 1 = cc in
          let below = lindex-lt (shift start (coords count i)) gs (inside i h) in
          (omega arith, omega arith);
      distinct = λ i j x lt lt' e e'.
          let h = product-AllPos count (omega arith) in
          let ei = at_i i lt in
          let ej = at_i j lt' in
          let same : lindex (shift start (coords count i)) gs + 1
              ≡ lindex (shift start (coords count j)) gs + 1 =
            cc in
          let shifted =
            lindex-injective (shift start (coords count i)) (shift start (coords count j)) gs
              (inside i h) (inside j h) (omega arith) in
          let cs =
            shift-injective gs start count (coords count i) (coords count j) f
              (coords-InBox count i h) (coords-InBox count j h) shifted in
          sym (mod-eq_of_lt lt)
          ∙ sym (lindex-coords count i h)
          ∙ ap (λ t. lindex t count) cs
          ∙ lindex-coords count j h
          ∙ mod-eq_of_lt lt';
    }

map-abs_pos : (xs : List ℕ) → map abs (map pos xs) ≡ xs
map-abs_pos [] = refl
map-abs_pos (x ∷ xs) = rw (map-abs_pos xs) refl

accepted :
    (gs start count : List ℕ)
    → AllPos gs
    → Fits gs start count
    → box_refused (map pos gs) (map pos start) (map pos count) ≡ false
unfolding box_refused
accepted [] [] [] a f = refl
accepted (g ∷ gs) (s ∷ start) (c ∷ count) (p, a) (lt, f) =
    let rest = accepted gs start count a f in rw (+ℤ-pos s c, rest) (ground arith)
accepted gs start count a f = absurd f

-- For a known IO system, positive dimensions and a box that lies in the array, PIOc_InitDecomp_bc makes a map with an
-- entry for each element of the box: the i-th is the 1-based index in the array of the i-th element of the box, all
-- entries lie in the array, and no two are the same.
pub init_decomp_bc-IsBoxMap :
    (ios : List Iosystem) (iosysid : ℤ) {p : ℕ} (gs start count : List ℕ)
    → get_iosystem_from_id ios iosysid ≡ some p
    → AllPos gs
    → Fits gs start count
    → (m : List ℕ) × (init_decomp_bc ios iosysid (map pos gs) (map pos start) (map pos count)
        ≡ ok m)
      × IsBoxMap gs start count m
unfolding init_decomp_bc
init_decomp_bc-IsBoxMap ios iosysid gs start count known a f = (
  box_map gs start count,
  rw (known, init_decomp_bc)
      (rw (accepted gs start count a f, map-abs_pos gs, map-abs_pos start, map-abs_pos count) refl),
  box_map-IsBoxMap gs start count f,
)
