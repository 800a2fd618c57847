-- ===== src/Regions/Find.antt =====
-- `find_region` of src/clib/pio_rearrange.c, on a map whose first entry lies in the array.
use parallel_io.Base.{
  ℕ, suc, ◌+◌, ◌-◌, ◌≤◌, ◌<◌, ◌≡◌, refl, ap, subst, ◌∙◌, some, List, [], ◌∷◌, map, arith, get_elem?,
}
use native.Mathlib.Nat.{mod-eq_of_lt}
use parallel_io.Base.Int.{ℤ, pos, pos_part, ◌-ℤ◌, +ℤ-pos, -ℤ-pos}
use parallel_io.Base.Dims.{AllPos, product}
use parallel_io.Coords.{idx_to_dim_list}
use parallel_io.Coords.Index.{lindex, InBox, coords}
use parallel_io.Coords.RoundTrip.{idx_to_dim_list-coords, coords-InBox, lindex-coords}
use parallel_io.Regions.{Region, find_region, max_size, ones}
use parallel_io.Regions.Expand.{Within, expand_region-Expands}

abbrev pub add : List ℕ → List ℕ → List ℕ
add [] ks = []
add (c ∷ cs) [] = []
add (c ∷ cs) (k ∷ ks) = (c + k) ∷ add cs ks

-- The box with this corner and these counts has a cell, and lies in the array.
abbrev pub Inside : List ℕ → List ℕ → List ℕ → Type 0
Inside [] [] [] = Unit {0}
Inside (s ∷ ss) (c ∷ cs) (g ∷ gs) = (0 < c) × (s + c ≤ g) × Inside ss cs gs
Inside _ _ _ = ⊥

-- The region is a box of the array, and the map lists the box's cells, 1-based.
pub record Describes (gs : List ℕ) (cells : List ℤ) (r : Region) : Type 0 where
  pub corner : List ℕ
  pub starts : r.start ≡ map pos corner
  pub inside : Inside corner r.count gs
  pub places :
      (ks : List ℕ)
      → InBox ks r.count
      → get_elem? cells (lindex ks r.count) ≡ some (pos (suc (lindex (add corner ks) gs)))

max_size-Within : (cs gs : List ℕ) → InBox cs gs → Within (ones gs) (max_size gs (map pos cs))
unfolding max_size
max_size-Within [] [] h = tt
max_size-Within [] (g ∷ gs) h = elim h [ ]
max_size-Within (c ∷ cs) [] h = elim h [ ]
max_size-Within (c ∷ cs) (g ∷ gs) (p, h) =
    (omega arith, rw (-ℤ-pos g c (omega arith)) (omega arith), max_size-Within cs gs h)

Within-Inside :
    (cs gs count : List ℕ)
    → InBox cs gs
    → Within count (max_size gs (map pos cs))
    → Inside cs count gs
unfolding max_size
Within-Inside [] [] [] h w = tt
Within-Inside [] [] (n ∷ count) h w = elim w [ ]
Within-Inside [] (g ∷ gs) count h w = elim h [ ]
Within-Inside (c ∷ cs) [] count h w = elim h [ ]
Within-Inside (c ∷ cs) (g ∷ gs) [] (p, h) w = elim w [ ]
Within-Inside (c ∷ cs) (g ∷ gs) (n ∷ count) (p, h) (q, l, w) =
    let l' : n ≤ pos_part (pos (g - c)) =
      subst (λ t. n ≤ pos_part t) (-ℤ-pos g c (omega arith)) l in
    (q, omega arith, Within-Inside cs gs count h w)

lindex-add :
    (cs ks gs count : List ℕ)
    → Inside cs count gs
    → InBox ks count
    → lindex (add cs ks) gs ≡ lindex cs gs + lindex ks gs
unfolding lindex
lindex-add [] [] [] [] i h = refl
lindex-add (c ∷ cs) (k ∷ ks) (g ∷ gs) (n ∷ count) (p, q, i) (r, h) =
    omega (arith, lindex-add cs ks gs count i h)
lindex-add [] (k ∷ ks) [] [] i h = elim h [ ]
lindex-add [] ks (g ∷ gs) [] i h = elim i [ ]
lindex-add [] ks [] (n ∷ count) i h = elim i [ ]
lindex-add [] ks (g ∷ gs) (n ∷ count) i h = elim i [ ]
lindex-add (c ∷ cs) ks gs [] i h = elim i [ ]
lindex-add (c ∷ cs) ks [] (n ∷ count) i h = elim i [ ]
lindex-add (c ∷ cs) [] (g ∷ gs) (n ∷ count) i h = elim h [ ]

-- The loop `regionlen *= count[dim]` and the rest of `find_region`, for an entry in the array.
pub find_region-Describes :
    (gs : List ℕ) (loffset z : ℕ) (cells : List ℤ)
    → AllPos gs
    → z < product gs
    → Describes gs (pos (suc z) ∷ cells) (find_region gs loffset (pos (suc z)) cells (ones gs))
unfolding find_region
find_region-Describes gs loffset z cells a l =
    let m = pos (suc z) in
    let cs = coords gs z in
    let start = idx_to_dim_list gs (pos z) in
    let box = coords-InBox gs z a in
    let index : lindex cs gs ≡ z = lindex-coords gs z a ∙ mod-eq_of_lt l in
    let one_less : m -ℤ pos 1 ≡ pos z = -ℤ-pos (suc z) 1 (omega arith) ∙ ap pos (omega arith) in
    let corner_at : idx_to_dim_list gs (m -ℤ pos 1) ≡ map pos cs =
      rw one_less (idx_to_dim_list-coords gs z) in
    let e =
      expand_region-Expands gs (max_size gs (map pos cs)) (m ∷ cells) m refl
        (max_size-Within cs gs box) in
    let inside = Within-Inside cs gs _ box e.within in
    record {
      corner = cs;
      starts = corner_at;
      inside = rw corner_at inside;
      places = rw corner_at (λ ks h.
          e.placed ks h
          ∙ ap some (
              +ℤ-pos (suc z) (lindex ks gs)
              ∙ ap pos (omega (arith, lindex-add cs ks gs _ inside h, index))));
    }
