-- ===== src/Examples/Remap.antt =====
-- The map 5, 4, 0, 3 for `PIOc_InitDecomp` of src/clib/pioc.c, and its data in the order of the sorted map.
use parallel_io.Base.{ℕ, ◌≡◌, refl, false, some, List, [], ◌∷◌, length}
use parallel_io.Base.Int.{ℤ, pos}
use parallel_io.SortedCopy.Loops.{Distinct}
use parallel_io.SortedCopy.RoundTrip.{AllBelow}
use parallel_io.Remap.{needs_sort, tmpsort, put_in, sort_maps, remap_of, map_of}
use parallel_io.Remap.Order.{InOrder}
use parallel_io.Remap.Sorted.{remap_of-InOrder}

abbrev a_map : List ℤ
a_map = pos 5 ∷ pos 4 ∷ pos 0 ∷ pos 3 ∷ []

a_map_remap : remap_of a_map ≡ some (2 ∷ 3 ∷ 1 ∷ 0 ∷ [])
unfolding remap_of needs_sort tmpsort sort_maps put_in
a_map_remap = refl

-- An entry of 0 between 5 and 3 hides that they are not in order.
hole_between : needs_sort (pos 5 ∷ pos 0 ∷ pos 3 ∷ []) ≡ false
unfolding needs_sort
hole_between = refl

remap_of-InOrder_example :
    (remap : List ℕ) × (remap_of a_map ≡ some remap)
    × (length remap ≡ 4)
    × Distinct remap
    × AllBelow (length remap) remap
    × InOrder (map_of a_map (some remap))
unfolding needs_sort
remap_of-InOrder_example = remap_of-InOrder a_map refl
