-- ===== src/Remap.antt =====
-- The sorting of the map in `PIOc_InitDecomp`, src/clib/pioc.c: `needssort`, `map` and `remap`. `qsort` is a sort by
-- `compare`; entries that compare equal keep their order, which the library function leaves open.
pub mod Order
pub mod Sorted
use parallel_io.Base.{
  ℕ, zero, suc, ◌+◌, ◌-◌, ◌*◌, ◌/◌, ◌%◌, ◌^◌, ◌≤◌, ◌<◌, min, max, ◌≡◌, refl, sym, ap, subst, ◌∙◌,
  ◌≢◌, ◌↔◌, ◌⊎◌, inl, inr, Bool, true, false, ◌&&◌, ◌||◌, not, Option, none, some, List, [], ◌∷◌,
  ◌++◌, map, arith, ltb, leb, ◌==◌, if◌then◌else◌, Bool-cases, Option-cases, length, get_elem?, set,
  get_or, take, drop, replicate, length-append, length-drop, length-take, length-map, lt→ltb,
  ltb→lt,
}
use mathlib.Core.Option
use parallel_io.Base.Int.{ℤ, pos, ltb_ℤ}

-- `struct sort_map`: `remap` and `map`.
abbrev pub SortMap : Type 0
SortMap = ℕ × ℤ

-- The loop that looks for an entry below the one before it.
unfoldable pub needs_sort : List ℤ → Bool
needs_sort [] = false
needs_sort (x ∷ []) = false
needs_sort (x ∷ y ∷ compmap) = (ltb_ℤ (pos 0) y && ltb_ℤ y x) || needs_sort (y ∷ compmap)

-- `tmpsort`, from place `m` on.
unfoldable pub tmpsort : ℕ → List ℤ → List SortMap
tmpsort m [] = []
tmpsort m (x ∷ compmap) = (m, x) ∷ tmpsort (m + 1) compmap

-- Is `compare` above 0?
abbrev pub is_after : SortMap → SortMap → Bool
is_after a b = ltb_ℤ b.1 a.1

unfoldable pub put_in : SortMap → List SortMap → List SortMap
put_in a [] = a ∷ []
put_in a (b ∷ sorted) =
    let rest = put_in a sorted in if is_after a b then b ∷ rest else a ∷ b ∷ sorted

unfoldable pub sort_maps : List SortMap → List SortMap
unfolding put_in
sort_maps [] = []
sort_maps (a ∷ maps) = put_in a (sort_maps maps)

-- `remap`; it is NULL when the map is in order.
unfoldable pub remap_of : List ℤ → Option (List ℕ)
unfolding needs_sort tmpsort sort_maps
remap_of compmap =
    if needs_sort compmap
    then some (map (λ (a : SortMap). a.0) (sort_maps (tmpsort 0 compmap)))
    else none

-- `map`, given `remap`.
unfoldable pub map_of : List ℤ → Option (List ℕ) → List ℤ
map_of compmap none = compmap
map_of compmap (some remap) = map (λ r. get_or compmap r (pos 0)) remap
