-- ===== src/Coords.antt =====
-- Indices and coordinates, src/clib/pio_rearrange.c: `idx_to_dim_list` and `coord_to_lindex`. Lists
-- hold the arrays' entries, the outermost dimension first; an offset is an integer.
pub mod Index
pub mod RoundTrip
use parallel_io.Base.{
  ℕ, zero, suc, ◌+◌, ◌-◌, ◌*◌, ◌/◌, ◌%◌, ◌^◌, ◌≤◌, ◌<◌, min, max, ◌≡◌, refl, sym, ap, subst, ◌∙◌,
  ◌≢◌, ◌↔◌, ◌⊎◌, inl, inr, dif_pos, dif_neg, Bool, true, false, ◌&&◌, ◌||◌, not, Option, none, some,
  List, [], ◌∷◌, ◌++◌, map, arith, dec_lt, dec_le, ℕ_discrete, ltb, leb, ◌==◌, if◌then◌else◌,
  Bool-cases, Option-cases, length, get_elem?, set, get_or, take, drop, replicate,
}
use parallel_io.Base.Int.{ℤ, pos, quot, ◌+ℤ◌, ◌-ℤ◌, ◌*ℤ◌}

-- The loop from the last dimension to the first: the entries of `dim_list`, and the index left.
walk : List ℕ → ℤ → List ℤ × ℤ
walk [] idx = ([], idx)
walk (g ∷ gs) idx =
    let (ds, idx') = walk gs idx in
    let next_idx = quot idx' g in ((idx' -ℤ next_idx *ℤ pos g) ∷ ds, next_idx)

unfoldable pub idx_to_dim_list : List ℕ → ℤ → List ℤ
unfolding walk quot ◌-ℤ◌ ◌*ℤ◌
idx_to_dim_list gdimlen idx = (walk gdimlen idx).0

-- The loop from the last dimension to the first: `lindex` and `stride`.
stride_walk : List ℤ → List ℤ → ℤ × ℤ
stride_walk [] count = (pos 0, pos 1)
stride_walk (c ∷ lcoord) [] = (pos 0, pos 1)
stride_walk (c ∷ lcoord) (n ∷ count) =
    let (lindex, stride) = stride_walk lcoord count in (lindex +ℤ c *ℤ stride, stride *ℤ n)

unfoldable pub coord_to_lindex : List ℤ → List ℤ → ℤ
unfolding stride_walk ◌+ℤ◌ ◌*ℤ◌
coord_to_lindex lcoord count = (stride_walk lcoord count).0
