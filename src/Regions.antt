-- ===== src/Regions.antt =====
-- The regions of the subset rearranger, src/clib/pio_rearrange.c: `expand_region`, `find_region` and
-- `get_regions`. A map is a list of 1-based offsets; lists hold the arrays' entries, the outermost
-- dimension first.
pub mod Expand
pub mod Find
pub mod Cover
pub mod BufferSize
use parallel_io.Base.{
  ℕ, zero, suc, ◌+◌, ◌-◌, ◌*◌, ◌/◌, ◌%◌, ◌^◌, ◌≤◌, ◌<◌, min, max, ◌≡◌, refl, sym, ap, subst, ◌∙◌,
  ◌≢◌, ◌↔◌, ◌⊎◌, inl, inr, dif_pos, dif_neg, Bool, true, false, ◌&&◌, ◌||◌, not, Option, none, some,
  List, [], ◌∷◌, ◌++◌, map, arith, dec_lt, dec_le, ℕ_discrete, ltb, leb, ◌==◌, if◌then◌else◌,
  Bool-cases, Option-cases, length, get_elem?, set, get_or, take, drop, replicate,
}
use mathlib.Core.Option
use parallel_io.Base.Int.{ℤ, pos, pos_part, ◌+ℤ◌, ◌-ℤ◌, ◌==ℤ◌, ltb_ℤ}
use parallel_io.Base.Dims.{product}
use parallel_io.Coords.{idx_to_dim_list}

-- The loop over `j`, `n` rounds of it left: the row `i` of the map is the first row, moved by
-- `i * stride`.
row_ok : List ℤ → ℕ → ℕ → ℕ → ℕ → ℕ → Bool
row_ok cells i size stride zero j = true
row_ok cells i size stride (suc n) j = elim (get_elem? cells (i * size + j)) [
  | none ↦ false
  | some x ↦ elim (get_elem? cells j) [
    | none ↦ false
    | some y ↦ x ==ℤ (y +ℤ pos (i * stride)) && row_ok cells i size stride n (j + 1)
  ]
]

-- The loop over `i`, `k` rounds of it left, with `count[dim]`; `false` is the early return.
dim_loop : List ℤ → ℕ → ℕ → ℕ → ℕ → ℕ → ℕ × Bool
dim_loop cells size stride zero i c = (c, true)
dim_loop cells size stride (suc k) i c = elim (row_ok cells i size stride size 0) [
  | true ↦ dim_loop cells size stride k (i + 1) i
  | false ↦ (i, false)
]

-- The counts, and whether the next dimension is still to be expanded, with its two arguments.
pub record Expansion : Type 0 where
  pub count : List ℕ
  pub size : ℕ
  pub stride : ℕ
  pub more : Bool

-- `expand_region` from the last dimension on, with the `count` it finds.
pub expand_region : List ℕ → List ℕ → List ℤ → List ℕ → Expansion
expand_region (g ∷ gs) (m ∷ ms) cells (old ∷ count) =
    let e = expand_region gs ms cells count in
    if e.more
    then (let (c, more) = dim_loop cells e.size e.stride m 1 old in
        record { count = c ∷ e.count; size = e.size * c; stride = e.stride * g; more = more })
    else record e { count = old ∷ e.count }
expand_region gs ms cells count = record { count = count; size = 1; stride = 1; more = true }

pub record Region : Type 0 where
  pub loffset : ℕ
  pub start : List ℤ
  pub count : List ℕ

-- `gdimlen[dim] - start[dim]`; a loop up to a negative number does not run.
pub max_size : List ℕ → List ℤ → List ℕ
max_size (g ∷ gs) (s ∷ start) = pos_part (pos g -ℤ s) ∷ max_size gs start
max_size gs start = []

-- `find_region` on a map that starts with `m`, with the `count` it is handed.
pub find_region : List ℕ → ℕ → ℤ → List ℤ → List ℕ → Region
unfolding expand_region max_size
find_region gdimlen loffset m cells count =
    let start = idx_to_dim_list gdimlen (m -ℤ pos 1) in
    record {
      loffset = loffset;
      start = start;
      count = (expand_region gdimlen (max_size gdimlen start) (m ∷ cells) count).count;
    }

abbrev pub ones : List ℕ → List ℕ
ones gs = map (λ _. 1) gs

-- The `while` loop, at `nmaplen`, with the part of the map from there on; `none`: the fuel is out.
pub region_loop : List ℕ → ℕ → ℕ → List ℤ → Option (List Region)
unfolding find_region
region_loop gdimlen zero nmaplen cells = none
region_loop gdimlen (suc fuel) nmaplen [] = some []
region_loop gdimlen (suc fuel) nmaplen (m ∷ cells) =
    let region = find_region gdimlen nmaplen m cells (ones gdimlen) in
    let regionlen = product region.count in
    Option.map (λ rs. region ∷ rs)
      (region_loop gdimlen fuel (nmaplen + regionlen) (drop regionlen (m ∷ cells)))

-- `while (map[nmaplen++] <= 0)`; a map with no positive entry is read past its end.
pub skip_holes : List ℤ → Option ℕ
skip_holes [] = none
skip_holes (m ∷ cells) = if ltb_ℤ (pos 0) m then some 0 else Option.map suc (skip_holes cells)

-- The list of regions, whose length is `*maxregions`. The map may be NULL. With nothing to map,
-- `firstregion` keeps its start and count.
unfoldable pub get_regions : List ℕ → Option (List ℤ) → Region → Option (List Region)
unfolding region_loop skip_holes dim_loop row_ok
get_regions gdimlen none first = some (record first { loffset = 0 } ∷ [])
get_regions gdimlen (some cells) first = elim (skip_holes cells) [
  | none ↦ none
  | some n ↦ region_loop gdimlen (length cells + 1) n (drop n cells)
]
