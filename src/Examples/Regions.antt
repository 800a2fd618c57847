-- ===== src/Examples/Regions.antt =====
-- Tests and instances for the indices and regions of src/clib/pio_rearrange.c.
use parallel_io.Base.{subst, ◌≡◌, refl, none, some, List, [], ◌∷◌, arith}
use parallel_io.Base.Int.{pos, ◌+ℤ◌}
use parallel_io.Base.Dims.{product}
use parallel_io.Coords.{idx_to_dim_list, coord_to_lindex}
use parallel_io.Coords.RoundTrip.{coord_to_lindex-idx_to_dim_list, idx_to_dim_list-coord_to_lindex}
use parallel_io.Regions.{Region, get_regions}
use parallel_io.Regions.BufferSize.{compute_max_io_buffer_size, compute_max_io_buffer_size-AllCover}
use parallel_io.Regions.Cover.{get_regions-AllHoles, Covers, get_regions-Covers}

-- The documented example: index 4 of a[3][2].
example_index : idx_to_dim_list (3 ∷ 2 ∷ []) (pos 4) ≡ pos 2 ∷ pos 0 ∷ []
unfolding idx_to_dim_list
example_index = refl

example_back : coord_to_lindex (pos 2 ∷ pos 0 ∷ []) (pos 3 ∷ pos 2 ∷ []) ≡ pos 4
unfolding coord_to_lindex
example_back = refl

coord_to_lindex-idx_to_dim_list_example :
    coord_to_lindex (idx_to_dim_list (3 ∷ 2 ∷ []) (pos 4)) (pos 3 ∷ pos 2 ∷ []) ≡ pos 4
unfolding product
coord_to_lindex-idx_to_dim_list_example =
    coord_to_lindex-idx_to_dim_list (3 ∷ 2 ∷ []) 4 (omega arith) (omega arith)

idx_to_dim_list-coord_to_lindex_example :
    idx_to_dim_list (3 ∷ 2 ∷ []) (coord_to_lindex (pos 2 ∷ pos 1 ∷ []) (pos 3 ∷ pos 2 ∷ []))
    ≡ pos 2 ∷ pos 1 ∷ []
idx_to_dim_list-coord_to_lindex_example =
    idx_to_dim_list-coord_to_lindex (2 ∷ 1 ∷ []) (3 ∷ 2 ∷ []) (omega arith) (omega arith)

abbrev first : Region
first = record { loffset = 0; start = []; count = [] }

-- Two holes, then the first row of a[3][2], then a cell of the last.
get_regions-Covers_example :
    (rs : List Region) × (get_regions
        (3 ∷ 2 ∷ [])
        (some (pos 0 ∷ pos 0 ∷ pos 1 ∷ pos 2 ∷ pos 6 ∷ []))
        first
      ≡ some rs)
    × Covers (3 ∷ 2 ∷ []) 2 (pos 1 ∷ pos 2 ∷ pos 6 ∷ []) rs
unfolding product
get_regions-Covers_example =
    get_regions-Covers (3 ∷ 2 ∷ []) (pos 0 ∷ pos 0 ∷ []) (pos 1) (pos 2 ∷ pos 6 ∷ []) first
      (omega arith) (refl, (refl, tt))
      ((0, refl, omega arith), ((1, refl, omega arith), ((5, refl, omega arith), tt)))

-- Two tasks: one maps two entries of a[3][2] in one region, the other nothing.
abbrev row : Region
row = record { loffset = 0; start = pos 0 ∷ pos 0 ∷ []; count = 1 ∷ 2 ∷ [] }

reads_past_end : get_regions (3 ∷ 2 ∷ []) (some (pos 0 ∷ pos 0 ∷ [])) first ≡ none
reads_past_end = get_regions-AllHoles (3 ∷ 2 ∷ []) (pos 0 ∷ pos 0 ∷ []) first (refl, (refl, tt))

row_regions : get_regions (3 ∷ 2 ∷ []) (some (pos 1 ∷ pos 2 ∷ [])) first ≡ some (row ∷ [])
unfolding get_regions product idx_to_dim_list ◌+ℤ◌
row_regions = refl

row-Covers : Covers (3 ∷ 2 ∷ []) 0 (pos 1 ∷ pos 2 ∷ []) (row ∷ [])
unfolding product
row-Covers =
    let (rs, e, c) =
      get_regions-Covers (3 ∷ 2 ∷ []) [] (pos 1) (pos 2 ∷ []) first (omega arith) tt
        ((0, refl, omega arith), ((1, refl, omega arith), tt)) in
    let same : rs ≡ row ∷ [] = cc row_regions in
    subst (λ t. Covers (3 ∷ 2 ∷ []) 0 (pos 1 ∷ pos 2 ∷ []) t) same c

compute_max_io_buffer_size-AllCover_example :
    compute_max_io_buffer_size ((row ∷ []) ∷ [] ∷ []) ≡ some 2
compute_max_io_buffer_size-AllCover_example =
    compute_max_io_buffer_size-AllCover 3 (2 ∷ []) ((pos 1 ∷ pos 2 ∷ []) ∷ [] ∷ [])
      ((row ∷ []) ∷ [] ∷ []) ((0, row-Covers), ((0, refl), tt)) (omega arith)
