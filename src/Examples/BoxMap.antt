-- ===== src/Examples/BoxMap.antt =====
-- A box in an array of 3 by 4 elements, for `PIOc_InitDecomp_bc` of src/clib/pioc.c.
use parallel_io.Base.{ℕ, ◌≡◌, refl, List, [], ◌∷◌, arith}
use parallel_io.Base.Dims.{product}
use parallel_io.Base.Error.{ok, err, einval}
use parallel_io.Base.Int.{pos, ◌+ℤ◌}
use parallel_io.Registry.Iosystems.{Iosystem, get_iosystem_from_id}
use parallel_io.BoxMap.{prods, entry, advance, entries, box_map, box_refused, init_decomp_bc}
use parallel_io.BoxMap.Map.{IsBoxMap, init_decomp_bc-IsBoxMap}

abbrev one_system : List Iosystem
one_system = record { address = 7; iosysid = pos 2048 } ∷ []

-- Rows 1 and 2, columns 1 to 3.
box_of_six :
    init_decomp_bc one_system
      (pos 2048)
      (pos 3 ∷ pos 4 ∷ [])
      (pos 1 ∷ pos 1 ∷ [])
      (pos 2 ∷ pos 3 ∷ [])
    ≡ ok (6 ∷ 7 ∷ 8 ∷ 10 ∷ 11 ∷ 12 ∷ [])
unfolding init_decomp_bc box_refused box_map entries entry advance prods product
    get_iosystem_from_id ◌+ℤ◌
box_of_six = refl

too_long :
    init_decomp_bc one_system
      (pos 2048)
      (pos 3 ∷ pos 4 ∷ [])
      (pos 2 ∷ pos 1 ∷ [])
      (pos 2 ∷ pos 3 ∷ [])
    ≡ err einval
unfolding init_decomp_bc box_refused get_iosystem_from_id ◌+ℤ◌
too_long = refl

init_decomp_bc-IsBoxMap_example :
    (m : List ℕ) × (init_decomp_bc one_system
        (pos 2048)
        (pos 3 ∷ pos 4 ∷ [])
        (pos 1 ∷ pos 1 ∷ [])
        (pos 2 ∷ pos 3 ∷ [])
      ≡ ok m)
    × IsBoxMap (3 ∷ 4 ∷ []) (1 ∷ 1 ∷ []) (2 ∷ 3 ∷ []) m
unfolding get_iosystem_from_id
init_decomp_bc-IsBoxMap_example =
    init_decomp_bc-IsBoxMap one_system (pos 2048) (3 ∷ 4 ∷ []) (1 ∷ 1 ∷ []) (2 ∷ 3 ∷ []) refl
      (omega arith, (omega arith, tt)) (omega arith, (omega arith, tt))
