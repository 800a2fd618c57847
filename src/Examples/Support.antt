-- ===== src/Examples/Support.antt =====
-- Instances of the theorems on src/clib/pioc_support.c.
use parallel_io.Base.{
  ℕ, zero, suc, ◌+◌, ◌≡◌, ◌↔◌, refl, Bool, true, false, Option, none, some, List, [], ◌∷◌, arith,
}
use parallel_io.Base.Error.{err, einval, ebadid}
use parallel_io.Base.Heap.{Heap}
use parallel_io.Base.Int.{ℤ, pos, negsuc}
use parallel_io.Base.Ranks.{concat_to}
use parallel_io.Registry.Iosystems.{get_iosystem_from_id}
use parallel_io.Sort.Unique.{HasDuplicate}
use parallel_io.Spmd.{FlowControl}
use parallel_io.Support.Procs.{determine_procs}
use parallel_io.Support.Iotype.{Mode, Included}
use parallel_io.Support.RearrOpts.{RearrOpt, IsAllowed, set_rearr_opts, set_rearr_opts_lem}
use parallel_io.Support.Compmap.{check_compmap}
use parallel_io.Support.Compmap.Scan.{mapped}
use parallel_io.Support.Compmap.Duplicates.{check_compmap-HasDuplicate, check_compmap_holes}

determine_procs_runs : determine_procs 2 (1 ∷ 3 ∷ []) none ≡ some ((2 ∷ []) ∷ (3 ∷ 4 ∷ 5 ∷ []) ∷ [])
unfolding determine_procs
determine_procs_runs = refl

abbrev parallel_mode : Mode
parallel_mode = record {
  nc_netcdf4 = true;
  nc_mpiio = true;
  nc_mpiposix = false;
  nc_pnetcdf = false;
}

abbrev classic_build : Included
classic_build = record { has_nc4 = false; has_pnetcdf = true; has_gdal = false }

abbrev throttled : FlowControl
throttled = record { hs = true; isend = false; max_pend_req = negsuc 1 }

abbrev bad_opts : RearrOpt
bad_opts = record { comm_type = pos 0; fcd = pos 0; comp2io = throttled; io2comp = throttled }

abbrev no_opts : Heap RearrOpt
no_opts n = none

set_rearr_opts_lem_example :
    ((set_rearr_opts [] no_opts (pos 65536) bad_opts ≡ err einval) ↔ (IsAllowed bad_opts → ⊥))
    × ((set_rearr_opts [] no_opts (pos 65536) bad_opts ≡ err ebadid)
        ↔ (IsAllowed bad_opts × (get_iosystem_from_id [] (pos 65536) ≡ none)))
set_rearr_opts_lem_example = set_rearr_opts_lem [] no_opts (pos 65536) bad_opts

-- The element 3 on both of two ranks, and holes.
abbrev crowded_map : ℕ → List ℤ
crowded_map r = pos 3 ∷ pos 0 ∷ []

abbrev hole_map : ℕ → List ℤ
hole_map r = pos 0 ∷ []

check_compmap-HasDuplicate_example : HasDuplicate (concat_to 2 crowded_map)
unfolding mapped check_compmap concat_to parallel_io.Base.Int.◌+ℤ◌ parallel_io.Base.Int.◌-ℤ◌
    parallel_io.Base.Ranks.sum_to
check_compmap-HasDuplicate_example = check_compmap-HasDuplicate 1 crowded_map (omega arith) refl

check_compmap_holes_example : check_compmap 1 hole_map ≡ true
unfolding mapped concat_to
check_compmap_holes_example = check_compmap_holes 1 hole_map refl
