-- ===== src/Rearranger.antt =====
-- Decisions of the rearrangers, src/clib/pio_rearrange.c: `determine_fill` and
-- `default_subset_partition`. The reduction and the split of the communicator succeed.
pub mod Fill
pub mod Partition
use parallel_io.Base.{
  ℕ, zero, suc, ◌+◌, ◌-◌, ◌/◌, ◌%◌, max, min, Bool, true, false, List, [], ◌∷◌, ltb, if◌then◌else◌,
}
use parallel_io.Base.Int.{ℤ, pos, ltb_ℤ}
use parallel_io.Base.Dims.{product}
use parallel_io.Base.Ranks.{sum_to}

-- The entries of a map that are greater than 0.
unfoldable pub local_len : List ℤ → ℕ
local_len [] = 0
local_len (m ∷ compmap) = let rest = local_len compmap in if ltb_ℤ (pos 0) m then suc rest else rest

-- What each of `ntasks` ranks brings: `llen` for the subset rearranger, its map for the other.
pub data Rearr : Type 0 where
  subset : (ℕ → ℕ) → Rearr
  box : (ℕ → List ℤ) → Rearr

abbrev pub brought : Rearr → ℕ → ℕ
brought (subset llen) rank = llen rank
brought (box compmap) rank = local_len (compmap rank)

-- `needsfill`.
unfoldable pub determine_fill : ℕ → List ℕ → Rearr → Bool
unfolding local_len sum_to product
determine_fill ntasks gdimlen r = ltb (sum_to ntasks (brought r)) (product gdimlen)

-- The color and the key of a task in the subset communicators.
pub record Place : Type 0 where
  pub color : ℕ
  pub key : ℕ

unfoldable pub io_place : ℕ → Place
io_place io_rank = record { color = io_rank; key = 0 }

unfoldable pub comp_place : ℕ → ℕ → ℕ → Place
comp_place num_comptasks num_iotasks comp_rank =
    let taskratio = max 1 (num_comptasks / num_iotasks) in
    record {
      color = min (num_iotasks - 1) (comp_rank / taskratio);
      key = max 1 (comp_rank % taskratio + 1);
    }
