-- ===== src/Examples/Spmd.antt =====
-- The exchange of src/clib/pio_spmd.c between three ranks.
use parallel_io.Base.{
  ℕ, zero, suc, ◌+◌, ◌-◌, ◌≤◌, ◌<◌, ◌≡◌, refl, Bool, true, false, Option, some, List, [], ◌∷◌,
  arith,
}
use parallel_io.Base.Int.{pos}
use parallel_io.Spmd.{
  Call, FlowControl, irecv, irecv_hs, send_hs, send, irsend, wait, wait_hs, waitall, waitall_sends,
  ceil2, limits, rounds, swapids, swapm,
}
use parallel_io.Spmd.Peers.{occurs, swapids-occurs}
use parallel_io.Spmd.Entries.{recv_entry, send_entry, select}
use parallel_io.Spmd.Matching.{In, swapm-matches}
use parallel_io.Spmd.Rounds.{after}
use parallel_io.Spmd.Total.{Complete, state, swapm-Complete, state-pending}

abbrev one_to_all : ℕ → ℕ
one_to_all p = 1

abbrev one_pending : FlowControl
one_pending = record { hs = true; isend = true; max_pend_req = pos 1 }

abbrev others : List ℕ
others = 1 ∷ 2 ∷ []

-- Rank 0 of three, with handshakes, and two receives pending at most.
swapm_runs :
    swapm 3 0 one_to_all one_to_all one_pending
    ≡ irecv 0 0 3
      ∷ send 0 0 3
      ∷ wait 0
      ∷ irecv_hs 0 1 3
      ∷ irecv_hs 1 2 3
      ∷ irecv 0 1 4
      ∷ send_hs 1 4
      ∷ irecv 1 2 5
      ∷ send_hs 2 5
      ∷ wait_hs 0
      ∷ irsend 0 1 3
      ∷ wait_hs 1
      ∷ irsend 1 2 3
      ∷ wait 0
      ∷ waitall 2
      ∷ waitall_sends 2
      ∷ []
unfolding swapm parallel_io.Base.Ranks.concat_to
swapm_runs = refl

swapids-occurs_example : occurs 2 (swapids 3 0 one_to_all one_to_all (ceil2 3 - 1)) ≡ 1
swapids-occurs_example = swapids-occurs 3 0 one_to_all one_to_all 2 (omega arith)

swapm-Complete_example :
    (rest : List Call) × (swapm 3 0 one_to_all one_to_all one_pending
      ≡ irecv 0 0 3 ∷ send 0 0 3 ∷ wait 0 ∷ rest)
    × Complete 3 0 one_to_all one_to_all one_pending
        (swapids 3 0 one_to_all one_to_all (ceil2 3 - 1))
        rest
swapm-Complete_example = swapm-Complete 3 0 one_to_all one_to_all one_pending (omega arith) refl

first_pending : (state 3 0 one_to_all one_to_all one_pending others 1).rcvids 0 ≡ true
unfolding limits after rounds
first_pending = refl

state-pending_example : (0 ≤ 0) × (0 < 2)
unfolding limits
state-pending_example =
    state-pending 3 0 one_to_all one_to_all one_pending others 1 0 (omega arith) (omega arith)
      first_pending

swapm-matches_example :
    (i : ℕ) × (j : ℕ) × (tag : ℕ) × In
      (i, 2, tag)
      (select send_entry (swapm 3 0 one_to_all one_to_all one_pending))
    × In (j, 0, tag) (select recv_entry (swapm 3 2 one_to_all one_to_all one_pending))
swapm-matches_example =
    swapm-matches 3 one_pending refl 0 2 one_to_all one_to_all one_to_all one_to_all (omega arith)
      (omega arith) (omega arith) (omega arith) (omega arith)
