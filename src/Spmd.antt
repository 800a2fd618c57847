-- ===== src/Spmd.antt =====
-- The exchange with flow control, src/clib/pio_spmd.c: `ceil2`, `pair` and `pio_swapm`. A run of
-- `pio_swapm` on one rank is the list of its MPI calls, which succeed. `none` is the rank -1.
pub mod Peers
pub mod Entries
pub mod Parts
pub mod Rounds
pub mod Total
pub mod Matching
use parallel_io.Base.{
  ℕ, zero, suc, ◌+◌, ◌-◌, ◌*◌, ◌/◌, ◌<◌, ◌≡◌, refl, Bool, true, false, ◌&&◌, ◌||◌, not, Option,
  none, some, List, [], ◌∷◌, ◌++◌, length, get_or, ltb, leb, ◌==◌, if◌then◌else◌, bit_xor,
}
use parallel_io.Base.Int.{ℤ, pos, negsuc, pos_part, neg_part, ◌==ℤ◌, ltb_ℤ}
use parallel_io.Base.Ranks.{concat_to}

-- `while (p < i) p *= 2`, on fuel: `i` rounds are enough.
unfoldable pub ceil2_loop : ℕ → ℕ → ℕ → ℕ
ceil2_loop zero p i = p
ceil2_loop (suc fuel) p i = let rest = ceil2_loop fuel (p * 2) i in if ltb p i then rest else p

unfoldable pub ceil2 : ℕ → ℕ
unfolding ceil2_loop
ceil2 i = ceil2_loop i 1 i

unfoldable pub pair : ℕ → ℕ → ℕ → Option ℕ
pair np p k = let q = bit_xor (p + 1) k in if ltb (np - 1) q then none else some q

-- `rearr_comm_fc_opt_t`; PIO_REARR_COMM_UNLIMITED_PEND_REQ is -1.
pub record FlowControl : Type 0 where
  pub hs : Bool
  pub isend : Bool
  pub max_pend_req : ℤ

-- The MPI calls, with the number of the request, the other rank and the tag; `send_hs` and `irecv_hs`
-- are those of the handshake.
pub data Call : Type 0 where
  alltoallw : Call
  irecv : ℕ → ℕ → ℕ → Call
  irecv_hs : ℕ → ℕ → ℕ → Call
  send_hs : ℕ → ℕ → Call
  send : ℕ → ℕ → ℕ → Call
  isend : ℕ → ℕ → ℕ → Call
  irsend : ℕ → ℕ → ℕ → Call
  wait : ℕ → Call
  wait_hs : ℕ → Call
  waitall : ℕ → Call
  waitall_sends : ℕ → Call

-- `maxreq` and `maxreqh`.
unfoldable pub limits : ℤ → ℕ → ℕ × ℕ
limits max_pend_req steps =
    let m = pos_part max_pend_req in
    if steps == 1
    then (1, 1)
    else if max_pend_req ==ℤ negsuc 0
    then (steps, steps)
    else if ltb 1 m && ltb m steps
    then (m, m / 2)
    else if max_pend_req ==ℤ pos 1
    then (2, 1)
    else (steps, steps)

module _ (ntasks my_rank : ℕ) (sendcounts recvcounts : ℕ → ℕ) where
  -- `swapids`, after `n` rounds.
  unfoldable pub swapids : ℕ → List ℕ
  unfolding pair
  swapids zero = []
  swapids (suc istep) =
      let before = swapids istep in
      elim (pair ntasks istep my_rank) [
        | none ↦ before
        | some p ↦ if ltb 0 (sendcounts p) || ltb 0 (recvcounts p) then before ++ p ∷ [] else before
      ]

  -- What a rank sends to itself.
  abbrev pub self_calls : List Call
  self_calls =
      let tag = my_rank + ntasks in
      if ltb 0 (sendcounts my_rank)
      then irecv 0 my_rank tag ∷ send 0 my_rank tag ∷ wait 0 ∷ []
      else []

  module _ (fc : FlowControl) (ids : List ℕ) where
    abbrev pub peer : ℕ → ℕ
    peer istep = get_or ids istep 0

    abbrev pub listen : ℕ → List Call
    listen istep =
        if fc.hs && ltb 0 (sendcounts (peer istep))
        then irecv_hs istep (peer istep) (my_rank + ntasks) ∷ []
        else []

    abbrev pub post : ℕ → List Call
    post istep =
        let p = peer istep in
        let tag = p + ntasks in
        if ltb 0 (recvcounts p)
        then irecv istep p tag ∷ (if fc.hs then send_hs p tag ∷ [] else [])
        else []

    -- The receives that are posted are those with `rcvids` not MPI_REQUEST_NULL.
    pub record Exchange : Type 0 where
      pub rcvids : ℕ → Bool
      pub rstep : ℕ
      pub calls : List Call

    unfoldable pub start : ℕ → Exchange
    unfolding concat_to
    start maxreq = record {
      rcvids = λ i. ltb i maxreq && ltb 0 (recvcounts (peer i));
      rstep = maxreq;
      calls = concat_to maxreq listen ++ concat_to maxreq post;
    }

    abbrev pub send_calls : ℕ → List Call
    send_calls istep =
        let p = peer istep in
        let tag = my_rank + ntasks in
        let one =
          if fc.hs && fc.isend
          then irsend istep p tag
          else if fc.isend
          then isend istep p tag
          else send istep p tag in
        if ltb 0 (sendcounts p) then (if fc.hs then wait_hs istep ∷ one ∷ [] else one ∷ []) else []

    -- The wait for the oldest receive.
    unfoldable pub wait_oldest : ℕ → Exchange → Exchange
    wait_oldest p s =
        if s.rcvids p
        then record s {
          rcvids = λ i. if i == p then false else s.rcvids i;
          calls = s.calls ++ wait p ∷ [];
        }
        else s

    -- `if (rstep < steps)`.
    unfoldable pub post_next : ℕ → Exchange → Exchange
    post_next steps s =
        let r = s.rstep in
        if ltb r steps
        then record {
          rcvids = λ i. if i == r then ltb 0 (recvcounts (peer r)) || s.rcvids i else s.rcvids i;
          rstep = suc r;
          calls = s.calls ++ listen r ++ post r;
        }
        else s

    -- One round of the loop over the steps.
    unfoldable pub round : ℕ → ℕ → ℕ → Exchange → Exchange
    unfolding wait_oldest post_next
    round steps maxreqh istep s =
        let sent = record s { calls = s.calls ++ send_calls istep } in
        if ltb (maxreqh - 1) istep
        then post_next steps (wait_oldest (istep - maxreqh) sent)
        else sent

    -- The first `n` rounds.
    unfoldable pub rounds : ℕ → ℕ → ℕ → ℕ → Exchange
    unfolding round start
    rounds steps maxreq maxreqh zero = start maxreq
    rounds steps maxreq maxreqh (suc n) = round steps maxreqh n (rounds steps maxreq maxreqh n)

    -- From `maxreq` on.
    unfoldable pub exchange : List Call
    unfolding limits rounds
    exchange =
        let steps = length ids in
        let (maxreq, maxreqh) = limits fc.max_pend_req steps in
        let all = rounds steps maxreq maxreqh steps in
        all.calls ++ waitall steps ∷ (if fc.isend then waitall_sends steps ∷ [] else [])

  unfoldable pub swapm : FlowControl → List Call
  unfolding ceil2 swapids exchange
  swapm fc =
      let ids = swapids (ceil2 ntasks - 1) in
      if fc.max_pend_req ==ℤ pos 0
      then alltoallw ∷ []
      else self_calls
        ++ (if ntasks == 1 then [] else if length ids == 0 then [] else exchange fc ids)
