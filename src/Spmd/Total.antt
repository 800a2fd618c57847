-- ===== src/Spmd/Total.antt =====
-- What `pio_swapm` under flow control posts, sends and awaits.
use parallel_io.Base.{
  ℕ, ◌+◌, ◌-◌, ◌≤◌, ◌<◌, ◌≡◌, refl, sym, ap, subst, ◌∙◌, true, false, List, [], ◌∷◌, ◌++◌, arith,
  ◌==◌, if◌then◌else◌, length,
}
use parallel_io.Base.Ranks.{concat_to}
use parallel_io.Spmd.{
  alltoallw, pos, ceil2, ◌==ℤ◌, self_calls, swapids, swapm, FlowControl, Call, waitall,
  waitall_sends, limits, Exchange, exchange,
}
use parallel_io.Spmd.Entries.{
  limits-Bounded, Entry, recv_entry, send_entry, hs_entry, select, select-append, append-nil,
}
use parallel_io.Spmd.Parts.{recv_at, send_at, hs_at}
use parallel_io.Spmd.Rounds.{Inv, after, rounds-Inv}

module _ (ntasks my_rank : ℕ) (sendcounts recvcounts : ℕ → ℕ) (fc : FlowControl)
    (ids : List ℕ) where
  -- The state after `k` rounds of a run.
  abbrev pub state : ℕ → Exchange ntasks my_rank sendcounts recvcounts fc ids
  state k =
      after ntasks my_rank sendcounts recvcounts fc ids (length ids)
        (limits fc.max_pend_req (length ids)) k

  state-Inv :
      (k : ℕ)
      → 1 ≤ length ids
      → k ≤ length ids
      → Inv ntasks my_rank sendcounts recvcounts fc ids
          (length ids)
          (limits fc.max_pend_req (length ids))
          k
          (state k)
  state-Inv k h l =
      rounds-Inv ntasks my_rank sendcounts recvcounts fc ids (length ids)
        (limits fc.max_pend_req (length ids)) k (limits-Bounded fc.max_pend_req (length ids) h) l

  -- All that a run posts, in order: a receive for each step with data to come, a send for each with data
  -- to go, and a handshake receive before the latter if handshakes are on.
  pub record Complete (calls : List Call) : Type 0 where
    pub receives :
        select recv_entry calls
        ≡ concat_to (length ids) (recv_at ntasks my_rank sendcounts recvcounts fc ids)
    pub sends :
        select send_entry calls
        ≡ concat_to (length ids) (send_at ntasks my_rank sendcounts recvcounts fc ids)
    pub handshakes :
        select hs_entry calls
        ≡ concat_to (length ids) (hs_at ntasks my_rank sendcounts recvcounts fc ids)

  select-end :
      (f : Call → List Entry) (calls tail : List Call)
      → select f tail ≡ []
      → select f (calls ++ tail) ≡ select f calls
  select-end f calls tail e = select-append f calls tail ∙ rw e (append-nil _)

  abbrev tail : ℕ → List Call
  tail steps = waitall steps ∷ (if fc.isend then waitall_sends steps ∷ [] else [])

  -- Whatever the limit of pending requests, a run posts each receive, each send and each handshake
  -- receive once.
  pub exchange-Complete :
      1 ≤ length ids → Complete (exchange ntasks my_rank sendcounts recvcounts fc ids)
  unfolding exchange select after
  exchange-Complete h =
      let v = state-Inv (length ids) h (omega arith) in
      let b = limits-Bounded fc.max_pend_req (length ids) h in
      let b_half = b.half in
      let n = v.next in
      let all : (state (length ids)).rstep ≡ length ids = (n ∙ omega arith) in
      record {
        receives =
            select-end recv_entry ((state (length ids)).calls) (tail (length ids)) (ground arith)
            ∙ v.holds.received
            ∙ ap (λ m. concat_to m (recv_at ntasks my_rank sendcounts recvcounts fc ids)) all;
        sends =
            select-end send_entry ((state (length ids)).calls) (tail (length ids)) (ground arith)
            ∙ v.holds.sent;
        handshakes =
            select-end hs_entry ((state (length ids)).calls) (tail (length ids)) (ground arith)
            ∙ v.holds.heard
            ∙ ap (λ m. concat_to m (hs_at ntasks my_rank sendcounts recvcounts fc ids)) all;
      }

  -- At no time are more receives pending than the limit: they lie in a window of that many steps.
  pub state-pending :
      (k i : ℕ)
      → 1 ≤ length ids
      → k ≤ length ids
      → (state k).rcvids i ≡ true
      → let l = limits fc.max_pend_req (length ids) in (k - l.1 ≤ i) × (i < k - l.1 + l.0)
  state-pending k i h m p =
      let v = state-Inv k h m in
      let n = v.next in let q = v.holds.pending i in (ground arith, ground arith)

-- The exchange, where there is a partner.
exchange-if :
    (ntasks my_rank : ℕ) (sendcounts recvcounts : ℕ → ℕ) (fc : FlowControl) (ids : List ℕ)
    → Complete ntasks my_rank sendcounts recvcounts fc ids
        (if length ids == 0 then [] else exchange ntasks my_rank sendcounts recvcounts fc ids)
unfolding select concat_to
exchange-if ntasks my_rank sendcounts recvcounts fc [] = record {
  receives = refl;
  sends = refl;
  handshakes = refl;
}
exchange-if ntasks my_rank sendcounts recvcounts fc (x ∷ xs) =
    let some_step : (length (x ∷ xs) == 0) ≡ false = ground arith in
    subst
      (λ b.
        Complete ntasks my_rank sendcounts recvcounts fc (x ∷ xs)
          (if b then [] else exchange ntasks my_rank sendcounts recvcounts fc (x ∷ xs)))
      (sym some_step)
      (exchange-Complete ntasks my_rank sendcounts recvcounts fc (x ∷ xs) (omega arith))

module _ (ntasks my_rank : ℕ) (sendcounts recvcounts : ℕ → ℕ) (fc : FlowControl) where
  abbrev pub partners : List ℕ
  partners = swapids ntasks my_rank sendcounts recvcounts (ceil2 ntasks - 1)

  abbrev pub own : List Call
  own = self_calls ntasks my_rank sendcounts recvcounts

  -- A throttled exchange between two ranks or more sends a rank's own data, and then posts each receive,
  -- each send and each handshake receive of its partners once, whatever the limit is.
  pub swapm-Complete :
      2 ≤ ntasks
      → (fc.max_pend_req ==ℤ pos 0) ≡ false
      → (rest : List Call) × (swapm ntasks my_rank sendcounts recvcounts fc ≡ own ++ rest)
        × Complete ntasks my_rank sendcounts recvcounts fc partners rest
  unfolding swapm
  swapm-Complete h e =
      let rest : List Call =
        if length partners == 0
        then []
        else exchange ntasks my_rank sendcounts recvcounts fc partners in
      let several : (ntasks == 1) ≡ false = ground arith in
      (
        rest,
        ap (λ b. if b then alltoallw ∷ [] else own ++ (if ntasks == 1 then [] else rest)) e
            ∙ ap (λ b. own ++ (if b then [] else rest)) several,
        exchange-if ntasks my_rank sendcounts recvcounts fc partners,
      )
