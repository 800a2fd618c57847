-- ===== src/Spmd/Rounds.antt =====
-- The rounds of `pio_swapm` under flow control.
use parallel_io.Base.{
  subst, ℕ, zero, suc, ◌+◌, ◌-◌, ◌≤◌, ◌<◌, ◌≡◌, min, refl, ◌∙◌, inl, inr, true, false, List, ltb,
  arith, Bool-cases, dec_lt,
}
use parallel_io.Spmd.{FlowControl, peer, Exchange, start, round, rounds}
use parallel_io.Spmd.Entries.{Bounded}
use parallel_io.Spmd.Parts.{
  Holds, start-Holds, sent_state, send-Holds, waits, waited, waits-pending, waits-none, wait-Holds,
  posts_next, posted, posts-one, posts-end, posted-Holds,
}

module _ (ntasks my_rank : ℕ) (sendcounts recvcounts : ℕ → ℕ) (fc : FlowControl)
    (ids : List ℕ) where
  abbrev other : ℕ → ℕ
  other i = peer ntasks my_rank sendcounts recvcounts fc ids i

  abbrev State : Type 0
  State = Exchange ntasks my_rank sendcounts recvcounts fc ids

  unfoldable pub rounded : ℕ → ℕ → ℕ → State → State
  rounded steps h k s = round ntasks my_rank sendcounts recvcounts fc ids steps h k s

  pub round-early :
      (steps h k : ℕ) (s : State)
      → k < h
      → rounded steps h k s ≡ sent_state ntasks my_rank sendcounts recvcounts fc ids k s
  unfolding round rounded
  round-early steps h k s l = let e : ltb (h - 1) k ≡ false = ground arith in rw (e, round) refl

  pub round-late :
      (steps h k : ℕ) (s : State)
      → h ≤ k
      → 1 ≤ h
      → rounded steps h k s
        ≡ posts_next ntasks my_rank sendcounts recvcounts fc ids steps (
            waits ntasks my_rank sendcounts recvcounts fc ids
              (k - h)
              (sent_state ntasks my_rank sendcounts recvcounts fc ids k s))
  unfolding round rounded posts_next waits
  round-late steps h k s l o = let e : ltb (h - 1) k ≡ true = ground arith in rw (e, round) refl

  pub waits-rstep :
      (p : ℕ) (s : State) → (waits ntasks my_rank sendcounts recvcounts fc ids p s).rstep ≡ s.rstep
  waits-rstep p s = elim (Bool-cases (s.rcvids p)) [
    | inl e ↦
        rw (waits-pending ntasks my_rank sendcounts recvcounts fc ids p s e) (unfold waited in refl)
    | inr e ↦ rw (waits-none ntasks my_rank sendcounts recvcounts fc ids p s e) refl
  ]

  -- The invariant of the rounds.
  pub record Inv (steps : ℕ) (l : ℕ × ℕ) (k : ℕ) (s : State) : Type 0 where
    pub next : s.rstep ≡ min steps (l.0 + (k - l.1))
    pub holds : Holds ntasks my_rank sendcounts recvcounts fc ids (k - l.1) k s

  pub post-Inv :
      (steps : ℕ) (l : ℕ × ℕ) (k : ℕ) (s : State)
      → Bounded steps l
      → l.1 ≤ k
      → k < steps
      → s.rstep ≡ min steps (l.0 + (k - l.1))
      → Holds ntasks my_rank sendcounts recvcounts fc ids (suc k - l.1) (suc k) s
      → Inv steps l (suc k) (posts_next ntasks my_rank sendcounts recvcounts fc ids steps s)
  post-Inv steps l k s b g m n v = elim (dec_lt s.rstep steps) [
    | yes y ↦ rw (posts-one ntasks my_rank sendcounts recvcounts fc ids steps s y) (record {
      next = (unfold posted in let c = b.half in omega arith);
      holds =
          posted-Holds ntasks my_rank sendcounts recvcounts fc ids (suc k - l.1) (suc k) s
            (let c = b.some_req in omega arith) v;
    })
    | no y ↦
        rw (posts-end ntasks my_rank sendcounts recvcounts fc ids steps s (omega arith))
          (record { next = (let c = b.half in omega arith); holds = v })
  ]

  pub round-Inv :
      (steps : ℕ) (l : ℕ × ℕ) (k : ℕ) (s : State)
      → Bounded steps l
      → k < steps
      → Inv steps l k s
      → Inv steps l (suc k) (rounded steps l.1 k s)
  round-Inv steps l k s b m v = elim (dec_lt k l.1) [
    | yes y ↦ rw (round-early steps l.1 k s y) (record {
      next = (let n = v.next in omega arith);
      holds =
          subst
            (λ w.
              Holds ntasks my_rank sendcounts recvcounts fc ids w (suc k)
                (sent_state ntasks my_rank sendcounts recvcounts fc ids k s))
            (omega arith)
            (send-Holds ntasks my_rank sendcounts recvcounts fc ids (k - l.1) k s v.holds);
    })
    | no y ↦
        let sent = send-Holds ntasks my_rank sendcounts recvcounts fc ids (k - l.1) k s v.holds in
        let ready =
          wait-Holds ntasks my_rank sendcounts recvcounts fc ids (k - l.1) (suc k)
            (sent_state ntasks my_rank sendcounts recvcounts fc ids k s) sent in
        let next =
          waits-rstep (k - l.1) (sent_state ntasks my_rank sendcounts recvcounts fc ids k s)
          ∙ v.next in
        rw (round-late steps l.1 k s (omega arith) b.some_half) (
          post-Inv steps l k
            (waits ntasks my_rank sendcounts recvcounts fc ids (k - l.1)
              (sent_state ntasks my_rank sendcounts recvcounts fc ids k s))
            b (omega arith) m next
            (subst
              (λ w. Holds ntasks my_rank sendcounts recvcounts fc ids w (suc k) (
                waits ntasks my_rank sendcounts recvcounts fc ids (k - l.1)
                  (sent_state ntasks my_rank sendcounts recvcounts fc ids k s)))
              (omega arith) ready))
  ]

  unfoldable pub after : ℕ → ℕ × ℕ → ℕ → State
  after steps l k = rounds ntasks my_rank sendcounts recvcounts fc ids steps l.0 l.1 k

  pub rounds-Inv :
      (steps : ℕ) (l : ℕ × ℕ) (k : ℕ)
      → Bounded steps l
      → k ≤ steps
      → Inv steps l k (after steps l k)
  unfolding rounds after rounded
  rounds-Inv steps l zero b m = record {
    next = (let c = b.within in unfold start in omega arith);
    holds =
        subst (λ w. Holds ntasks my_rank sendcounts recvcounts fc ids w 0 (after steps l 0))
          (omega arith) (start-Holds ntasks my_rank sendcounts recvcounts fc ids l.0);
  }
  rounds-Inv steps l (suc k) b m =
      round-Inv steps l k (after steps l k) b (omega arith) (rounds-Inv steps l k b (omega arith))
