-- ===== src/Spmd/Parts.antt =====
-- The parts of `pio_swapm`'s loop: the start, the sends, the wait and the next receive.
use parallel_io.Base.{
  lt→ltb, ℕ, suc, ◌+◌, ◌≤◌, ◌<◌, ◌≡◌, refl, ap, ◌∙◌, inl, inr, true, false, ◌&&◌, ◌||◌, List, [],
  ◌∷◌, ◌++◌, ltb, leb, ◌==◌, if◌then◌else◌, arith, Bool-cases, ℕ_discrete,
}
use parallel_io.Base.Ranks.{concat_to, concat_to-ext}
use parallel_io.Spmd.{
  FlowControl, Call, wait, peer, listen, post, Exchange, start, send_calls, wait_oldest, post_next,
}
use parallel_io.Spmd.Entries.{
  Entry, recv_entry, send_entry, hs_entry, select, select-append, select-append_two,
  select-concat_to, concat_to-empty, append-nil,
}

module _ (ntasks my_rank : ℕ) (sendcounts recvcounts : ℕ → ℕ) (fc : FlowControl)
    (ids : List ℕ) where
  abbrev pub other : ℕ → ℕ
  other i = peer ntasks my_rank sendcounts recvcounts fc ids i

  abbrev pub recv_at : ℕ → List Entry
  recv_at i = if ltb 0 (recvcounts (other i)) then (i, other i, other i + ntasks) ∷ [] else []

  abbrev pub send_at : ℕ → List Entry
  send_at i = if ltb 0 (sendcounts (other i)) then (i, other i, my_rank + ntasks) ∷ [] else []

  abbrev pub hs_at : ℕ → List Entry
  hs_at i = if fc.hs then send_at i else []

  abbrev pub State : Type 0
  State = Exchange ntasks my_rank sendcounts recvcounts fc ids

  abbrev pub listens : ℕ → List Call
  listens = listen ntasks my_rank sendcounts recvcounts fc ids

  abbrev pub posts : ℕ → List Call
  posts = post ntasks my_rank sendcounts recvcounts fc ids

  abbrev pub sends : ℕ → List Call
  sends = send_calls ntasks my_rank sendcounts recvcounts fc ids

  pub listen-recv : (i : ℕ) → select recv_entry (listens i) ≡ []
  unfolding select
  listen-recv i = ground arith

  pub listen-send : (i : ℕ) → select send_entry (listens i) ≡ []
  unfolding select
  listen-send i = ground arith

  pub listen-hs : (i : ℕ) → select hs_entry (listens i) ≡ hs_at i
  unfolding select
  listen-hs i = ground arith

  pub post-recv : (i : ℕ) → select recv_entry (posts i) ≡ recv_at i
  unfolding select
  post-recv i = ground arith

  pub post-send : (i : ℕ) → select send_entry (posts i) ≡ []
  unfolding select
  post-send i = ground arith

  pub post-hs : (i : ℕ) → select hs_entry (posts i) ≡ []
  unfolding select
  post-hs i = ground arith

  pub sends-recv : (i : ℕ) → select recv_entry (sends i) ≡ []
  unfolding select
  sends-recv i = ground arith

  pub sends-send : (i : ℕ) → select send_entry (sends i) ≡ send_at i
  unfolding select
  sends-send i = ground arith

  pub sends-hs : (i : ℕ) → select hs_entry (sends i) ≡ []
  unfolding select
  sends-hs i = ground arith

  -- The receives from step `w` on are pending, and those before `rstep` are posted; the sends of the
  -- steps before `k` are.
  pub record Holds (w k : ℕ) (s : State) : Type 0 where
    pub pending :
        (i : ℕ) → s.rcvids i ≡ (leb w i && (ltb i s.rstep && ltb 0 (recvcounts (other i))))
    pub received : select recv_entry s.calls ≡ concat_to s.rstep recv_at
    pub sent : select send_entry s.calls ≡ concat_to k send_at
    pub heard : select hs_entry s.calls ≡ concat_to s.rstep hs_at

  -- What a run of calls gives, from what each part gives.
  pub none_of :
      (f : Call → List Entry) (n : ℕ) (g : ℕ → List Call)
      → ((i : ℕ) → select f (g i) ≡ [])
      → select f (concat_to n g) ≡ []
  none_of f n g e = select-concat_to f n g ∙ concat_to-empty n (λ i. select f (g i)) e

  pub all_of :
      (f : Call → List Entry) (n : ℕ) (g : ℕ → List Call) (w : ℕ → List Entry)
      → ((i : ℕ) → select f (g i) ≡ w i)
      → select f (concat_to n g) ≡ concat_to n w
  all_of f n g w e = select-concat_to f n g ∙ concat_to-ext n (λ i. select f (g i)) w (λ i h. e i)

  pub start-Holds :
      (maxreq : ℕ) → Holds 0 0 (start ntasks my_rank sendcounts recvcounts fc ids maxreq)
  unfolding start
  start-Holds maxreq = record {
    pending = λ i. ground arith;
    received =
        select-append recv_entry (concat_to maxreq listens) (concat_to maxreq posts)
        ∙ rw (none_of recv_entry maxreq listens listen-recv)
            (all_of recv_entry maxreq posts recv_at post-recv);
    sent =
        select-append send_entry (concat_to maxreq listens) (concat_to maxreq posts)
        ∙ rw (none_of send_entry maxreq listens listen-send)
            (none_of send_entry maxreq posts post-send)
        ∙ (unfold concat_to in refl);
    heard =
        select-append hs_entry (concat_to maxreq listens) (concat_to maxreq posts)
        ∙ rw (none_of hs_entry maxreq posts post-hs, all_of hs_entry maxreq listens hs_at listen-hs)
            (append-nil _);
  }

  abbrev pub sent_state : ℕ → State → State
  sent_state k s = record s { calls = s.calls ++ sends k }

  pub send-Holds : (w k : ℕ) (s : State) → Holds w k s → Holds w (suc k) (sent_state k s)
  unfolding concat_to
  send-Holds w k s v = record {
    pending = v.pending;
    received =
        select-append recv_entry s.calls (sends k) ∙ rw (v.received, sends-recv k) (append-nil _);
    sent = select-append send_entry s.calls (sends k) ∙ rw (v.sent, sends-send k) refl;
    heard = select-append hs_entry s.calls (sends k) ∙ rw (v.heard, sends-hs k) (append-nil _);
  }

  unfoldable pub waits : ℕ → State → State
  waits p s = wait_oldest ntasks my_rank sendcounts recvcounts fc ids p s

  unfoldable pub waited : ℕ → State → State
  waited p s = record s {
    rcvids = λ i. if i == p then false else s.rcvids i;
    calls = s.calls ++ wait p ∷ [];
  }

  pub waits-pending : (p : ℕ) (s : State) → s.rcvids p ≡ true → waits p s ≡ waited p s
  unfolding wait_oldest waits waited
  waits-pending p s e = rw (e, wait_oldest) refl

  pub waits-none : (p : ℕ) (s : State) → s.rcvids p ≡ false → waits p s ≡ s
  unfolding wait_oldest waits
  waits-none p s e = rw (e, wait_oldest) refl

  pub wait-Holds : (w k : ℕ) (s : State) → Holds w k s → Holds (suc w) k (waits w s)
  unfolding select waited
  wait-Holds w k s v = elim (Bool-cases (s.rcvids w)) [
    | inl p ↦ rw (waits-pending w s p) (record {
      pending = λ i. elim (ℕ_discrete i w) [
        | yes e ↦ (rw e (ground arith))
        | no o ↦ let q = v.pending i in ground arith
      ];
      received = select-append recv_entry s.calls (wait w ∷ []) ∙ append-nil _ ∙ v.received;
      sent = select-append send_entry s.calls (wait w ∷ []) ∙ append-nil _ ∙ v.sent;
      heard = select-append hs_entry s.calls (wait w ∷ []) ∙ append-nil _ ∙ v.heard;
    })
    | inr n ↦ rw (waits-none w s n) (record {
      pending = λ i. elim (ℕ_discrete i w) [
        | yes e ↦ rw (e, n) (ground arith)
        | no o ↦ let q = v.pending i in ground arith
      ];
      received = v.received;
      sent = v.sent;
      heard = v.heard;
    })
  ]

  unfoldable pub posts_next : ℕ → State → State
  posts_next steps s = post_next ntasks my_rank sendcounts recvcounts fc ids steps s

  unfoldable pub posted : State → State
  posted s = record {
    rcvids =
        λ i. if i == s.rstep then ltb 0 (recvcounts (other s.rstep)) || s.rcvids i else s.rcvids i;
    rstep = suc s.rstep;
    calls = s.calls ++ listens s.rstep ++ posts s.rstep;
  }

  pub posts-one : (steps : ℕ) (s : State) → s.rstep < steps → posts_next steps s ≡ posted s
  unfolding post_next posts_next posted
  posts-one steps s h = rw (lt→ltb s.rstep steps h, post_next) refl

  pub posts-end : (steps : ℕ) (s : State) → steps ≤ s.rstep → posts_next steps s ≡ s
  unfolding post_next posts_next
  posts-end steps s h = let e : ltb s.rstep steps ≡ false = ground arith in rw (e, post_next) refl

  pub posted-Holds : (w k : ℕ) (s : State) → w ≤ s.rstep → Holds w k s → Holds w k (posted s)
  unfolding concat_to posted
  posted-Holds w k s l v = record {
    pending = λ i. elim (ℕ_discrete i s.rstep) [
      | yes e ↦ (rw e (let q = v.pending s.rstep in ground arith))
      | no o ↦ let q = v.pending i in ground arith
    ];
    received =
        select-append_two recv_entry s.calls (listens s.rstep) (posts s.rstep)
        ∙ rw (v.received, listen-recv s.rstep, post-recv s.rstep)
            (ap (λ l. l ++ recv_at s.rstep) (append-nil _));
    sent =
        select-append_two send_entry s.calls (listens s.rstep) (posts s.rstep)
        ∙ rw (v.sent, listen-send s.rstep, post-send s.rstep) (append-nil _ ∙ append-nil _);
    heard =
        select-append_two hs_entry s.calls (listens s.rstep) (posts s.rstep)
        ∙ rw (v.heard, listen-hs s.rstep, post-hs s.rstep) (append-nil _);
  }
