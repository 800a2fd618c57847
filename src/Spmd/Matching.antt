-- ===== src/Spmd/Matching.antt =====
-- The messages of two ranks in `pio_swapm`.
use parallel_io.Base.{
  ℕ, zero, suc, ◌+◌, ◌<◌, ◌≡◌, ◌≢◌, refl, sym, ap, subst, ◌∙◌, ◌⊎◌, inl, inr, Bool, true, false,
  ◌||◌, List, [], ◌∷◌, ◌++◌, length, get_or, ltb, lt→ltb, if◌then◌else◌, arith, ℕ_discrete,
}
use parallel_io.Base.Int.{pos, ◌==ℤ◌}
use parallel_io.Base.Ranks.{concat_to}
use parallel_io.Spmd.{FlowControl, Call, swapm}
use parallel_io.Spmd.Entries.{Entry, recv_entry, send_entry, select, select-append}
use parallel_io.Spmd.Parts.{recv_at, send_at}
use parallel_io.Spmd.Peers.{occurs, swapids-occurs}
use parallel_io.Spmd.Total.{partners, own, swapm-Complete}

-- An entry of a list.
unfoldable pub In : Entry → List Entry → Type 0
In e [] = ⊥
In e (x ∷ xs) = (x ≡ e) ⊎ In e xs

In-left : (e : Entry) (xs ys : List Entry) → In e xs → In e (xs ++ ys)
unfolding In
In-left e [] ys h = absurd h
In-left e (x ∷ xs) ys (inl h) = inl h
In-left e (x ∷ xs) ys (inr h) = inr (In-left e xs ys h)

In-right : (e : Entry) (xs ys : List Entry) → In e ys → In e (xs ++ ys)
unfolding In
In-right e [] ys h = h
In-right e (x ∷ xs) ys h = inr (In-right e xs ys h)

In-one : (t : Bool) (e : Entry) → t ≡ true → In e (if t then e ∷ [] else [])
unfolding In
In-one true e h = inl refl
In-one false e h = absurd (ground arith)

In-concat_to :
    (e : Entry) (n : ℕ) (f : ℕ → List Entry) (i : ℕ) → i < n → In e (f i) → In e (concat_to n f)
unfolding concat_to
In-concat_to e zero f i l h = absurd (omega arith)
In-concat_to e (suc n) f i l h = elim (ℕ_discrete i n) [
  | yes y ↦ In-right e (concat_to n f) (f n) (subst (λ j. In e (f j)) y h)
  | no o ↦ In-left e (concat_to n f) (f n) (In-concat_to e n f i (omega arith) h)
]

place_of :
    (q : ℕ) (ids : List ℕ) → 0 < occurs q ids → (i : ℕ) × (i < length ids) × (get_or ids i 0 ≡ q)
unfolding occurs
place_of q [] h = absurd (omega arith)
place_of q (x ∷ xs) h = elim (ℕ_discrete q x) [
  | yes e ↦ (0, omega arith, sym e)
  | no o ↦ let (i, l, e) = place_of q xs (ground arith) in (suc i, omega arith, e)
]

module _ (ntasks : ℕ) (fc : FlowControl) (throttled : (fc.max_pend_req ==ℤ pos 0) ≡ false) where
  -- The step in which rank `a` meets rank `b`.
  step_of :
      (a b : ℕ) (sendcounts recvcounts : ℕ → ℕ)
      → a < ntasks
      → b < ntasks
      → a ≢ b
      → (ltb 0 (sendcounts b) || ltb 0 (recvcounts b)) ≡ true
      → let ids = partners ntasks a sendcounts recvcounts fc in
        (i : ℕ) × (i < length ids) × (get_or ids i 0 ≡ b)
  step_of a b sendcounts recvcounts h g n t =
      place_of b (partners ntasks a sendcounts recvcounts fc)
        (let o = swapids-occurs ntasks a sendcounts recvcounts b h in ground arith)

  -- The calls for the partners are the last ones.
  In-swapm :
      (f : Call → List Entry) (a : ℕ) (sendcounts recvcounts : ℕ → ℕ) (rest : List Call) (e : Entry)
      → swapm ntasks a sendcounts recvcounts fc ≡ own ntasks a sendcounts recvcounts fc ++ rest
      → In e (select f rest)
      → In e (select f (swapm ntasks a sendcounts recvcounts fc))
  In-swapm f a sendcounts recvcounts rest e c h =
      let first = own ntasks a sendcounts recvcounts fc in
      subst (λ l. In e l) (sym (ap (select f) c ∙ select-append f first rest))
        (In-right e (select f first) (select f rest) h)

  sent_to :
      (a b : ℕ) (sendcounts recvcounts : ℕ → ℕ)
      → a < ntasks
      → b < ntasks
      → a ≢ b
      → 0 < sendcounts b
      → (i : ℕ) × In
          (i, b, a + ntasks)
          (select send_entry (swapm ntasks a sendcounts recvcounts fc))
  sent_to a b sendcounts recvcounts h g n p =
      let ids = partners ntasks a sendcounts recvcounts fc in
      let (i, l, e) = step_of a b sendcounts recvcounts h g n (ground arith) in
      let (rest, c, complete) =
        swapm-Complete ntasks a sendcounts recvcounts fc (omega arith) throttled in
      let here : In (i, b, a + ntasks) (send_at ntasks a sendcounts recvcounts fc ids i) =
        subst
          (λ q.
            In (i, b, a + ntasks) (if ltb 0 (sendcounts q) then (i, q, a + ntasks) ∷ [] else []))
          (sym e) (In-one (ltb 0 (sendcounts b)) (i, b, a + ntasks) (lt→ltb 0 (sendcounts b) p)) in
      (
        i,
        In-swapm send_entry a sendcounts recvcounts rest (i, b, a + ntasks) c
            (subst (λ k. In (i, b, a + ntasks) k) (sym complete.sends)
              (In-concat_to (i, b, a + ntasks) (length ids)
                (send_at ntasks a sendcounts recvcounts fc ids) i l here)),
      )

  received_from :
      (b a : ℕ) (sendcounts recvcounts : ℕ → ℕ)
      → b < ntasks
      → a < ntasks
      → b ≢ a
      → 0 < recvcounts a
      → (j : ℕ) × In
          (j, a, a + ntasks)
          (select recv_entry (swapm ntasks b sendcounts recvcounts fc))
  received_from b a sendcounts recvcounts h g n p =
      let ids = partners ntasks b sendcounts recvcounts fc in
      let (j, l, e) = step_of b a sendcounts recvcounts h g n (ground arith) in
      let (rest, c, complete) =
        swapm-Complete ntasks b sendcounts recvcounts fc (omega arith) throttled in
      let here : In (j, a, a + ntasks) (recv_at ntasks b sendcounts recvcounts fc ids j) =
        subst
          (λ q.
            In (j, a, a + ntasks) (if ltb 0 (recvcounts q) then (j, q, q + ntasks) ∷ [] else []))
          (sym e) (In-one (ltb 0 (recvcounts a)) (j, a, a + ntasks) (lt→ltb 0 (recvcounts a) p)) in
      (
        j,
        In-swapm recv_entry b sendcounts recvcounts rest (j, a, a + ntasks) c
            (subst (λ k. In (j, a, a + ntasks) k) (sym complete.receives)
              (In-concat_to (j, a, a + ntasks) (length ids)
                (recv_at ntasks b sendcounts recvcounts fc ids) j l here)),
      )

  -- In a throttled exchange, what one rank sends to another that expects data from it, the other receives:
  -- the one posts a send to the other, the other a receive from the one, with the same tag.
  pub swapm-matches :
      (a b : ℕ) (sends_a recvs_a sends_b recvs_b : ℕ → ℕ)
      → a < ntasks
      → b < ntasks
      → a ≢ b
      → 0 < sends_a b
      → 0 < recvs_b a
      → (i : ℕ) × (j : ℕ) × (tag : ℕ) × In
          (i, b, tag)
          (select send_entry (swapm ntasks a sends_a recvs_a fc))
        × In (j, a, tag) (select recv_entry (swapm ntasks b sends_b recvs_b fc))
  swapm-matches a b sends_a recvs_a sends_b recvs_b h g n p q =
      let (i, s) = sent_to a b sends_a recvs_a h g n p in
      let (j, r) = received_from b a sends_b recvs_b g h (λ z. n (sym z)) q in
      (i, j, a + ntasks, s, r)
