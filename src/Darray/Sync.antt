-- ===== src/Darray/Sync.antt =====
-- The loop of `PIOc_sync`, src/clib/pio_file.c, over the write buffers of a file.
use parallel_io.Base.{
  ℕ, zero, suc, ◌<◌, ◌≡◌, refl, sym, ap, subst, ◌∙◌, ◌⊎◌, inl, inr, Bool, true, false, Option, none,
  some, List, [], ◌∷◌, ◌++◌, arith, ltb, ◌==◌, if◌then◌else◌, Bool-cases, Option-cases, ==_iff,
}
use mathlib.Core.List.{append-nil}
use parallel_io.Base.Int.{ℤ, ◌==ℤ◌, ==ℤ_iff}
use parallel_io.Base.Heap.{Heap, free}
use parallel_io.Base.Error.{Error}
use parallel_io.Registry.Hash.{HashTable}
use parallel_io.Darray.{FileState, sync_buffers}
use parallel_io.Darray.Buffer.{WmultiBuffer, MultiWrite, flush_buffer, multi_write}
use parallel_io.Darray.Items.{Item, held}
use parallel_io.Darray.Append.{Shape}
use parallel_io.Darray.FillBuffer.{all_handed}
use parallel_io.Darray.History.{
  handed_for, handed_for-append, handed_for-keys, held_at, pending_in, history, Listed,
}

module _ (hash : HashTable) {V : Type 0} (multi : MultiWrite V → Option Error) (same : V → V → Bool)
    (shapes : ℤ → Shape) where
  open hash use {
    Table, find, add, del, head, size, find-del, size-del, head-some, head-none, size-zero,
  }

  -- A flush hands over what the buffer holds.
  flush_buffer-held :
      (b : WmultiBuffer V)
      → ((flush_buffer multi b true).1 ≡ []) × (held b ≡ [])
        ⊎ ((flush_buffer multi b true).1 ≡ (b.htid, multi_write b true) ∷ [])
  unfolding flush_buffer
  flush_buffer-held b = elim (Bool-cases (ltb 0 b.num_arrays)) [
    | inl e ↦ inr (rw e refl)
    | inr e ↦ let z : b.num_arrays ≡ 0 = ground arith in inl (rw e refl, rw z refl)
  ]

  flush_buffer-for :
      (b : WmultiBuffer V) (j : ℤ)
      → handed_for j (flush_buffer multi b true).1 ≡ (if b.htid ==ℤ j then held b else [])
  flush_buffer-for b j = elim (flush_buffer-held b) [
    | inl (e, z) ↦
        rw (e, z) (elim (Bool-cases (b.htid ==ℤ j)) [ inl q ↦ rw q refl | inr q ↦ rw q refl ])
    | inr e ↦
        handed_for-keys b.htid _ (inr (_, e)) j
        ∙ ap (λ (l : List (Item V)). if b.htid ==ℤ j then l else [])
            (ap all_handed e ∙ append-nil (held b))
  ]

  module _ (h : Heap (WmultiBuffer V)) (t : Table) (valid : Listed hash shapes h t) (k : ℤ) (p : ℕ)
      (listed : find t k ≡ some p) where
    found : (j : ℤ) (o : Bool) → (k ==ℤ j) ≡ o → find (del t k p) j ≡ (if o then none else find t j)
    found j o e = find-del t k p j listed ∙ rw e refl

    apart : (j : ℤ) (q : ℕ) → (k ==ℤ j) ≡ false → find t j ≡ some q → free h p q ≡ h q
    apart j q ne f =
        let (c, f1, f2, r) = valid j q f in
        let (c', g1, g2, r') = valid k p listed in
        elim (Bool-cases (p == q)) [
          | inr d ↦ rw d refl
          | inl d ↦
              let i : p ≡ q = (==_iff p q).0 d in
              let e : k ≡ j = cc in let e' = (==ℤ_iff k j).1 e in absurd (cc)
        ]

    -- One buffer less.
    del_lem :
        Listed hash shapes (free h p) (del t k p)
        × ((j : ℤ)
            → pending_in hash (free h p) (del t k p) j
              ≡ (if k ==ℤ j then [] else pending_in hash h t j))
    del_lem = (still, pended)
      where
        still : Listed hash shapes (free h p) (del t k p)
        still j q e = elim (Bool-cases (k ==ℤ j)) [
          | inl s ↦ let f = found j true s in absurd (cc)
          | inr o ↦
              let f : find t j ≡ some q = sym (found j false o) ∙ e in
              let (c, g, i, r) = valid j q f in (c, apart j q o f ∙ g, i, r)
        ]

        pended :
            (j : ℤ)
            → pending_in hash (free h p) (del t k p) j
              ≡ (if k ==ℤ j then [] else pending_in hash h t j)
        pended j = elim (Bool-cases (k ==ℤ j)) [
          | inl s ↦ rw s (rw (found j true s, pending_in) refl)
          | inr o ↦ rw o (
              rw (found j false o, pending_in)
                (elim (Option-cases (find t j)) [
                  | inl e ↦ rw (e, pending_in) refl
                  | inr (q, e) ↦ rw (e, pending_in) (ap held_at (apart j q o e))
                ]))
        ]

  -- The file after one round of the loop.
  abbrev next : FileState hash V → ℕ → WmultiBuffer V → FileState hash V
  next s p b = record s {
    buffers = free s.buffers p;
    buffer = del s.buffer b.htid p;
    writes = s.writes ++ (flush_buffer multi b true).1;
  }

  sync_buffers-next :
      (fuel : ℕ) (s : FileState hash V) (p : ℕ) (b : WmultiBuffer V)
      → head s.buffer ≡ some p
      → s.buffers p ≡ some b
      → sync_buffers hash multi same (suc fuel) s ≡ sync_buffers hash multi same fuel (next s p b)
  unfolding sync_buffers
  sync_buffers-next fuel s p b e f = rw (e, sync_buffers) (rw (f, sync_buffers) refl)

  next-history :
      (s : FileState hash V) (p : ℕ) (b : WmultiBuffer V)
      → Listed hash shapes s.buffers s.buffer
      → find s.buffer b.htid ≡ some p
      → s.buffers p ≡ some b
      → (j : ℤ) → history hash (next s p b) j ≡ history hash s j
  next-history s p b valid f g j =
      let split = handed_for-append j s.writes (flush_buffer multi b true).1 in
      let pended = (del_lem s.buffers s.buffer valid b.htid p f).1 j in
      elim (Bool-cases (b.htid ==ℤ j)) [
        | inl q ↦
            let at_j : find s.buffer j ≡ some p =
              subst (λ (l : ℤ). find s.buffer l ≡ some p) ((==ℤ_iff b.htid j).0 q) f in
            let h : pending_in hash s.buffers s.buffer j ≡ held b =
              rw (at_j, pending_in) (rw g refl) in
            rw (split, flush_buffer-for b j, pended, q, h) (append-nil _)
        | inr q ↦ rw (split, flush_buffer-for b j, pended, q) (rw append-nil refl)
      ]

  -- With more fuel than buffers the loop ends. Then no buffer is left, and what was given for a key,
  -- and still held, was handed over behind what had been flushed before.
  pub sync_buffers-history :
      (fuel : ℕ) (s : FileState hash V)
      → Listed hash shapes s.buffers s.buffer
      → size s.buffer < fuel
      → (t : FileState hash V) × (sync_buffers hash multi same fuel s ≡ some t)
        × ((k : ℤ) → find t.buffer k ≡ none)
        × ((k : ℤ) → handed_for k t.writes ≡ history hash s k)
  unfolding sync_buffers
  sync_buffers-history zero s valid enough = absurd (omega arith)
  sync_buffers-history (suc fuel) s valid enough = elim (Option-cases (head s.buffer)) [
    | inl e ↦
        let gone = λ (k : ℤ). head-none s.buffer k e in
        (
          s,
          rw (e, sync_buffers) refl,
          gone,
          λ k. rw (gone k, pending_in) (sym (append-nil (handed_for k s.writes))),
        )
    | inr (p, e) ↦
        let (k, f) = head-some s.buffer p e in
        let (b, g, key, ready) = valid k p f in
        let f' : find s.buffer b.htid ≡ some p = rw key f in
        let less = size-del s.buffer b.htid p f' in
        let (t, r, gone, all) =
          sync_buffers-history fuel (next s p b) (del_lem s.buffers s.buffer valid b.htid p f').0
            (omega arith) in
        (
          t,
          sync_buffers-next fuel s p b e g ∙ r,
          gone,
          λ j. all j ∙ next-history s p b valid f' g j,
        )
  ]
