-- ===== src/Darray/History.antt =====
-- What the buffers of a file hold and what was handed over, src/clib/pio_darray.c, for each key of a buffer.
use parallel_io.Base.{
  ℕ, ◌≡◌, refl, sym, ap, subst, ◌∙◌, ◌⊎◌, inl, inr, Bool, true, false, Option, none, some, List, [],
  ◌∷◌, ◌++◌, arith, ◌==◌, if◌then◌else◌, Bool-cases, Option-cases, ==_iff,
}
use mathlib.Core.List.{append_assoc}
use parallel_io.Base.Int.{ℤ, ◌==ℤ◌, ==ℤ_iff}
use parallel_io.Base.Heap.{Heap, update}
use parallel_io.Registry.Hash.{HashTable}
use parallel_io.Darray.{FileState}
use parallel_io.Darray.Buffer.{WmultiBuffer, MultiWrite}
use parallel_io.Darray.Items.{Item, held, handed}
use parallel_io.Darray.Append.{Shape, IsReady}
use parallel_io.Darray.FillBuffer.{all_handed}

module _ {V : Type 0} where
  -- The arrays handed over for the key `k`, in their order.
  abbrev pub handed_for : ℤ → List (ℤ × MultiWrite V) → List (Item V)
  handed_for k [] = []
  handed_for k ((j, w) ∷ calls) =
      let rest = handed_for k calls in if k ==ℤ j then handed w ++ rest else rest

  pub handed_for-append :
      (k : ℤ) (xs ys : List (ℤ × MultiWrite V))
      → handed_for k (xs ++ ys) ≡ handed_for k xs ++ handed_for k ys
  handed_for-append k [] ys = refl
  handed_for-append k ((j, w) ∷ xs) ys = elim (Bool-cases (k ==ℤ j)) [
    | inl e ↦
        rw (e, handed_for-append k xs ys)
          (sym (append_assoc (handed w) (handed_for k xs) (handed_for k ys)))
    | inr e ↦ rw (e, handed_for-append k xs ys) refl
  ]

  -- The arrays of the calls made on the buffer of `k`.
  pub handed_for-keys :
      (k : ℤ) (calls : List (ℤ × MultiWrite V))
      → (calls ≡ []) ⊎ ((c : MultiWrite V) × (calls ≡ (k, c) ∷ []))
      → (j : ℤ) → handed_for j calls ≡ (if k ==ℤ j then all_handed calls else [])
  handed_for-keys k calls (inl e) j =
      rw e (elim (Bool-cases (k ==ℤ j)) [ inl q ↦ rw q refl | inr q ↦ rw q refl ])
  handed_for-keys k calls (inr (c, e)) j = rw e (elim (Bool-cases (k ==ℤ j)) [
    | inl q ↦ let r : (j ==ℤ k) ≡ true = ground arith in rw (q, r) refl
    | inr q ↦ let r : (j ==ℤ k) ≡ false = ground arith in rw (q, r) refl
  ])

  abbrev pub held_at : Option (WmultiBuffer V) → List (Item V)
  held_at none = []
  held_at (some b) = held b

module _ (hash : HashTable) {V : Type 0} where
  open hash use {Table, find, add, find-add}

  abbrev pub pending_in : Heap (WmultiBuffer V) → Table → ℤ → List (Item V)
  pending_in h t k = elim (find t k) [ none ↦ [] | some p ↦ held_at (h p) ]

  -- All arrays that were given for the key `k`: those handed over, and those in the buffer.
  abbrev pub history : FileState hash V → ℤ → List (Item V)
  history s k = handed_for k s.writes ++ pending_in s.buffers s.buffer k

  -- Each listed buffer is allocated, under its key, and has the key's shape.
  abbrev pub Listed : (ℤ → Shape) → Heap (WmultiBuffer V) → Table → Type 0
  Listed shapes h t =
      (k : ℤ) (p : ℕ)
      → find t k ≡ some p
      → (b : WmultiBuffer V) × (h p ≡ some b) × (b.htid ≡ k) × IsReady (shapes k) b

  module _ (shapes : ℤ → Shape) (h : Heap (WmultiBuffer V)) (t : Table) (valid : Listed shapes h t)
      (k : ℤ) (p : ℕ) (b : WmultiBuffer V) where
    abbrev h' : Heap (WmultiBuffer V)
    h' = update h p (some b)

    self : h' p ≡ some b
    self = ground arith

    elsewhere : (q : ℕ) → (p == q) ≡ false → h' q ≡ h q
    elsewhere q e = ground arith

    pending_at :
        (g : Heap (WmultiBuffer V)) (u : Table) (j : ℤ) (o : Option ℕ)
        → find u j ≡ o
        → pending_in g u j ≡ elim o [ none ↦ [] | some q ↦ held_at (g q) ]
    pending_at g u j o e = rw (e, pending_in) refl

    module _
        (apart : (j : ℤ) (q : ℕ) → (k ==ℤ j) ≡ false → find t j ≡ some q → (p == q) ≡ false) where
      same_pending : (j : ℤ) → (k ==ℤ j) ≡ false → pending_in h' t j ≡ pending_in h t j
      same_pending j ne = elim (Option-cases (find t j)) [
        | inl e ↦ pending_at h' t j none e ∙ sym (pending_at h t j none e)
        | inr (q, e) ↦
            pending_at h' t j (some q) e
            ∙ ap held_at (elsewhere q (apart j q ne e))
            ∙ sym (pending_at h t j (some q) e)
      ]

      abbrev ListedAt : ℤ → ℕ → Type 0
      ListedAt j q = (c : WmultiBuffer V) × (h' q ≡ some c) × (c.htid ≡ j) × IsReady (shapes j) c

      still_listed : (j : ℤ) (q : ℕ) → (k ==ℤ j) ≡ false → find t j ≡ some q → ListedAt j q
      still_listed j q ne e =
          let (c, f, g, r) = valid j q e in (c, elsewhere q (apart j q ne e) ∙ f, g, r)

      listed_self :
          b.htid ≡ k
          → IsReady (shapes k) b
          → (j : ℤ) (q : ℕ) → (k ==ℤ j) ≡ true
          → p ≡ q
          → ListedAt j q
      listed_self key ready j q e f =
          let i = (==ℤ_iff k j).0 e in
          (
            b,
            subst (λ (u : ℕ). h' u ≡ some b) f self,
            key ∙ i,
            subst (λ (l : ℤ). IsReady (shapes l) b) i ready,
          )

    -- A new buffer without arrays.
    pub add_lem :
        find t k ≡ none
        → h p ≡ none
        → b.htid ≡ k
        → IsReady (shapes k) b
        → held b ≡ []
        → Listed shapes h' (add t k p) × ((j : ℤ) → pending_in h' (add t k p) j ≡ pending_in h t j)
    add_lem new fresh key ready empty = (listed, pended)
      where
        apart : (j : ℤ) (q : ℕ) → (k ==ℤ j) ≡ false → find t j ≡ some q → (p == q) ≡ false
        apart j q ne e =
            let (c, f, g, r) = valid j q e in
            elim (Bool-cases (p == q)) [
              | inr d ↦ d
              | inl d ↦ let i : p ≡ q = (==_iff p q).0 d in absurd (cc)
            ]

        found :
            (j : ℤ) (o : Bool)
            → (k ==ℤ j) ≡ o
            → find (add t k p) j ≡ (if o then some p else find t j)
        found j o e = find-add t k p j new ∙ rw e refl

        listed : Listed shapes h' (add t k p)
        listed j q e = elim (Bool-cases (k ==ℤ j)) [
          | inl same ↦ let f = found j true same in listed_self apart key ready j q same (cc)
          | inr other ↦ let f = found j false other in still_listed apart j q other (sym f ∙ e)
        ]

        pended : (j : ℤ) → pending_in h' (add t k p) j ≡ pending_in h t j
        pended j = elim (Bool-cases (k ==ℤ j)) [
          | inl same ↦
              let none_before : find t j ≡ none =
                subst (λ (l : ℤ). find t l ≡ none) ((==ℤ_iff k j).0 same) new in
              pending_at h' (add t k p) j (some p) (found j true same)
              ∙ ap held_at self
              ∙ empty
              ∙ sym (pending_at h t j none none_before)
          | inr other ↦
              pending_at h' (add t k p) j (find t j) (found j false other)
              ∙ same_pending apart j other
        ]

    -- A listed buffer is replaced.
    pub replace_lem :
        find t k ≡ some p
        → b.htid ≡ k
        → IsReady (shapes k) b
        → Listed shapes h' t
          × ((j : ℤ) → pending_in h' t j ≡ (if k ==ℤ j then held b else pending_in h t j))
    replace_lem e key ready = (listed, pended)
      where
        apart : (j : ℤ) (q : ℕ) → (k ==ℤ j) ≡ false → find t j ≡ some q → (p == q) ≡ false
        apart j q ne f =
            let (c, f1, f2, r) = valid j q f in
            let (c', g1, g2, r') = valid k p e in
            elim (Bool-cases (p == q)) [
              | inr d ↦ d
              | inl d ↦
                  let i : p ≡ q = (==_iff p q).0 d in
                  let same : k ≡ j = cc in let t = (==ℤ_iff k j).1 same in absurd (cc)
            ]

        same_address : (j : ℤ) (q : ℕ) → (k ==ℤ j) ≡ true → find t j ≡ some q → p ≡ q
        same_address j q same f = let i = (==ℤ_iff k j).0 same in cc

        listed : Listed shapes h' t
        listed j q f = elim (Bool-cases (k ==ℤ j)) [
          | inl same ↦ listed_self apart key ready j q same (same_address j q same f)
          | inr other ↦ still_listed apart j q other f
        ]

        pended : (j : ℤ) → pending_in h' t j ≡ (if k ==ℤ j then held b else pending_in h t j)
        pended j = elim (Bool-cases (k ==ℤ j)) [
          | inl same ↦
              let at_j : find t j ≡ some p =
                subst (λ (l : ℤ). find t l ≡ some p) ((==ℤ_iff k j).0 same) e in
              rw same (pending_at h' t j (some p) at_j ∙ ap held_at self)
          | inr other ↦ rw other (same_pending apart j other)
        ]
