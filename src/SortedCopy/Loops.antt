-- ===== src/SortedCopy/Loops.antt =====
-- What the loops of `pio_sorted_copy` write, and that the two directions undo each other.
use parallel_io.Base.{
  dec_lt, ℕ, zero, suc, ◌+◌, ◌*◌, ◌≤◌, ◌<◌, ◌≡◌, refl, ◌∙◌, ◌≢◌, some, List, [], ◌∷◌, arith,
  get_elem?,
}
use parallel_io.SortedCopy.{Cells, store, copy_in, copy_out, each_var}

abbrev pub Fresh : ℕ → List ℕ → Type 0
Fresh r [] = Unit {0}
Fresh r (q ∷ rest) = (r ≢ q) × Fresh r rest

-- No two entries are the same.
abbrev pub Distinct : List ℕ → Type 0
Distinct [] = Unit {0}
Distinct (r ∷ rest) = Fresh r rest × Distinct rest

module _ {V : Type 0} where
  store_same : (cells : Cells V) (c : ℕ) (x : V) → store cells c x c ≡ x
  store_same cells c x = ground arith

  store_other : (cells : Cells V) {c d : ℕ} (x : V) → d ≢ c → store cells c x d ≡ cells d
  store_other cells x ne = ground arith

  pub copy_in_below :
      (remap : List ℕ) (m base c : ℕ) (array sorted : Cells V)
      → c < m + base
      → copy_in remap m base array sorted c ≡ sorted c
  unfolding copy_in
  copy_in_below [] m base c array sorted h = refl
  copy_in_below (r ∷ remap) m base c array sorted h =
      copy_in_below remap (m + 1) base c array (store sorted (m + base) (array (r + base)))
        (omega arith)
      ∙ store_other sorted (array (r + base)) (λ e. absurd (omega arith))

  pub copy_in_at :
      (remap : List ℕ) (m base i : ℕ) {r : ℕ} (array sorted : Cells V)
      → get_elem? remap i ≡ some r
      → copy_in remap m base array sorted (m + i + base) ≡ array (r + base)
  unfolding copy_in
  copy_in_at [] m base i array sorted h = cc
  copy_in_at (q ∷ remap) m base zero {r = r} array sorted h =
      let same : q ≡ r = cc in
      let e : m + 0 + base ≡ m + base = omega arith in
      rw (e, ← same)
        (copy_in_below remap (m + 1) base (m + base) array
            (store sorted (m + base) (array (q + base))) (omega arith)
          ∙ store_same sorted (m + base) (array (q + base)))
  copy_in_at (q ∷ remap) m base (suc i) array sorted h =
      let e : m + suc i + base ≡ m + 1 + i + base = omega arith in
      rw (e) (copy_in_at remap (m + 1) base i array (store sorted (m + base) (array (q + base))) h)

  pub copy_out_below :
      (remap : List ℕ) (m base c : ℕ) (array sorted : Cells V)
      → c < base
      → copy_out remap m base array sorted c ≡ sorted c
  unfolding copy_out
  copy_out_below [] m base c array sorted h = refl
  copy_out_below (r ∷ remap) m base c array sorted h =
      copy_out_below remap (m + 1) base c array (store sorted (r + base) (array (m + base))) h
      ∙ store_other sorted (array (m + base)) (λ e. absurd (omega arith))

  copy_out-Fresh :
      (remap : List ℕ) (m base r : ℕ) (array sorted : Cells V)
      → Fresh r remap
      → copy_out remap m base array sorted (r + base) ≡ sorted (r + base)
  unfolding copy_out
  copy_out-Fresh [] m base r array sorted f = refl
  copy_out-Fresh (q ∷ remap) m base r array sorted (ne, f) =
      copy_out-Fresh remap (m + 1) base r array (store sorted (q + base) (array (m + base))) f
      ∙ store_other sorted (array (m + base)) (λ e. ne (omega arith))

  pub copy_out_at :
      (remap : List ℕ) (m base i : ℕ) {r : ℕ} (array sorted : Cells V)
      → Distinct remap
      → get_elem? remap i ≡ some r
      → copy_out remap m base array sorted (r + base) ≡ array (m + i + base)
  unfolding copy_out
  copy_out_at [] m base i array sorted d h = cc
  copy_out_at (q ∷ remap) m base zero {r = r} array sorted (f, d) h =
      let same : q ≡ r = cc in
      let e : m + 0 + base ≡ m + base = omega arith in
      rw (e, ← same)
        (copy_out-Fresh remap (m + 1) base q array (store sorted (q + base) (array (m + base))) f
          ∙ store_same sorted (q + base) (array (m + base)))
  copy_out_at (q ∷ remap) m base (suc i) array sorted (f, d) h =
      let e : m + suc i + base ≡ m + 1 + i + base = omega arith in
      rw (e)
        (copy_out_at remap (m + 1) base i array (store sorted (q + base) (array (m + base))) d h)

-- The loop over the variables, for a copy that leaves the cells of earlier variables alone.
module _ {V : Type 0} (copy : ℕ → Cells V → Cells V) (maplen : ℕ)
    (below : (base c : ℕ) (cells : Cells V) → c < base → copy base cells c ≡ cells c) where
  each_var_below :
      (n v c : ℕ) (cells : Cells V) → c < maplen * v → each_var copy maplen n v cells c ≡ cells c
  each_var_below zero v c cells h = refl
  each_var_below (suc n) v c cells h =
      each_var_below n (v + 1) c (copy (maplen * v) cells) (grind arith)
      ∙ below (maplen * v) c cells h

  pub each_var_at :
      (n v w l : ℕ) (x : V) (cells : Cells V)
      → l < maplen
      → v ≤ w
      → w < v + n
      → ((cells' : Cells V) → copy (maplen * w) cells' (l + maplen * w) ≡ x)
      → each_var copy maplen n v cells (l + maplen * w) ≡ x
  each_var_at zero v w l x cells lt le lt' at = absurd (omega arith)
  each_var_at (suc n) v w l x cells lt le lt' at = elim (dec_lt v w) [
    | yes later ↦
        each_var_at n (v + 1) w l x (copy (maplen * v) cells) lt (omega arith) (omega arith) at
    | no now ↦
        let e : v ≡ w = omega arith in
        rw e (
          each_var_below n (w + 1) (l + maplen * w) (copy (maplen * w) cells) (grind arith)
          ∙ at cells)
  ]
