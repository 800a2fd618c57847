-- ===== src/Remap/Order.antt =====
-- The remap of `PIOc_InitDecomp` names each place of the map once, and sorts it.
use parallel_io.Base.{
  ℕ, suc, ◌<◌, ◌≡◌, refl, sym, ap, ◌≢◌, inl, inr, true, false, List, [], ◌∷◌, arith, Bool-cases,
  length, get_or,
}
use parallel_io.Base.Int.{ℤ, pos, ltb_ℤ}
use parallel_io.Sort.Count.{below_trans}
use parallel_io.SortedCopy.Loops.{Fresh, Distinct}
use parallel_io.SortedCopy.RoundTrip.{AllBelow}
use parallel_io.Remap.{SortMap, put_in}

abbrev pub places : List SortMap → List ℕ
places [] = []
places ((r, x) ∷ maps) = r ∷ places maps

-- Every pair has the entry of its place.
abbrev pub FromMap : List ℤ → List SortMap → Type 0
FromMap compmap [] = Unit {0}
FromMap compmap ((r, x) ∷ maps) = (get_or compmap r (pos 0) ≡ x) × FromMap compmap maps

abbrev pub NoneLess : ℤ → List ℤ → Type 0
NoneLess x [] = Unit {0}
NoneLess x (y ∷ ys) = (ltb_ℤ y x ≡ false) × NoneLess x ys

-- No entry is less than one before it.
abbrev pub InOrder : List ℤ → Type 0
InOrder [] = Unit {0}
InOrder (x ∷ xs) = NoneLess x xs × InOrder xs

abbrev pub keys : List SortMap → List ℤ
keys [] = []
keys ((r, x) ∷ maps) = x ∷ keys maps

ltb_asym : (x y : ℤ) → ltb_ℤ x y ≡ true → ltb_ℤ y x ≡ false
ltb_asym x y h = ground arith

NoneLess-trans : (x y : ℤ) (ys : List ℤ) → ltb_ℤ y x ≡ false → NoneLess y ys → NoneLess x ys
NoneLess-trans x y [] h n = tt
NoneLess-trans x y (z ∷ ys) h (p, n) = (below_trans x y z h p, NoneLess-trans x y ys h n)

-- What holds of a pair and of all in the list still holds after it is put in.
put_in-NoneLess :
    (x : ℤ) (r : ℕ) (y : ℤ) (maps : List SortMap)
    → ltb_ℤ y x ≡ false
    → NoneLess x (keys maps)
    → NoneLess x (keys (put_in (r, y) maps))
unfolding put_in
put_in-NoneLess x r y [] h n = (h, tt)
put_in-NoneLess x r y ((q, z) ∷ maps) h (p, n) = elim (Bool-cases (ltb_ℤ z y)) [
  | inl after ↦ rw (after) (p, put_in-NoneLess x r y maps h n)
  | inr here ↦ rw (here) (h, (p, n))
]

pub put_in-InOrder :
    (r : ℕ) (y : ℤ) (maps : List SortMap)
    → InOrder (keys maps)
    → InOrder (keys (put_in (r, y) maps))
unfolding put_in
put_in-InOrder r y [] o = (tt, tt)
put_in-InOrder r y ((q, z) ∷ maps) (n, o) = elim (Bool-cases (ltb_ℤ z y)) [
  | inl after ↦
      rw (after) (put_in-NoneLess z r y maps (ltb_asym z y after) n, put_in-InOrder r y maps o)
  | inr here ↦ rw (here) ((here, NoneLess-trans y z (keys maps) here n), (n, o))
]

pub put_in-Fresh :
    (p r : ℕ) (y : ℤ) (maps : List SortMap)
    → p ≢ r
    → Fresh p (places maps)
    → Fresh p (places (put_in (r, y) maps))
unfolding put_in
put_in-Fresh p r y [] ne f = (ne, tt)
put_in-Fresh p r y ((q, z) ∷ maps) ne (nq, f) = elim (Bool-cases (ltb_ℤ z y)) [
  | inl after ↦ rw (after) (nq, put_in-Fresh p r y maps ne f)
  | inr here ↦ rw (here) (ne, (nq, f))
]

pub put_in-Distinct :
    (r : ℕ) (y : ℤ) (maps : List SortMap)
    → Fresh r (places maps)
    → Distinct (places maps)
    → Distinct (places (put_in (r, y) maps))
unfolding put_in
put_in-Distinct r y [] f d = (tt, tt)
put_in-Distinct r y ((q, z) ∷ maps) (ne, f) (fq, d) = elim (Bool-cases (ltb_ℤ z y)) [
  | inl after ↦
      rw (after) (put_in-Fresh q r y maps (λ e. ne (sym e)) fq, put_in-Distinct r y maps f d)
  | inr here ↦ rw (here) ((ne, f), (fq, d))
]

pub put_in-AllBelow :
    (n r : ℕ) (y : ℤ) (maps : List SortMap)
    → r < n
    → AllBelow n (places maps)
    → AllBelow n (places (put_in (r, y) maps))
unfolding put_in
put_in-AllBelow n r y [] lt b = (lt, tt)
put_in-AllBelow n r y ((q, z) ∷ maps) lt (lq, b) = elim (Bool-cases (ltb_ℤ z y)) [
  | inl after ↦ rw (after) (lq, put_in-AllBelow n r y maps lt b)
  | inr here ↦ rw (here) (lt, (lq, b))
]

pub put_in-FromMap :
    (compmap : List ℤ) (r : ℕ) (y : ℤ) (maps : List SortMap)
    → get_or compmap r (pos 0) ≡ y
    → FromMap compmap maps
    → FromMap compmap (put_in (r, y) maps)
unfolding put_in
put_in-FromMap compmap r y [] e f = (e, tt)
put_in-FromMap compmap r y ((q, z) ∷ maps) e (eq, f) = elim (Bool-cases (ltb_ℤ z y)) [
  | inl after ↦ rw (after) (eq, put_in-FromMap compmap r y maps e f)
  | inr here ↦ rw (here) (e, (eq, f))
]

pub length-put_in :
    (r : ℕ) (y : ℤ) (maps : List SortMap)
    → length (places (put_in (r, y) maps)) ≡ suc (length (places maps))
unfolding put_in
length-put_in r y [] = refl
length-put_in r y ((q, z) ∷ maps) = elim (Bool-cases (ltb_ℤ z y)) [
  | inl after ↦ rw (after) (ap suc (length-put_in r y maps))
  | inr here ↦ rw (here) refl
]
