-- ===== src/Darray/Items.antt =====
-- The arrays that a write buffer of src/clib/pio_darray.c holds, and those that a call of
-- PIOc_write_darray_multi is handed, read off the memory.
use parallel_io.Base.{
  ℕ, zero, suc, ◌+◌, ◌*◌, ◌≤◌, ◌≡◌, refl, Option, none, some, List, [], ◌∷◌, ◌++◌, map, arith,
  length, take, drop, length-drop,
}
use parallel_io.Base.Int.{ℤ}
use parallel_io.Darray.Memory.{Block}
use parallel_io.Darray.Buffer.{WmultiBuffer, MultiWrite, or_empty}

-- One array: its variable, record and fill value, and its elements.
pub record Item (V : Type 0) : Type 0 where
  pub varid : Option ℤ
  pub record_number : Option ℤ
  pub fill : Option V
  pub elements : Block V

module _ {A : Type 0} where
  abbrev pub first : Block A → Option A
  first [] = none
  first (c ∷ b) = c

  -- The first `n` cells of both blocks are alike, and then the second has `c`.
  abbrev pub Grows : ℕ → Block A → Block A → Option A → Type 0
  Grows zero b b' c = first b' ≡ c
  Grows (suc n) b b' c = (first b' ≡ first b) × Grows n (drop 1 b) (drop 1 b') c

  pub Grows-append :
      (n : ℕ) (b : Block A) (c : A) → n ≤ length b → Grows n b (take n b ++ some c ∷ []) (some c)
  Grows-append zero b c h = refl
  Grows-append (suc n) [] c h = absurd (omega arith)
  Grows-append (suc n) (x ∷ b) c h = (refl, Grows-append n b c (omega arith))

  -- The same for `n` pieces of `len` cells each, and then the elements `xs`.
  abbrev pub GrowsBy : ℕ → ℕ → Block A → Block A → List A → Type 0
  GrowsBy len zero d d' xs = take len d' ≡ map some xs
  GrowsBy len (suc n) d d' xs =
      (take len d' ≡ take len d) × GrowsBy len n (drop len d) (drop len d') xs

  take-all : (xs : List A) → take (length xs) (map some xs) ≡ map some xs
  take-all [] = refl
  take-all (x ∷ xs) = rw (take-all xs)

  take-pieces :
      (k m : ℕ) (d r : Block A)
      → k ≤ length d
      → (take k (take (k + m) d ++ r) ≡ take k d)
        × (drop k (take (k + m) d ++ r) ≡ take m (drop k d) ++ r)
  take-pieces zero m d r h = let e : 0 + m ≡ m = omega arith in (refl, rw e)
  take-pieces (suc k) m [] r h = absurd (omega arith)
  take-pieces (suc k) m (x ∷ d) r h =
      let e : suc k + m ≡ suc (k + m) = omega arith in
      let (p, q) = take-pieces k m d r (omega arith) in rw e (rw p, q)

  pub GrowsBy-append :
      (n : ℕ) (d : Block A) (xs : List A)
      → length xs * n ≤ length d
      → GrowsBy (length xs) n d (take (length xs * n) d ++ map some xs) xs
  GrowsBy-append zero d xs h = let e : length xs * 0 ≡ 0 = omega arith in rw e (take-all xs)
  GrowsBy-append (suc n) d xs h =
      let e : length xs * suc n ≡ length xs + length xs * n = grind arith in
      let (p, q) = take-pieces (length xs) (length xs * n) d (map some xs) (grind arith) in
      rw (e, p, q)
        (refl, GrowsBy-append n (drop (length xs) d) xs (omega (arith, length-drop (length xs) d)))

  pub GrowsBy-nothing : (n : ℕ) (d : Block A) → GrowsBy 0 n d d []
  GrowsBy-nothing zero d = refl
  GrowsBy-nothing (suc n) d = (refl, GrowsBy-nothing n d)

pub Grows-empty : (A : Type 0) (n : ℕ) → Grows {A = A} n [] [] none
Grows-empty A zero = refl
Grows-empty A (suc n) = (refl, Grows-empty A n)

module _ {V : Type 0} where
  abbrev pub items : ℕ → Block ℤ → Block ℤ → Block V → ℕ → Block V → List (Item V)
  items zero vid frame fill len d = []
  items (suc n) vid frame fill len d =
      record {
        varid = first vid;
        record_number = first frame;
        fill = first fill;
        elements = take len d;
      }
      ∷ items n (drop 1 vid) (drop 1 frame) (drop 1 fill) len (drop len d)

  -- The arrays of a buffer, and of a call.
  abbrev pub held : WmultiBuffer V → List (Item V)
  held b = items b.num_arrays b.vid (or_empty b.frame) (or_empty b.fillvalue) b.arraylen b.cells

  abbrev pub handed : MultiWrite V → List (Item V)
  handed w = items w.nvars w.varids (or_empty w.frame) (or_empty w.fillvalue) w.arraylen w.array

  -- One array more in each of the blocks is one more item.
  pub items-Grows :
      (n len : ℕ) (vid vid' frame frame' : Block ℤ) (fill fill' : Block V) (d d' : Block V)
      (i : Item V) (xs : List V)
      → Grows n vid vid' i.varid
      → Grows n frame frame' i.record_number
      → Grows n fill fill' i.fill
      → GrowsBy len n d d' xs
      → map some xs ≡ i.elements
      → items (suc n) vid' frame' fill' len d' ≡ items n vid frame fill len d ++ i ∷ []
  items-Grows zero len vid vid' frame frame' fill fill' d d' i xs a b c e f = cc
  items-Grows (suc n) len vid vid' frame frame' fill fill' d d' i xs (a, a') (b, b') (c, c') (e, e')
        f =
      let ih =
        items-Grows n len (drop 1 vid) (drop 1 vid') (drop 1 frame) (drop 1 frame') (drop 1 fill)
          (drop 1 fill') (drop len d) (drop len d') i xs a' b' c' e' f in
      cc
