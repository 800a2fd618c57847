-- ===== src/Darray/Memory.antt =====
-- Blocks of memory that `realloc` resizes and `memcpy` writes; a cell that was not written yet is
-- `none`. They stand for the arrays of a `wmulti_buffer` in src/clib/pio_darray.c.
use parallel_io.Base.{
  ℕ, zero, suc, ◌+◌, ◌≤◌, ◌≡◌, refl, ap, Option, none, some, List, [], ◌∷◌, ◌++◌, map, arith,
  length, take,
}
use mathlib.Core.Option

abbrev pub Block : Type 0 → Type 0
Block A = List (Option A)

module _ {A : Type 0} where
  -- `realloc` to `n` cells.
  abbrev pub resize : ℕ → Block A → Block A
  resize zero b = []
  resize (suc n) [] = none ∷ resize n []
  resize (suc n) (c ∷ b) = c ∷ resize n b

  -- The cells `xs` written over the first ones; `none`: past the end of the block.
  abbrev pub write : Block A → List A → Option (Block A)
  write b [] = some b
  write [] (x ∷ xs) = none
  write (c ∷ b) (x ∷ xs) = Option.map (λ r. some x ∷ r) (write b xs)

  -- The cells `xs` written from the cell `off` on.
  abbrev pub put : Block A → ℕ → List A → Option (Block A)
  put b zero xs = write b xs
  put [] (suc off) xs = none
  put (c ∷ b) (suc off) xs = Option.map (λ r. c ∷ r) (put b off xs)

  write-resize : (xs : List A) (b : Block A) → write (resize (length xs) b) xs ≡ some (map some xs)
  write-resize [] b = refl
  write-resize (x ∷ xs) [] = rw (write-resize xs [])
  write-resize (x ∷ xs) (c ∷ b) = rw (write-resize xs b)

  -- Writing behind the first `m` cells.
  pub put-resize :
      (m : ℕ) (b : Block A) (xs : List A)
      → m ≤ length b
      → put (resize (m + length xs) b) m xs ≡ some (take m b ++ map some xs)
  put-resize zero b xs h =
      let e : 0 + length xs ≡ length xs = omega arith in rw e (write-resize xs b)
  put-resize (suc m) [] xs h = absurd (omega arith)
  put-resize (suc m) (c ∷ b) xs h =
      let e : suc m + length xs ≡ suc (m + length xs) = omega arith in
      rw (e, put-resize m b xs (omega arith)) refl

  pub length-resize : (n : ℕ) (b : Block A) → length (resize n b) ≡ n
  length-resize zero b = refl
  length-resize (suc n) [] = ap suc (length-resize n [])
  length-resize (suc n) (c ∷ b) = ap suc (length-resize n b)

  pub take-resize : (m n : ℕ) (b : Block A) → m ≤ n → m ≤ length b → take m (resize n b) ≡ take m b
  take-resize zero n b h k = refl
  take-resize (suc m) zero b h k = absurd (omega arith)
  take-resize (suc m) (suc n) [] h k = absurd (omega arith)
  take-resize (suc m) (suc n) (c ∷ b) h k = rw (take-resize m n b (omega arith) (omega arith))
