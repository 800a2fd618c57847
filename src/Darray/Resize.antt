-- ===== src/Darray/Resize.antt =====
-- `realloc` of the data of a write buffer, and the arrays of several calls.
use parallel_io.Base.{
  ℕ, zero, suc, ◌+◌, ◌*◌, ◌≤◌, ◌≡◌, refl, List, [], ◌∷◌, ◌++◌, arith, length, drop, length-drop,
}
use parallel_io.Base.Int.{ℤ}
use parallel_io.Darray.Memory.{Block, resize, take-resize}
use parallel_io.Darray.Buffer.{MultiWrite}
use parallel_io.Darray.Items.{Item, items, handed}

module _ {V : Type 0} where
  pub drop-resize :
      (k m : ℕ) (d : Block V) → k ≤ length d → drop k (resize (k + m) d) ≡ resize m (drop k d)
  drop-resize zero m d h = let e : 0 + m ≡ m = omega arith in rw e refl
  drop-resize (suc k) m [] h = absurd (omega arith)
  drop-resize (suc k) m (x ∷ d) h =
      let e : suc k + m ≡ suc (k + m) = omega arith in rw e (drop-resize k m d (omega arith))

  -- `realloc` keeps what the arrays hold.
  pub items-resize :
      (n len m : ℕ) (vid frame : Block ℤ) (fill d : Block V)
      → len * n ≤ length d
      → items n vid frame fill len (resize (len * n + m) d) ≡ items n vid frame fill len d
  items-resize zero len m vid frame fill d h = refl
  items-resize (suc n) len m vid frame fill d h =
      let e : len * suc n + m ≡ len + (len * n + m) = grind arith in
      let h' : len + len * n ≤ length d = grind arith in
      let p = take-resize len (len + (len * n + m)) d (omega arith) (omega arith) in
      let q = drop-resize len (len * n + m) d (omega arith) in
      let ih =
        items-resize n len m (drop 1 vid) (drop 1 frame) (drop 1 fill) (drop len d)
          (omega (arith, length-drop len d)) in
      rw (e, p, q, ih) refl

  -- The arrays of all calls, in their order.
  abbrev pub all_handed : List (ℤ × MultiWrite V) → List (Item V)
  all_handed [] = []
  all_handed ((k, w) ∷ calls) = handed w ++ all_handed calls
