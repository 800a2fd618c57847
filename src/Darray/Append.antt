-- ===== src/Darray/Append.antt =====
-- Lemmas on one write buffer of src/clib/pio_darray.c: an array that is added stands behind those that
-- the buffer holds.
use parallel_io.Base.{
  ℕ, ◌+◌, ◌*◌, ◌≤◌, ◌≡◌, refl, ◌⊎◌, inl, inr, Bool, true, false, not, Option, none, some, List, [],
  ◌∷◌, ◌++◌, map, arith, if◌then◌else◌, length, take, length-append, length-take, length-map,
}
use mathlib.Core.Option
use parallel_io.Base.Int.{ℤ, pos, ltb_ℤ}
use parallel_io.Darray.Memory.{Block, resize, put, put-resize}
use parallel_io.Darray.Buffer.{WmultiBuffer, VarDesc, IoDesc, Surroundings, or_empty}
use parallel_io.Darray.Items.{
  Item, Grows, Grows-empty, Grows-append, GrowsBy, GrowsBy-append, GrowsBy-nothing,
}

-- What the arrays of one buffer have in common: their length, and whether there are record numbers
-- and fill values.
pub record Shape : Type 0 where
  pub len : ℕ
  pub framed : Bool
  pub filled : Bool

-- An array of `num` cells that is there if `there` is true.
module _ {A : Type 0} where
  abbrev pub Sized : Bool → ℕ → Option (Block A) → Type 0
  Sized there num none = (there ≡ false) ⊎ (num ≡ 0)
  Sized there num (some b) = (there ≡ true) × (num ≤ length b)

-- The buffer is of this shape.
pub record IsReady {V : Type 0} (t : Shape) (b : WmultiBuffer V) : Type 0 where
  pub vids : b.num_arrays ≤ length b.vid
  pub frames : Sized t.framed b.num_arrays b.frame
  pub fills : Sized t.filled b.num_arrays b.fillvalue
  pub same_len : (b.num_arrays ≡ 0) ⊎ (b.arraylen ≡ t.len)
  pub room : t.len * b.num_arrays ≤ length b.cells

-- A call is of this shape.
pub record Conforms {V : Type 0} (t : Shape) (iodesc : IoDesc) (vdesc : VarDesc V) (xs : List V)
    : Type 0 where
  pub length : length xs ≡ t.len
  pub framed : t.framed ≡ not (ltb_ℤ vdesc.frame (pos 0))
  pub filled : t.filled ≡ iodesc.needsfill
  pub fill_known : (t.filled ≡ false) ⊎ ((f : V) × (vdesc.fillvalue ≡ some f))

-- Memory is found, but maybe not for the first `realloc` of the data.
pub record HasMemory (env : Surroundings) : Type 0 where
  pub again : env.grows_again ≡ true
  pub vid : env.vid_grows ≡ true
  pub frame : env.frame_grows ≡ true
  pub fill : env.fill_grows ≡ true

module _ {A : Type 0} where
  abbrev pub one_cell : A → List A
  one_cell a = a ∷ []

  -- One cell behind the first `n`.
  pub put_one :
      (n : ℕ) (b : Block A) (a : A)
      → n ≤ length b
      → (put (resize (1 + n) b) n (one_cell a) ≡ some (take n b ++ some a ∷ []))
        × (n + 1 ≤ length (take n b ++ some a ∷ []))
  put_one n b a h =
      let e : 1 + n ≡ n + length (one_cell a) = omega arith in
      (
        rw e (put-resize n b (one_cell a) h),
        omega (arith, length-append (take n b) (some a ∷ []), length-take n b),
      )

  abbrev pub if_there : Bool → A → Option A
  if_there there a = if there then some a else none

  -- The optional array after `realloc`, and after the new cell was written.
  abbrev pub grown : Bool → ℕ → Option (Block A) → Option (Block A)
  grown there n o = if there then some (resize (1 + n) (or_empty o)) else o

  abbrev pub written : ℕ → A → Option (Block A) → Option (Option (Block A))
  written n a none = some none
  written n a (some b) = Option.map some (put b n (one_cell a))

  -- The array after both: one more cell, if the array is there.
  pub record Extends (there : Bool) (n : ℕ) (o : Option (Block A)) (a : A) (o' : Option (Block A))
      : Type 0 where
    pub done : written n a (grown there n o) ≡ some o'
    pub grows : Grows n (or_empty o) (or_empty o') (if_there there a)
    pub sized : Sized there (n + 1) o'

  extend-there :
      (n : ℕ) (b : Block A) (a : A)
      → n ≤ length b
      → (o : Option (Block A)) → or_empty o ≡ b
      → Extends true n o a (some (take n b ++ some a ∷ []))
  extend-there n b a h o e =
      let (p, q) = put_one n b a h in
      record { done = rw (e, p) refl; grows = rw e (Grows-append n b a h); sized = (refl, q) }

  pub extend :
      (there : Bool) (n : ℕ) (o : Option (Block A)) (a : A)
      → Sized there n o
      → (o' : Option (Block A)) × Extends there n o a o'
  extend true n none a (inl e) = cc
  extend true n none a (inr e) = (_, extend-there n [] a (omega arith) none refl)
  extend true n (some b) a (e, h) = (_, extend-there n b a h (some b) refl)
  extend false n none a h =
      (none, record { done = refl; grows = Grows-empty A n; sized = inl refl })
  extend false n (some b) a (e, h) = cc

  -- The data after `memcpy`, where the block before the first `realloc` was `d`.
  pub record Fills (n : ℕ) (d : Block A) (xs : List A) (c d' : Block A) : Type 0 where
    pub done : put c (length xs * n) xs ≡ some d'
    pub grows : GrowsBy (length xs) n d d' xs
    pub room : length xs * (n + 1) ≤ length d'

  pub fill_grown :
      (n : ℕ) (d : Block A) (xs : List A)
      → length xs * n ≤ length d
      → (d' : Block A) × Fills n d xs (resize ((1 + n) * length xs) d) d'
  fill_grown n d xs h =
      let e : (1 + n) * length xs ≡ length xs * n + length xs = grind arith in
      let old = take (length xs * n) d in
      (
        old ++ map some xs,
        record {
          done = rw e (put-resize (length xs * n) d xs h);
          grows = GrowsBy-append n d xs h;
          room = grind (
            arith,
            length-append old (map some xs),
            length-take (length xs * n) d,
            length-map xs (λ (x : A). some x),
          );
        },
      )

  pub fill_nothing :
      (n : ℕ) (d : Block A) (xs : List A) → length xs ≡ 0 → (d' : Block A) × Fills n d xs d d'
  fill_nothing n d [] e =
      let z : 0 * n ≡ 0 = omega arith in
      let z' : 0 * (n + 1) ≡ 0 = omega arith in
      (d, record { done = rw z refl; grows = GrowsBy-nothing n d; room = omega arith })
  fill_nothing n d (x ∷ xs) e = cc

-- The array that a call adds.
abbrev pub new_item : {V : Type 0} → Shape → VarDesc V → ℤ → List V → Item V
new_item t vdesc varid xs = record {
  varid = some varid;
  record_number = if t.framed then some vdesc.frame else none;
  fill = if t.filled then vdesc.fillvalue else none;
  elements = map some xs;
}
