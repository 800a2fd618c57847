-- ===== src/Darray/FillBuffer.antt =====
-- The work of `PIOc_write_darray`, src/clib/pio_darray.c, on one buffer: the first `realloc`, the flush and
-- the new array.
use parallel_io.Base.{
  ℕ, ◌+◌, ◌*◌, ◌≤◌, ◌<◌, ◌≡◌, refl, sym, ap, ◌∙◌, ◌⊎◌, inl, inr, false, ◌&&◌, Option, none, some,
  List, [], ◌∷◌, ◌++◌, arith, ltb, ◌==◌, if◌then◌else◌, Bool-cases, length, lt→ltb, dec_lt,
}
use mathlib.Core.List.{append-nil, append_assoc}
use parallel_io.Base.Int.{ℤ}
use parallel_io.Base.Error.{Error, Result, ok}
use parallel_io.Darray.Memory.{Block, resize}
use parallel_io.Darray.Buffer.{
  WmultiBuffer, VarDesc, IoDesc, MultiWrite, Surroundings, or_empty, multi_write, flush_buffer,
  grow_data, needs_flush, after_flush, fill_buffer,
}
use parallel_io.Darray.Items.{Item, items, held}
use parallel_io.Darray.Append.{
  Shape, Sized, IsReady, Conforms, HasMemory, Fills, fill_grown, fill_nothing, new_item,
}
use parallel_io.Darray.AddArray.{cells_again, add_array-Takes}
pub use parallel_io.Darray.Resize.{all_handed}
use parallel_io.Darray.Resize.{items-resize}

module _ {V : Type 0} (multi : MultiWrite V → Option Error)
    (never : (w : MultiWrite V) → multi w ≡ none) (env : Surroundings) (m : HasMemory env)
    (t : Shape) (iodesc : IoDesc) (vdesc : VarDesc V) (varid : ℤ) (xs : List V)
    (k : Conforms t iodesc vdesc xs) (b : WmultiBuffer V) (ready : IsReady t b) where
  abbrev held_by : WmultiBuffer V → Block V → List (Item V)
  held_by w d = items w.num_arrays w.vid (or_empty w.frame) (or_empty w.fillvalue) (length xs) d

  -- The data after the first `realloc`.
  record IsGrown (c : Block V) (need : ℕ) : Type 0 where
    same : held_by b c ≡ held_by b b.cells
    filled : (need ≡ 0) → (d' : Block V) × Fills b.num_arrays b.cells xs c d'

  -- The buffer that takes the new array, after a flush or without one.
  record Prepared (need : ℕ) (calls : List (ℤ × MultiWrite V)) (w : WmultiBuffer V) : Type 0 where
    d : Block V
    d' : Block V
    fills : Fills w.num_arrays d xs (cells_again env m w (length xs) need) d'
    vids : w.num_arrays ≤ length w.vid
    frames : Sized t.framed w.num_arrays w.frame
    values : Sized t.filled w.num_arrays w.fillvalue
    kept : all_handed calls ++ held_by w d ≡ held b
    htid : w.htid ≡ b.htid
    keys : (calls ≡ []) ⊎ ((c : MultiWrite V) × (calls ≡ (b.htid, c) ∷ []))

  same_as_held : held_by b b.cells ≡ held b
  same_as_held = elim ready.same_len [ inl z ↦ rw z refl | inr e ↦ rw (e, k.length) refl ]

  abbrev flushed : ℕ → WmultiBuffer V → WmultiBuffer V × List (ℤ × MultiWrite V) × Result (Unit {0})
  flushed need w = if ltb 0 need then flush_buffer multi w (need == 2) else (w, [], ok tt)

  -- Without data there is nothing to flush.
  refill :
      (need : ℕ) (w : WmultiBuffer V)
      → 0 < need
      → (d' : Block V) × Fills 0 w.cells xs
          (if ltb 0 (length xs) && ltb 0 need
            then resize ((1 + 0) * length xs) w.cells
            else w.cells)
          d'
  refill need w h = elim (Bool-cases (ltb 0 (length xs))) [
    | inl e ↦ let q = lt→ltb 0 need h in rw (e, q) (fill_grown 0 w.cells xs (grind arith))
    | inr e ↦ rw e (fill_nothing 0 w.cells xs (ground arith))
  ]

  refill_again :
      (need : ℕ) (w : WmultiBuffer V)
      → 0 < need
      → w.num_arrays ≡ 0
      → (d' : Block V) × Fills w.num_arrays w.cells xs (cells_again env m w (length xs) need) d'
  refill_again need w h z = rw z (refill need w h)

  prepare_kept :
      (c : Block V) (need : ℕ)
      → IsGrown c need
      → need ≡ 0
      → (flushed need (record b { cells = c }) ≡ (record b { cells = c }, [], ok tt))
        × Prepared need [] (record b { cells = c })
  prepare_kept c need g z =
      let (d', f) = g.filled z in
      let e : (ltb 0 (length xs) && ltb 0 need) ≡ false = ground arith in
      (
        rw z refl,
        record {
          d = b.cells;
          d' = d';
          fills = rw e f;
          vids = ready.vids;
          frames = ready.frames;
          values = ready.fills;
          kept = same_as_held;
          htid = refl;
          keys = inl refl;
        },
      )

  prepare_empty :
      (c : Block V) (need : ℕ)
      → 0 < need
      → b.num_arrays ≡ 0
      → (flushed need (record b { cells = c }) ≡ (record b { cells = c }, [], ok tt))
        × Prepared need [] (record b { cells = c })
  unfolding flush_buffer
  prepare_empty c need h z =
      let (d', f) = refill_again need (record b { cells = c }) h z in
      (
        rw (lt→ltb 0 need h, z) refl,
        record {
          d = c;
          d' = d';
          fills = f;
          vids = ready.vids;
          frames = ready.frames;
          values = ready.fills;
          kept = rw z refl;
          htid = refl;
          keys = inl refl;
        },
      )

  abbrev emptied : Block V → WmultiBuffer V
  emptied c = record b { num_arrays = 0; vid = []; cells = []; fillvalue = none; frame = none }

  abbrev flushed_call : Block V → ℕ → List (ℤ × MultiWrite V)
  flushed_call c need = (b.htid, multi_write (record b { cells = c }) (need == 2)) ∷ []

  prepare_flushed :
      (c : Block V) (need : ℕ)
      → IsGrown c need
      → 0 < need
      → 0 < b.num_arrays
      → (flushed need (record b { cells = c }) ≡ (emptied c, flushed_call c need, ok tt))
        × Prepared need (flushed_call c need) (emptied c)
  unfolding flush_buffer
  prepare_flushed c need g h n =
      let (d', f) = refill_again need (emptied c) h refl in
      let len : b.arraylen ≡ length xs = elim ready.same_len [
        | inl z ↦ absurd (omega arith)
        | inr e ↦ rw (e, k.length) refl
      ] in
      let same_len_held : held (record b { cells = c }) ≡ held b =
        ap (λ (l : ℕ). items b.num_arrays b.vid (or_empty b.frame) (or_empty b.fillvalue) l c) len
        ∙ g.same
        ∙ same_as_held in
      (
        rw (lt→ltb 0 need h, lt→ltb 0 b.num_arrays n, never) refl,
        record {
          d = [];
          d' = d';
          fills = f;
          vids = omega arith;
          frames = inr refl;
          values = inr refl;
          kept = append-nil _ ∙ append-nil _ ∙ same_len_held;
          htid = refl;
          keys = inr (_, refl);
        },
      )

  prepare :
      (c : Block V) (need : ℕ)
      → IsGrown c need
      → (calls : List (ℤ × MultiWrite V)) × (w : WmultiBuffer V) × (flushed need
            (record b { cells = c })
          ≡ (w, calls, ok tt))
        × Prepared need calls w
  prepare c need g = elim (dec_lt 0 need) [
    | no p ↦ let (e, r) = prepare_kept c need g (omega arith) in (_, _, e, r)
    | yes p ↦ elim (dec_lt 0 b.num_arrays) [
      | no q ↦ let (e, r) = prepare_empty c need p (omega arith) in (_, _, e, r)
      | yes q ↦ let (e, r) = prepare_flushed c need g p q in (_, _, e, r)
    ]
  ]

  room : length xs * b.num_arrays ≤ length b.cells
  room = rw k.length ready.room

  -- `realloc` found memory, failed, or was not called.
  IsGrown-resize : (need : ℕ) → IsGrown (resize ((1 + b.num_arrays) * length xs) b.cells) need
  IsGrown-resize need =
      let e : (1 + b.num_arrays) * length xs ≡ length xs * b.num_arrays + length xs = grind arith in
      record {
        same = rw e (
            items-resize b.num_arrays (length xs) (length xs) b.vid (or_empty b.frame)
              (or_empty b.fillvalue) b.cells room);
        filled = λ z. fill_grown b.num_arrays b.cells xs room;
      }

  IsGrown-failed : (need : ℕ) → 0 < need → IsGrown b.cells need
  IsGrown-failed need h = record { same = refl; filled = λ z. absurd (omega arith) }

  IsGrown-none : (need : ℕ) → length xs ≡ 0 → IsGrown b.cells need
  IsGrown-none need z = record { same = refl; filled = λ y. fill_nothing b.num_arrays b.cells xs z }

  abbrev resized : WmultiBuffer V × ℕ
  resized = grow_data env b (length xs)

  abbrev the_need : ℕ
  the_need = needs_flush env iodesc resized.0 resized.1

  resized-IsGrown : (c : Block V) × (resized.0 ≡ record b { cells = c }) × IsGrown c the_need
  unfolding grow_data needs_flush
  resized-IsGrown = elim (Bool-cases (ltb 0 (length xs))) [
    | inr e ↦ (b.cells, rw e refl, IsGrown-none _ (ground arith))
    | inl e ↦ elim (Bool-cases env.grows) [
      | inl g ↦ (resize ((1 + b.num_arrays) * length xs) b.cells, rw (e, g) refl, IsGrown-resize _)
      | inr g ↦ (b.cells, rw (e, g) refl, IsGrown-failed _ (ground arith))
    ]
  ]

  -- The buffer takes the new array; what it held before is handed over in one call, or still held.
  pub record Extended (b' : WmultiBuffer V) (calls : List (ℤ × MultiWrite V)) : Type 0 where
    pub arrays : all_handed calls ++ held b' ≡ held b ++ new_item t vdesc varid xs ∷ []
    pub still_ready : IsReady t b'
    pub htid : b'.htid ≡ b.htid
    pub keys : (calls ≡ []) ⊎ ((c : MultiWrite V) × (calls ≡ (b.htid, c) ∷ []))

  pub fill_buffer-Extended :
      (b' : WmultiBuffer V) × (calls : List (ℤ × MultiWrite V)) × (fill_buffer multi env iodesc
          vdesc varid xs b
        ≡ some (b', calls, ok tt))
      × Extended b' calls
  unfolding fill_buffer after_flush
  fill_buffer-Extended =
      let (c, e, g) = resized-IsGrown in
      let (calls, w, f, p) = prepare c the_need g in
      let f' : flushed the_need resized.0 ≡ (w, calls, ok tt) =
        ap (λ (u : WmultiBuffer V). flushed the_need u) e ∙ f in
      let (w', a, x) =
        add_array-Takes env m t iodesc vdesc varid xs k the_need w p.d p.d' p.vids p.frames p.values
          p.fills in
      let eq : fill_buffer multi env iodesc vdesc varid xs b ≡ some (w', calls, ok tt) =
        ap (after_flush env iodesc vdesc varid xs the_need) f' ∙ rw (a, after_flush) refl in
      (
        w',
        calls,
        eq,
        record {
          arrays =
              ap (λ (l : List (Item V)). all_handed calls ++ l) x.arrays
              ∙ sym
                  (append_assoc (all_handed calls) (held_by w p.d) (new_item t vdesc varid xs ∷ []))
              ∙ ap (λ (l : List (Item V)). l ++ new_item t vdesc varid xs ∷ []) p.kept;
          still_ready = x.ready;
          htid = x.htid ∙ p.htid;
          keys = p.keys;
        },
      )
