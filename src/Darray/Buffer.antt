-- ===== src/Darray/Buffer.antt =====
-- One write buffer, a `wmulti_buffer`: `flush_buffer` of src/clib/pio_darray_int.c, and the part of
-- `PIOc_write_darray` in src/clib/pio_darray.c that works on the buffer. Memory is counted in elements.
use parallel_io.Base.{
  ℕ, ◌+◌, ◌*◌, max, Bool, false, ◌&&◌, not, Option, none, some, List, [], ◌∷◌, ltb, ◌==◌,
  if◌then◌else◌, length,
}
use mathlib.Core.Option
use parallel_io.Base.Error.{Error, Result, ok, err, ebadid, enomem}
use parallel_io.Base.Int.{ℤ, pos, ltb_ℤ}
use parallel_io.Darray.Memory.{resize, put}
pub use parallel_io.Darray.Structs.{
  WmultiBuffer, VarDesc, IoDesc, MultiWrite, Surroundings, int_max, or_empty, Step, ◌>>◌,
  multi_write,
}

module _ {V : Type 0} where
  -- `flush_buffer`, for a file that is open: the emptied buffer, the calls, and the return code.
  unfoldable pub flush_buffer :
      (MultiWrite V → Option Error)
      → WmultiBuffer V
      → Bool
      → WmultiBuffer V × List (ℤ × MultiWrite V) × Result (Unit {0})
  flush_buffer multi wmb flushtodisk =
      if ltb 0 wmb.num_arrays
      then (
        record wmb { num_arrays = 0; vid = []; cells = []; fillvalue = none; frame = none },
        (wmb.htid, multi_write wmb flushtodisk) ∷ [],
        (elim (multi (multi_write wmb flushtodisk)) [ none ↦ ok tt | some e ↦ err e ]),
      )
      else (wmb, [], ok tt)

  -- "Set pointer to newly allocated buffer and initialize."
  unfoldable pub new_buffer : ℤ → ℤ → ℕ → ℤ → WmultiBuffer V
  new_buffer ioid recordvar arraylen hashid = record {
    ioid = ioid;
    recordvar = recordvar;
    num_arrays = 0;
    arraylen = arraylen;
    vid = [];
    frame = none;
    fillvalue = none;
    cells = [];
    htid = hashid;
  }

  -- "Try realloc first": the buffer, and `needsflush` of it.
  unfoldable pub grow_data : Surroundings → WmultiBuffer V → ℕ → WmultiBuffer V × ℕ
  grow_data env wmb arraylen =
      if ltb 0 arraylen
      then (if env.grows
          then (record wmb { cells = resize ((1 + wmb.num_arrays) * arraylen) wmb.cells }, 0)
          else (wmb, 1))
      else (wmb, 0)

  -- `needsflush` after the size limit and MPI_Allreduce.
  unfoldable pub needs_flush : Surroundings → IoDesc → WmultiBuffer V → ℕ → ℕ
  needs_flush env iodesc wmb needsflush =
      max
        (if ltb int_max ((1 + wmb.num_arrays) * iodesc.maxiobuflen * iodesc.mpitype_size)
          then 2
          else needsflush)
        env.others

  -- "Try realloc again if there is a flush."
  unfoldable pub grow_again : Surroundings → ℕ → ℕ → Step V
  grow_again env arraylen needsflush wmb =
      if ltb 0 arraylen && ltb 0 needsflush
      then (if env.grows_again
          then some
              (record wmb { cells = resize ((1 + wmb.num_arrays) * arraylen) wmb.cells }, ok tt)
          else some (record wmb { cells = [] }, err enomem))
      else some (wmb, ok tt)

  unfoldable pub grow_vid : Surroundings → Step V
  grow_vid env wmb =
      if env.vid_grows
      then some (record wmb { vid = resize (1 + wmb.num_arrays) wmb.vid }, ok tt)
      else some (record wmb { vid = [] }, err enomem)

  unfoldable pub grow_frame : Surroundings → ℤ → Step V
  grow_frame env frame wmb =
      if ltb_ℤ frame (pos 0)
      then some (wmb, ok tt)
      else if env.frame_grows
      then some
          (record wmb { frame = some (resize (1 + wmb.num_arrays) (or_empty wmb.frame)) }, ok tt)
      else some (record wmb { frame = none }, err enomem)

  -- "If we need a fill value, get it." A variable that has none is read through NULL.
  unfoldable pub add_fill : Surroundings → Bool → Option V → Step V
  add_fill env needsfill fillvalue wmb =
      if needsfill
      then (if env.fill_grows
          then (elim fillvalue [
            | none ↦ none
            | some f ↦
                Option.map (λ b. (record wmb { fillvalue = some b }, ok tt))
                  (put (resize (1 + wmb.num_arrays) (or_empty wmb.fillvalue)) wmb.num_arrays
                    (f ∷ []))
          ])
          else some (record wmb { fillvalue = none }, err enomem))
      else some (wmb, ok tt)

  -- "Tell the buffer about the data it is getting", and the copy of the data.
  unfoldable pub add_data : ℤ → List V → Step V
  add_data varid array wmb = elim (put wmb.vid wmb.num_arrays (varid ∷ [])) [
    | none ↦ none
    | some vid ↦ elim (put wmb.cells (length array * wmb.num_arrays) array) [
      | none ↦ none
      | some cells ↦ some (record wmb { arraylen = length array; vid = vid; cells = cells }, ok tt)
    ]
  ]

  -- The record number, and the count of the arrays.
  unfoldable pub add_frame : ℤ → Step V
  add_frame frame wmb =
      let one_more = record wmb { num_arrays = wmb.num_arrays + 1 } in
      elim wmb.frame [
        | none ↦ some (one_more, ok tt)
        | some b ↦
            Option.map (λ b'. (record one_more { frame = some b' }, ok tt))
              (put b wmb.num_arrays (frame ∷ []))
      ]

  -- From the second `realloc` to the end of PIOc_write_darray.
  unfoldable pub add_array : Surroundings → IoDesc → VarDesc V → ℤ → List V → ℕ → Step V
  add_array env iodesc vdesc varid array needsflush =
      grow_again env (length array) needsflush
      >> grow_vid env
      >> grow_frame env vdesc.frame
      >> add_fill env iodesc.needsfill vdesc.fillvalue
      >> add_data varid array
      >> add_frame vdesc.frame

  -- What follows the flush: its error code, or the new array.
  unfoldable pub after_flush :
      Surroundings
      → IoDesc
      → VarDesc V
      → ℤ
      → List V
      → ℕ
      → WmultiBuffer V × List (ℤ × MultiWrite V) × Result (Unit {0})
      → Option (WmultiBuffer V × List (ℤ × MultiWrite V) × Result (Unit {0}))
  after_flush env iodesc vdesc varid array needsflush (flushed, calls, err e) =
      some (flushed, calls, err e)
  after_flush env iodesc vdesc varid array needsflush (flushed, calls, ok u) =
      Option.map (λ r. (r.0, calls, r.1))
        (add_array env iodesc vdesc varid array needsflush flushed)

  -- From the first `realloc` on: the buffer, the calls made, and the return code.
  unfoldable pub fill_buffer :
      (MultiWrite V → Option Error)
      → Surroundings
      → IoDesc
      → VarDesc V
      → ℤ
      → List V
      → WmultiBuffer V
      → Option (WmultiBuffer V × List (ℤ × MultiWrite V) × Result (Unit {0}))
  fill_buffer multi env iodesc vdesc varid array wmb =
      let (grown, needsflush) = grow_data env wmb (length array) in
      let all_need = needs_flush env iodesc grown needsflush in
      after_flush env iodesc vdesc varid array all_need
        (if ltb 0 all_need then flush_buffer multi grown (all_need == 2) else (grown, [], ok tt))

  -- "If we don't know the fill value for this var, get it": `find_var_fillvalue` gives the value and
  -- `use_fill`, or fails and leaves the variable as it was.
  unfoldable pub known_fill : Option (V × Bool) → Bool → VarDesc V → Result (VarDesc V)
  known_fill found gdal vdesc = elim vdesc.fillvalue [
    | some f ↦ ok vdesc
    | none ↦ if gdal then ok vdesc else (elim found [
      | none ↦ err ebadid
      | some (f, use_fill) ↦ ok (record vdesc { fillvalue = some f; use_fill = use_fill })
    ])
  ]

  -- The check of the user's fill value; `same` is `memcmp` on one element.
  unfoldable pub fill_refused : (V → V → Bool) → Option V → VarDesc V → Bool
  fill_refused same none vdesc = false
  fill_refused same (some f) vdesc = elim vdesc.fillvalue [
    | none ↦ false
    | some g ↦ vdesc.use_fill && not (same f g)
  ]
