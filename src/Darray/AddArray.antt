-- ===== src/Darray/AddArray.antt =====
-- The steps of `add_array`, the end of `PIOc_write_darray` in src/clib/pio_darray.c, on a buffer that has
-- the shape of the call.
use parallel_io.Base.{
  ℕ, suc, ◌+◌, ◌*◌, ◌≤◌, ◌≡◌, refl, ◌⊎◌, inl, inr, Bool, true, false, ◌&&◌, not, Option, none, some,
  List, [], ◌∷◌, ◌++◌, arith, ltb, if◌then◌else◌, Bool-cases, Option-cases, length, take,
}
use parallel_io.Base.Int.{ℤ, pos, ltb_ℤ}
use parallel_io.Base.Error.{Result, ok}
use parallel_io.Darray.Memory.{Block, resize, put}
use parallel_io.Darray.Buffer.{
  WmultiBuffer, VarDesc, IoDesc, Surroundings, Step, ◌>>◌, or_empty, grow_again, grow_vid,
  grow_frame, add_fill, add_data, add_frame, add_array,
}
use parallel_io.Darray.Items.{Grows, Grows-empty, Grows-append, items, held, items-Grows}
use parallel_io.Darray.Append.{
  Shape, Sized, IsReady, Conforms, HasMemory, put_one, grown, written, extend, Fills, new_item,
}

module _ {V : Type 0} (env : Surroundings) (m : HasMemory env) (w : WmultiBuffer V) where
  abbrev pub cells_again : ℕ → ℕ → Block V
  cells_again len need =
      if ltb 0 len && ltb 0 need then resize ((1 + w.num_arrays) * len) w.cells else w.cells

  grow_again_lem :
      (len need : ℕ)
      → grow_again env len need w ≡ some (record w { cells = cells_again len need }, ok tt)
  unfolding grow_again
  grow_again_lem len need = elim (Bool-cases (ltb 0 len && ltb 0 need)) [
    | inl e ↦ rw (e, m.again) refl
    | inr e ↦ rw e refl
  ]

  grow_vid_lem : grow_vid env w ≡ some (record w { vid = resize (1 + w.num_arrays) w.vid }, ok tt)
  unfolding grow_vid
  grow_vid_lem = rw m.vid refl

  grow_frame_lem :
      (frame : ℤ)
      → grow_frame env frame w
        ≡ some (record w { frame = grown (not (ltb_ℤ frame (pos 0))) w.num_arrays w.frame }, ok tt)
  unfolding grow_frame
  grow_frame_lem frame = elim (Bool-cases (ltb_ℤ frame (pos 0))) [
    | inl e ↦ rw e refl
    | inr e ↦ rw (e, m.frame) refl
  ]

  -- The fill values after the step: one more, if the shape has them.
  record Filled (there : Bool) (fillvalue : Option V) (o' : Option (Block V)) : Type 0 where
    done :
        (u : WmultiBuffer V)
        → u.num_arrays ≡ w.num_arrays
        → u.fillvalue ≡ w.fillvalue
        → add_fill env there fillvalue u ≡ some (record u { fillvalue = o' }, ok tt)
    grows :
        Grows w.num_arrays (or_empty w.fillvalue) (or_empty o') (if there then fillvalue else none)
    sized : Sized there (w.num_arrays + 1) o'

  add_fill_lem :
      (filled : Bool) (fillvalue : Option V)
      → (filled ≡ false) ⊎ ((f : V) × (fillvalue ≡ some f))
      → Sized filled w.num_arrays w.fillvalue
      → (o' : Option (Block V)) × Filled filled fillvalue o'
  unfolding add_fill
  add_fill_lem true fillvalue (inl k) s = cc
  add_fill_lem true fillvalue (inr (f, k)) s =
      let (o', e) = extend true w.num_arrays w.fillvalue f s in
      let h = m.fill in
      let d = e.done in
      (o', record { done = λ u n c. ground arith; grows = rw k e.grows; sized = e.sized })
  add_fill_lem false fillvalue k s = elim (Option-cases w.fillvalue) [
    | inl g ↦ (
      none,
      record {
        done = λ u n c. ground arith;
        grows = rw g (Grows-empty V w.num_arrays);
        sized = inl refl;
      },
    )
    | inr (b, g) ↦ absurd (ground arith)
  ]

  add_data_lem :
      (varid : ℤ) (xs : List V) (vid : Block ℤ) (cells : Block V)
      → put w.vid w.num_arrays (varid ∷ []) ≡ some vid
      → put w.cells (length xs * w.num_arrays) xs ≡ some cells
      → add_data varid xs w
        ≡ some (record w { arraylen = length xs; vid = vid; cells = cells }, ok tt)
  unfolding add_data
  add_data_lem varid xs vid cells e f = ground arith

  add_frame_lem :
      (frame : ℤ) (o' : Option (Block ℤ))
      → written w.num_arrays frame w.frame ≡ some o'
      → add_frame frame w ≡ some (record w { num_arrays = w.num_arrays + 1; frame = o' }, ok tt)
  unfolding add_frame
  add_frame_lem frame o' e = elim (Option-cases w.frame) [
    | inl g ↦ ground arith
    | inr (b, g) ↦ ground arith
  ]

>>-ok :
    {V : Type 0} (m k : Step V) (w : WmultiBuffer V) {w' : WmultiBuffer V}
    {r : Option (WmultiBuffer V × Result (Unit {0}))}
    → m w ≡ some (w', ok tt)
    → k w' ≡ r
    → (m >> k) w ≡ r
>>-ok m k w e f = rw (e, ◌>>◌) f

module _ {V : Type 0} (env : Surroundings) (m : HasMemory env) (t : Shape) (iodesc : IoDesc)
    (vdesc : VarDesc V) (varid : ℤ) (xs : List V) (k : Conforms t iodesc vdesc xs) where
  -- The buffer `w` takes one array more: its data are those of `d`, and then `xs`.
  pub record Takes (w : WmultiBuffer V) (d : Block V) (w' : WmultiBuffer V) : Type 0 where
    pub arrays :
        held w'
        ≡ items w.num_arrays w.vid (or_empty w.frame) (or_empty w.fillvalue) (length xs) d
          ++ new_item t vdesc varid xs ∷ []
    pub ready : IsReady t w'
    pub htid : w'.htid ≡ w.htid
    pub ioid : w'.ioid ≡ w.ioid

  abbrev after : WmultiBuffer V → Block V → Option (Block ℤ) → Option (Block V) → WmultiBuffer V
  after w d' frame fill = record w {
    arraylen = length xs;
    num_arrays = w.num_arrays + 1;
    vid = take w.num_arrays w.vid ++ some varid ∷ [];
    cells = d';
    frame = frame;
    fillvalue = fill;
  }

  add_array-after :
      (need : ℕ) (w : WmultiBuffer V) (d' : Block V) (frame : Option (Block ℤ))
      (fill : Option (Block V))
      → w.num_arrays ≤ length w.vid
      → written w.num_arrays vdesc.frame (grown t.framed w.num_arrays w.frame) ≡ some frame
      → ((u : WmultiBuffer V)
          → u.num_arrays ≡ w.num_arrays
          → u.fillvalue ≡ w.fillvalue
          → add_fill env t.filled vdesc.fillvalue u ≡ some (record u { fillvalue = fill }, ok tt))
      → put (cells_again env m w (length xs) need) (length xs * w.num_arrays) xs ≡ some d'
      → add_array env iodesc vdesc varid xs need w ≡ some (after w d' frame fill, ok tt)
  unfolding add_array
  add_array-after need w d' frame fill v a b e =
      let w1 = record w { cells = cells_again env m w (length xs) need } in
      let w2 = record w1 { vid = resize (1 + w.num_arrays) w.vid } in
      let w3 = record w2 { frame = grown t.framed w.num_arrays w.frame } in
      let w4 = record w3 { fillvalue = fill } in
      let w5 = record w4 {
        arraylen = length xs;
        vid = take w.num_arrays w.vid ++ some varid ∷ [];
        cells = d';
      } in
      let (p, q) = put_one w.num_arrays w.vid varid v in
      let framed : grow_frame env vdesc.frame w2 ≡ some (w3, ok tt) =
        rw k.framed (grow_frame_lem env m w2 vdesc.frame) in
      let filled : add_fill env iodesc.needsfill vdesc.fillvalue w3 ≡ some (w4, ok tt) =
        rw (← k.filled) (b w3 refl refl) in
      let g1 : Step V = grow_again env (length xs) need in
      let g2 : Step V = g1 >> grow_vid env in
      let g3 : Step V = g2 >> grow_frame env vdesc.frame in
      let g4 : Step V = g3 >> add_fill env iodesc.needsfill vdesc.fillvalue in
      let g5 : Step V = g4 >> add_data varid xs in
      let s1 =
        >>-ok g1 (grow_vid env) w (grow_again_lem env m w (length xs) need)
          (grow_vid_lem env m w1) in
      let s2 = >>-ok g2 (grow_frame env vdesc.frame) w s1 framed in
      let s3 = >>-ok g3 (add_fill env iodesc.needsfill vdesc.fillvalue) w s2 filled in
      let s4 = >>-ok g4 (add_data varid xs) w s3 (add_data_lem env m w4 varid xs _ d' p e) in
      >>-ok g5 (add_frame vdesc.frame) w s4 (add_frame_lem env m w5 vdesc.frame frame a)

  -- `add_array` on a buffer of the call's shape, whose data can be filled.
  pub add_array-Takes :
      (need : ℕ) (w : WmultiBuffer V) (d d' : Block V)
      → w.num_arrays ≤ length w.vid
      → Sized t.framed w.num_arrays w.frame
      → Sized t.filled w.num_arrays w.fillvalue
      → Fills w.num_arrays d xs (cells_again env m w (length xs) need) d'
      → (w' : WmultiBuffer V) × (add_array env iodesc vdesc varid xs need w ≡ some (w', ok tt))
        × Takes w d w'
  add_array-Takes need w d d' v a b g =
      let (frame, ef) = extend t.framed w.num_arrays w.frame vdesc.frame a in
      let (p, q) = put_one w.num_arrays w.vid varid v in
      let next : w.num_arrays + 1 ≡ suc w.num_arrays = omega arith in
      let (fill, h) = add_fill_lem env m w t.filled vdesc.fillvalue k.fill_known b in
      (
        after w d' frame fill,
        add_array-after need w d' frame fill v ef.done h.done g.done,
        record {
          arrays = rw next (
              items-Grows w.num_arrays (length xs) w.vid _ (or_empty w.frame) _
                (or_empty w.fillvalue) _ d d' (new_item t vdesc varid xs) xs
                (Grows-append w.num_arrays w.vid varid v) ef.grows h.grows g.grows refl);
          ready = record {
            vids = q;
            frames = ef.sized;
            fills = h.sized;
            same_len = inr k.length;
            room = rw (← k.length) g.room;
          };
          htid = refl;
          ioid = refl;
        },
      )
