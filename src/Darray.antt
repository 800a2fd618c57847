-- ===== src/Darray.antt =====
-- The write buffers of a file, src/clib/pio_darray.c: `PIOc_write_darray`, and the loop of `PIOc_sync`
-- (src/clib/pio_file.c) that empties the buffers, on one compute task. The netCDF inquiries,
-- PIOc_write_darray_multi and the other tasks come in as arguments.
pub mod Memory
pub mod Structs
pub mod Buffer
pub mod Items
pub mod Append
pub mod AddArray
pub mod Resize
pub mod FillBuffer
pub mod History
pub mod Write
pub mod Sync
pub mod Runs
use parallel_io.Base.{
  ℕ, zero, suc, ◌+◌, ◌-◌, ◌*◌, ◌/◌, ◌%◌, ◌^◌, ◌≤◌, ◌<◌, min, max, ◌≡◌, refl, sym, ap, subst, ◌∙◌,
  ◌≢◌, ◌↔◌, ◌⊎◌, inl, inr, Bool, true, false, ◌&&◌, ◌||◌, not, Option, none, some, List, [], ◌∷◌,
  ◌++◌, map, arith, ltb, leb, ◌==◌, if◌then◌else◌, Bool-cases, Option-cases, length, get_elem?, set,
  get_or, take, drop, replicate, length-append,
}
use mathlib.Core.Option
use parallel_io.Base.Error.{Error, Result, ok, err, ebadid, einval, enomem, enotvar, eperm}
use parallel_io.Base.Heap.{Heap, update, free}
use parallel_io.Base.Int.{ℤ, pos, ◌+ℤ◌, ◌*ℤ◌, ◌==ℤ◌}
use parallel_io.Registry.Hash.{HashTable}
use Buffer.{
  WmultiBuffer, VarDesc, IoDesc, MultiWrite, Surroundings, flush_buffer, new_buffer, fill_buffer,
  known_fill, fill_refused,
}

-- The file with its buffers and variables, and the calls so far, each with the key of its buffer.
pub record FileState (hash : HashTable) (V : Type 0) : Type 0 where
  pub writable : Bool
  pub gdal : Bool
  pub buffers : Heap (WmultiBuffer V)
  pub buffer : hash.Table
  pub vars : ℤ → Option (VarDesc V)
  pub writes : List (ℤ × MultiWrite V)

-- The arguments of a call, but for `ncid` and `ioid`; `fillvalue` may be NULL.
pub record WriteArgs (V : Type 0) : Type 0 where
  pub varid : ℤ
  pub ioid : ℤ
  pub array : List V
  pub fillvalue : Option V

-- `hashid = ioid * 10 + vdesc->rec_var`.
abbrev pub hashid_of : ℤ → ℤ → ℤ
hashid_of ioid rec_var = ioid *ℤ pos 10 +ℤ rec_var

module _ (hash : HashTable) {V : Type 0} (multi : MultiWrite V → Option Error)
    (same : V → V → Bool) where
  open hash use {Table, find, add, del, head}

  abbrev pub Outcome : Type 0
  Outcome = Option (FileState hash V × Result (Unit {0}))

  -- "Move to end of list or the entry that matches this ioid": the address of the buffer, with a new
  -- one if there is none.
  unfoldable pub find_buffer :
      Surroundings → FileState hash V → ℤ → ℤ → ℕ → Option (FileState hash V × Result ℕ)
  find_buffer env s ioid rec_var arraylen =
      let hashid = hashid_of ioid rec_var in
      elim (find s.buffer hashid) [
        | some p ↦ some (s, ok p)
        | none ↦ elim env.fresh [
          | none ↦ some (s, err enomem)
          | some p ↦
              let wmb = new_buffer ioid rec_var arraylen hashid in
              some (
                record s {
                  buffers = update s.buffers p (some wmb);
                  buffer = add s.buffer hashid p;
                },
                ok p,
              )
        ]
      ]

  -- The work on the buffer at `p`.
  unfoldable pub write_buffer :
      Surroundings → FileState hash V → IoDesc → VarDesc V → WriteArgs V → ℕ → Outcome
  write_buffer env s iodesc vdesc args p = elim (s.buffers p) [
    | none ↦ none
    | some wmb ↦
        Option.map
          (λ r.
            (record s { buffers = update s.buffers p (some r.0); writes = s.writes ++ r.1 }, r.2))
          (fill_buffer multi env iodesc vdesc args.varid args.array wmb)
  ]

  -- PIOc_write_darray from the lookup of the variable on; a new fill value stays with the variable.
  unfoldable pub write_var :
      Surroundings → FileState hash V → IoDesc → Option (V × Bool) → WriteArgs V → Outcome
  write_var env s iodesc found args = elim (s.vars args.varid) [
    | none ↦ some (s, err enotvar)
    | some v ↦ elim (known_fill found s.gdal v) [
      | err e ↦ some (s, err e)
      | ok vdesc ↦
          let s' = record s { vars = λ k. if args.varid ==ℤ k then some vdesc else s.vars k } in
          if fill_refused same args.fillvalue vdesc
          then some (s', err einval)
          else (elim (find_buffer env s' args.ioid vdesc.rec_var (length args.array)) [
            | none ↦ none
            | some (t, err e) ↦ some (t, err e)
            | some (t, ok p) ↦ write_buffer env t iodesc vdesc args p
          ])
    ]
  ]

  -- PIOc_write_darray on an open file; the decomposition is what `ioid` finds, NULL if nothing. The
  -- assertion that it is not read only is a fault.
  unfoldable pub write_darray :
      Surroundings → FileState hash V → Option IoDesc → Option (V × Bool) → WriteArgs V → Outcome
  write_darray env s iodesc found args =
      if s.writable
      then (elim iodesc [
        | none ↦ some (s, err ebadid)
        | some d ↦
            if d.readonly
            then none
            else if ltb (length args.array) d.ndof
            then some (s, err einval)
            else write_var env s d found args
      ])
      else some (s, err eperm)

  -- The loop of PIOc_sync over the buffers of a writable file: each with data is flushed, whatever the
  -- flush returns, and each is freed. `none` is a fault or the fuel's end.
  unfoldable pub sync_buffers : ℕ → FileState hash V → Option (FileState hash V)
  sync_buffers zero s = none
  sync_buffers (suc fuel) s = elim (head s.buffer) [
    | none ↦ some s
    | some p ↦ elim (s.buffers p) [
      | none ↦ none
      | some wmb ↦ sync_buffers fuel record s {
        buffers = free s.buffers p;
        buffer = del s.buffer wmb.htid p;
        writes = s.writes ++ (flush_buffer multi wmb true).1;
      }
    ]
  ]

-- PIOc_setframe (src/clib/pioc.c) without the message of the asynchronous service.
unfoldable pub set_frame :
    {hash : HashTable} {V : Type 0}
    → FileState hash V
    → ℤ
    → ℤ
    → FileState hash V × Result (Unit {0})
set_frame s varid frame = elim (s.vars varid) [
  | none ↦ (s, err enotvar)
  | some v ↦ (
    record s { vars = λ k. if varid ==ℤ k then some record v { frame = frame } else s.vars k },
    ok tt,
  )
]
