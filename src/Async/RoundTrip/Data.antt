-- ===== src/Async/RoundTrip/Data.antt =====
-- The handlers for data, frames and decompositions make the calls that were broadcast.
use parallel_io.Base.{ℕ, ◌*◌, ◌≡◌, refl, true, Option, some, List, length}
use parallel_io.Base.Int.{ℤ}
use parallel_io.Async.Wire.{Kind, Datum, HasLength}
use parallel_io.Async.Receive.{
  receive_laws, bind-recv_array, bind-recv_if, bind-lift, bind-require, bind-some,
}
use parallel_io.Async.Calls.{Call, Inquired, Env, has_case}
use parallel_io.Async.Dispatch.{handle_message, dispatch}
use parallel_io.Async.Handlers.Data.{
  get_vars_handler, put_vars_handler, setframe_handler, advanceframe_handler,
  initdecomp_dof_handler, freedecomp_handler, write_darray_multi_handler, read_darray_handler,
}
use parallel_io.Async.Send.Data.{
  get_vars_async, put_vars_async, set_frame_async, advance_frame_async, init_decomp_async,
  free_decomp_async, write_darray_multi_async, read_darray_async,
}

pub handle_message-get_vars :
    (e : Env) (k : Inquired) (ncid varid : ℤ) (start count stride : Option (List ℤ)) (xtype : ℤ)
    (ds : List Datum)
    → HasLength start k.var_ndims
    → HasLength count k.var_ndims
    → HasLength stride k.var_ndims
    → has_case e.netcdf4 xtype ≡ true
    → handle_message e (get_vars_async k ncid varid start count stride xtype ds)
      ≡ some (some (Call.get_vars ncid varid start count stride xtype), ds)
unfolding handle_message dispatch get_vars_handler get_vars_async
handle_message-get_vars e k ncid varid start count stride xtype ds hstart hcount hstride hcall =
    bind-some _ _
      (simp (
        receive_laws,
        bind-recv_if Kind.offset start k.var_ndims hstart,
        bind-recv_if Kind.offset count k.var_ndims hcount,
        bind-recv_if Kind.offset stride k.var_ndims hstride,
        hcall,
      ))
      refl

pub handle_message-put_vars :
    (e : Env) (k : Inquired) (ncid varid : ℤ) (start count stride : Option (List ℤ)) (xtype : ℤ)
    (buf : List ℤ) (ds : List Datum)
    → HasLength start k.var_ndims
    → HasLength count k.var_ndims
    → HasLength stride k.var_ndims
    → length buf ≡ k.num_elem * k.type_size
    → has_case e.netcdf4 xtype ≡ true
    → handle_message e (put_vars_async k ncid varid start count stride xtype buf ds)
      ≡ some (some (Call.put_vars ncid varid start count stride xtype buf), ds)
unfolding handle_message dispatch put_vars_handler put_vars_async
handle_message-put_vars e k ncid varid start count stride xtype buf ds hstart hcount hstride hbuf
      hcall =
    bind-some _ _
      (simp (
        receive_laws,
        bind-recv_if Kind.offset start k.var_ndims hstart,
        bind-recv_if Kind.offset count k.var_ndims hcount,
        bind-recv_if Kind.offset stride k.var_ndims hstride,
        bind-recv_array Kind.byte hbuf,
        hcall,
      ))
      refl

pub handle_message-set_frame :
    (e : Env) (ncid varid frame : ℤ) (ds : List Datum)
    → handle_message e (set_frame_async ncid varid frame ds)
      ≡ some (some (Call.set_frame ncid varid frame), ds)
unfolding handle_message dispatch setframe_handler set_frame_async
handle_message-set_frame e ncid varid frame ds = bind-some _ _ (simp (receive_laws)) refl

pub handle_message-advance_frame :
    (e : Env) (ncid varid : ℤ) (ds : List Datum)
    → handle_message e (advance_frame_async ncid varid ds)
      ≡ some (some (Call.advance_frame ncid varid), ds)
unfolding handle_message dispatch advanceframe_handler advance_frame_async
handle_message-advance_frame e ncid varid ds = bind-some _ _ (simp (receive_laws)) refl

pub handle_message-init_decomp :
    (e : Env) (iosysid pio_type : ℤ) (ndims : ℕ) (gdimlen : List ℤ) (maplen : ℕ) (compmap : List ℤ)
    (rearranger iostart iocount : Option (List ℤ)) (ds : List Datum)
    → length gdimlen ≡ ndims
    → length compmap ≡ maplen
    → HasLength rearranger 1
    → HasLength iostart ndims
    → HasLength iocount ndims
    → handle_message e (
        init_decomp_async iosysid pio_type ndims gdimlen maplen compmap rearranger iostart iocount
          ds)
      ≡ some (
        some (
            Call.init_decomp iosysid pio_type ndims gdimlen maplen compmap rearranger iostart
              iocount),
        ds,
      )
unfolding handle_message dispatch initdecomp_dof_handler init_decomp_async
handle_message-init_decomp e iosysid pio_type ndims gdimlen maplen compmap rearranger iostart
      iocount ds hgdimlen hcompmap hrearranger hiostart hiocount =
    bind-some _ _
      (simp (
        receive_laws,
        bind-recv_array Kind.int hgdimlen,
        bind-recv_array Kind.offset hcompmap,
        bind-recv_if Kind.int rearranger 1 hrearranger,
        bind-recv_if Kind.offset iostart ndims hiostart,
        bind-recv_if Kind.offset iocount ndims hiocount,
      ))
      refl

pub handle_message-free_decomp :
    (e : Env) (iosysid ioid : ℤ) (ds : List Datum)
    → handle_message e (free_decomp_async iosysid ioid ds)
      ≡ some (some (Call.free_decomp iosysid ioid), ds)
unfolding handle_message dispatch freedecomp_handler free_decomp_async
handle_message-free_decomp e iosysid ioid ds = bind-some _ _ (simp (receive_laws)) refl

pub handle_message-write_darray_multi :
    (e : Env) (k : Inquired) (ncid : ℤ) (nvars : ℕ) (varids : List ℤ) (ioid : ℤ) (arraylen : ℕ)
    (array : List ℤ) (frame fillvalue : Option (List ℤ)) (flushtodisk : ℤ) (ds : List Datum)
    → length varids ≡ nvars
    → e.sizes ioid ≡ some k.piotype_size
    → length array ≡ arraylen * k.piotype_size
    → HasLength frame nvars
    → HasLength fillvalue (nvars * k.piotype_size)
    → e.is_open ncid ≡ true
    → handle_message e (
        write_darray_multi_async k ncid nvars varids ioid arraylen array frame fillvalue flushtodisk
          ds)
      ≡ some (
        some (
            Call.write_darray_multi ncid nvars varids ioid arraylen array frame fillvalue
              flushtodisk),
        ds,
      )
unfolding handle_message dispatch write_darray_multi_handler write_darray_multi_async
handle_message-write_darray_multi e k ncid nvars varids ioid arraylen array frame fillvalue
      flushtodisk ds hvarids hsize harray hframe hfillvalue hopen =
    bind-some _ _
      (simp (
        receive_laws,
        bind-recv_array Kind.int hvarids,
        bind-lift hsize,
        bind-recv_array Kind.char harray,
        bind-recv_if Kind.int frame nvars hframe,
        bind-recv_if Kind.char fillvalue (nvars * k.piotype_size) hfillvalue,
        bind-require hopen,
      ))
      refl

pub handle_message-read_darray :
    (e : Env) (ncid varid ioid arraylen : ℤ) (ds : List Datum)
    → handle_message e (read_darray_async ncid varid ioid arraylen ds)
      ≡ some (some (Call.read_darray ncid varid ioid arraylen), ds)
unfolding handle_message dispatch read_darray_handler read_darray_async
handle_message-read_darray e ncid varid ioid arraylen ds = bind-some _ _ (simp (receive_laws)) refl
