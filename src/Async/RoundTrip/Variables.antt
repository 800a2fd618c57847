-- ===== src/Async/RoundTrip/Variables.antt =====
-- The handlers for variables make the calls that were broadcast.
use parallel_io.Base.{ℕ, ◌≡◌, refl, Bool, Option, some, List, length}
use parallel_io.Base.Int.{ℤ}
use parallel_io.Async.Wire.{Kind, Datum, NoNul, HasLength}
use parallel_io.Async.Receive.{
  receive_laws, bind-recv_name, bind-recv_array, bind-recv_if, bind-some,
}
use parallel_io.Async.Calls.{Call, Inquired, Env}
use parallel_io.Async.Dispatch.{handle_message, dispatch}
use parallel_io.Async.Handlers.Variables.{
  inq_var_handler, inq_varid_handler, rename_var_handler, def_var_handler, def_var_fill_handler,
  inq_var_fill_handler, def_var_chunking_handler, inq_var_chunking_handler, def_var_deflate_handler,
  inq_var_deflate_handler, def_var_endian_handler, inq_var_endian_handler,
  set_var_chunk_cache_handler, get_var_chunk_cache_handler,
}
use parallel_io.Async.Send.Variables.{
  inq_var_async, inq_varid_async, rename_var_async, def_var_async, def_var_fill_async,
  inq_var_fill_async, def_var_chunking_async, inq_var_chunking_async, def_var_deflate_async,
  inq_var_deflate_async, def_var_endian_async, inq_var_endian_async, set_var_chunk_cache_async,
  get_var_chunk_cache_async,
}

pub handle_message-inq_var :
    (e : Env) (ncid varid : ℤ) (has_name has_xtype has_ndims has_dimids has_natts : Bool)
    (ds : List Datum)
    → handle_message e
        (inq_var_async ncid varid has_name has_xtype has_ndims has_dimids has_natts ds)
      ≡ some (some (Call.inq_var ncid varid has_name has_xtype has_ndims has_dimids has_natts), ds)
unfolding handle_message dispatch inq_var_handler inq_var_async
handle_message-inq_var e ncid varid has_name has_xtype has_ndims has_dimids has_natts ds =
    bind-some _ _ (simp (receive_laws)) refl

pub handle_message-inq_varid :
    (e : Env) (ncid : ℤ) (var_name : List ℤ) (ds : List Datum)
    → NoNul var_name
    → handle_message e (inq_varid_async ncid var_name ds)
      ≡ some (some (Call.inq_varid ncid var_name), ds)
unfolding handle_message dispatch inq_varid_handler inq_varid_async
handle_message-inq_varid e ncid var_name ds hvar_name =
    bind-some _ _ (simp (receive_laws, bind-recv_name var_name hvar_name)) refl

pub handle_message-rename_var :
    (e : Env) (ncid varid : ℤ) (var_name : List ℤ) (ds : List Datum)
    → NoNul var_name
    → handle_message e (rename_var_async ncid varid var_name ds)
      ≡ some (some (Call.rename_var ncid varid var_name), ds)
unfolding handle_message dispatch rename_var_handler rename_var_async
handle_message-rename_var e ncid varid var_name ds hvar_name =
    bind-some _ _ (simp (receive_laws, bind-recv_name var_name hvar_name)) refl

pub handle_message-def_var :
    (e : Env) (ncid : ℤ) (var_name : List ℤ) (xtype : ℤ) (ndims : ℕ) (dimids : List ℤ)
    (ds : List Datum)
    → NoNul var_name
    → length dimids ≡ ndims
    → handle_message e (def_var_async ncid var_name xtype ndims dimids ds)
      ≡ some (some (Call.def_var ncid var_name xtype ndims dimids), ds)
unfolding handle_message dispatch def_var_handler def_var_async
handle_message-def_var e ncid var_name xtype ndims dimids ds hvar_name hdimids =
    bind-some _ _
      (simp (receive_laws, bind-recv_name var_name hvar_name, bind-recv_array Kind.int hdimids))
      refl

pub handle_message-def_var_fill :
    (e : Env) (k : Inquired) (ncid varid fill_mode : ℤ) (fill_value : Option (List ℤ))
    (ds : List Datum)
    → HasLength fill_value k.type_size
    → handle_message e (def_var_fill_async k ncid varid fill_mode fill_value ds)
      ≡ some (some (Call.def_var_fill ncid varid fill_mode fill_value), ds)
unfolding handle_message dispatch def_var_fill_handler def_var_fill_async
handle_message-def_var_fill e k ncid varid fill_mode fill_value ds hfill_value =
    bind-some _ _ (simp (receive_laws, bind-recv_if Kind.char fill_value k.type_size hfill_value))
      refl

pub handle_message-inq_var_fill :
    (e : Env) (k : Inquired) (ncid varid : ℤ) (has_fill_mode has_fill_value : Bool)
    (ds : List Datum)
    → handle_message e (inq_var_fill_async k ncid varid has_fill_mode has_fill_value ds)
      ≡ some (some (Call.inq_var_fill ncid varid has_fill_mode has_fill_value), ds)
unfolding handle_message dispatch inq_var_fill_handler inq_var_fill_async
handle_message-inq_var_fill e k ncid varid has_fill_mode has_fill_value ds =
    bind-some _ _ (simp (receive_laws)) refl

pub handle_message-def_var_chunking :
    (e : Env) (k : Inquired) (ncid varid storage : ℤ) (chunksizes : Option (List ℤ))
    (ds : List Datum)
    → HasLength chunksizes k.var_ndims
    → handle_message e (def_var_chunking_async k ncid varid storage chunksizes ds)
      ≡ some (some (Call.def_var_chunking ncid varid storage chunksizes), ds)
unfolding handle_message dispatch def_var_chunking_handler def_var_chunking_async
handle_message-def_var_chunking e k ncid varid storage chunksizes ds hchunksizes =
    bind-some _ _ (simp (receive_laws, bind-recv_if Kind.offset chunksizes k.var_ndims hchunksizes))
      refl

pub handle_message-inq_var_chunking :
    (e : Env) (k : Inquired) (ncid varid : ℤ) (has_storage has_chunksizes : Bool) (ds : List Datum)
    → handle_message e (inq_var_chunking_async k ncid varid has_storage has_chunksizes ds)
      ≡ some (some (Call.inq_var_chunking ncid varid has_storage has_chunksizes), ds)
unfolding handle_message dispatch inq_var_chunking_handler inq_var_chunking_async
handle_message-inq_var_chunking e k ncid varid has_storage has_chunksizes ds =
    bind-some _ _ (simp (receive_laws)) refl

pub handle_message-def_var_deflate :
    (e : Env) (ncid varid shuffle deflate deflate_level : ℤ) (ds : List Datum)
    → handle_message e (def_var_deflate_async ncid varid shuffle deflate deflate_level ds)
      ≡ some (some (Call.def_var_deflate ncid varid shuffle deflate deflate_level), ds)
unfolding handle_message dispatch def_var_deflate_handler def_var_deflate_async
handle_message-def_var_deflate e ncid varid shuffle deflate deflate_level ds =
    bind-some _ _ (simp (receive_laws)) refl

pub handle_message-inq_var_deflate :
    (e : Env) (ncid varid : ℤ) (shuffle deflate deflate_level : Option (List ℤ)) (ds : List Datum)
    → HasLength shuffle 1
    → HasLength deflate 1
    → HasLength deflate_level 1
    → handle_message e (inq_var_deflate_async ncid varid shuffle deflate deflate_level ds)
      ≡ some (some (Call.inq_var_deflate ncid varid shuffle deflate deflate_level), ds)
unfolding handle_message dispatch inq_var_deflate_handler inq_var_deflate_async
handle_message-inq_var_deflate e ncid varid shuffle deflate deflate_level ds hshuffle hdeflate
      hdeflate_level =
    bind-some _ _
      (simp (
        receive_laws,
        bind-recv_if Kind.int shuffle 1 hshuffle,
        bind-recv_if Kind.int deflate 1 hdeflate,
        bind-recv_if Kind.int deflate_level 1 hdeflate_level,
      ))
      refl

pub handle_message-def_var_endian :
    (e : Env) (ncid varid endian : ℤ) (ds : List Datum)
    → handle_message e (def_var_endian_async ncid varid endian ds)
      ≡ some (some (Call.def_var_endian ncid varid endian), ds)
unfolding handle_message dispatch def_var_endian_handler def_var_endian_async
handle_message-def_var_endian e ncid varid endian ds = bind-some _ _ (simp (receive_laws)) refl

pub handle_message-inq_var_endian :
    (e : Env) (ncid varid : ℤ) (has_endian : Bool) (ds : List Datum)
    → handle_message e (inq_var_endian_async ncid varid has_endian ds)
      ≡ some (some (Call.inq_var_endian ncid varid has_endian), ds)
unfolding handle_message dispatch inq_var_endian_handler inq_var_endian_async
handle_message-inq_var_endian e ncid varid has_endian ds = bind-some _ _ (simp (receive_laws)) refl

pub handle_message-set_var_chunk_cache :
    (e : Env) (ncid varid size nelems preemption : ℤ) (ds : List Datum)
    → handle_message e (set_var_chunk_cache_async ncid varid size nelems preemption ds)
      ≡ some (some (Call.set_var_chunk_cache ncid varid size nelems preemption), ds)
unfolding handle_message dispatch set_var_chunk_cache_handler set_var_chunk_cache_async
handle_message-set_var_chunk_cache e ncid varid size nelems preemption ds =
    bind-some _ _ (simp (receive_laws)) refl

pub handle_message-get_var_chunk_cache :
    (e : Env) (ncid varid : ℤ) (has_size has_nelems has_preemption : Bool) (ds : List Datum)
    → handle_message e (get_var_chunk_cache_async ncid varid has_size has_nelems has_preemption ds)
      ≡ some (some (Call.get_var_chunk_cache ncid varid has_size has_nelems has_preemption), ds)
unfolding handle_message dispatch get_var_chunk_cache_handler get_var_chunk_cache_async
handle_message-get_var_chunk_cache e ncid varid has_size has_nelems has_preemption ds =
    bind-some _ _ (simp (receive_laws)) refl
