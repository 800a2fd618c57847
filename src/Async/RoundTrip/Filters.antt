-- ===== src/Async/RoundTrip/Filters.antt =====
-- The handlers for filters make the calls that were broadcast.
use parallel_io.Base.{ℕ, ◌≡◌, refl, Bool, true, ◌&&◌, some, List, length}
use parallel_io.Base.Int.{ℤ}
use parallel_io.Async.Wire.{Kind, Datum}
use parallel_io.Async.Receive.{receive_laws, bind-recv_array, bind-some}
use parallel_io.Async.Calls.{Call, Env}
use parallel_io.Async.Dispatch.{handle_message, dispatch}
use parallel_io.Async.Handlers.Filters.{
  def_var_zstandard_handler, inq_var_zstandard_handler, def_var_filter_handler,
  inq_var_filter_ids_handler, inq_var_filter_info_handler, inq_filter_avail_handler,
  def_var_quantize_handler, inq_var_quantize_handler,
}
use parallel_io.Async.Send.Filters.{
  def_var_zstandard_async, inq_var_zstandard_async, def_var_filter_async, inq_var_filter_ids_async,
  inq_var_filter_info_async, inq_filter_avail_async, def_var_quantize_async, inq_var_quantize_async,
}

pub handle_message-def_var_zstandard :
    (e : Env) (ncid varid level : ℤ) (ds : List Datum)
    → (e.par_filters && e.has_zstd) ≡ true
    → handle_message e (def_var_zstandard_async ncid varid level ds)
      ≡ some (some (Call.def_var_zstandard ncid varid level), ds)
unfolding handle_message dispatch def_var_zstandard_handler def_var_zstandard_async
handle_message-def_var_zstandard e ncid varid level ds hbuilt =
    rw (hbuilt) (bind-some _ _ (simp (receive_laws)) refl)

pub handle_message-inq_var_zstandard :
    (e : Env) (ncid varid : ℤ) (has_hasfilter has_level : Bool) (ds : List Datum)
    → (e.par_filters && e.has_zstd) ≡ true
    → handle_message e (inq_var_zstandard_async ncid varid has_hasfilter has_level ds)
      ≡ some (some (Call.inq_var_zstandard ncid varid has_hasfilter has_level), ds)
unfolding handle_message dispatch inq_var_zstandard_handler inq_var_zstandard_async
handle_message-inq_var_zstandard e ncid varid has_hasfilter has_level ds hbuilt =
    rw (hbuilt) (bind-some _ _ (simp (receive_laws)) refl)

pub handle_message-def_var_filter :
    (e : Env) (ncid varid id : ℤ) (nparams : ℕ) (params : List ℤ) (ds : List Datum)
    → (e.par_filters) ≡ true
    → length params ≡ nparams
    → handle_message e (def_var_filter_async ncid varid id nparams params ds)
      ≡ some (some (Call.def_var_filter ncid varid id nparams params), ds)
unfolding handle_message dispatch def_var_filter_handler def_var_filter_async
handle_message-def_var_filter e ncid varid id nparams params ds hbuilt hparams =
    rw (hbuilt) (bind-some _ _ (simp (receive_laws, bind-recv_array Kind.unsigned hparams)) refl)

pub handle_message-inq_var_filter_ids :
    (e : Env) (ncid varid : ℤ) (has_nfilters has_ids : Bool) (ds : List Datum)
    → (e.par_filters) ≡ true
    → handle_message e (inq_var_filter_ids_async ncid varid has_nfilters has_ids ds)
      ≡ some (some (Call.inq_var_filter_ids ncid varid has_nfilters has_ids), ds)
unfolding handle_message dispatch inq_var_filter_ids_handler inq_var_filter_ids_async
handle_message-inq_var_filter_ids e ncid varid has_nfilters has_ids ds hbuilt =
    rw (hbuilt) (bind-some _ _ (simp (receive_laws)) refl)

pub handle_message-inq_var_filter_info :
    (e : Env) (ncid varid id : ℤ) (has_nparams has_params : Bool) (ds : List Datum)
    → (e.par_filters) ≡ true
    → handle_message e (inq_var_filter_info_async ncid varid id has_nparams has_params ds)
      ≡ some (some (Call.inq_var_filter_info ncid varid id has_nparams has_params), ds)
unfolding handle_message dispatch inq_var_filter_info_handler inq_var_filter_info_async
handle_message-inq_var_filter_info e ncid varid id has_nparams has_params ds hbuilt =
    rw (hbuilt) (bind-some _ _ (simp (receive_laws)) refl)

pub handle_message-inq_filter_avail :
    (e : Env) (ncid id : ℤ) (ds : List Datum)
    → (e.par_filters) ≡ true
    → handle_message e (inq_filter_avail_async ncid id ds)
      ≡ some (some (Call.inq_filter_avail ncid id), ds)
unfolding handle_message dispatch inq_filter_avail_handler inq_filter_avail_async
handle_message-inq_filter_avail e ncid id ds hbuilt =
    rw (hbuilt) (bind-some _ _ (simp (receive_laws)) refl)

pub handle_message-def_var_quantize :
    (e : Env) (ncid varid quantize_mode nsd : ℤ) (ds : List Datum)
    → (e.par_filters && e.has_quantize) ≡ true
    → handle_message e (def_var_quantize_async ncid varid quantize_mode nsd ds)
      ≡ some (some (Call.def_var_quantize ncid varid quantize_mode nsd), ds)
unfolding handle_message dispatch def_var_quantize_handler def_var_quantize_async
handle_message-def_var_quantize e ncid varid quantize_mode nsd ds hbuilt =
    rw (hbuilt) (bind-some _ _ (simp (receive_laws)) refl)

pub handle_message-inq_var_quantize :
    (e : Env) (ncid varid : ℤ) (has_quantize_mode has_nsd : Bool) (ds : List Datum)
    → (e.par_filters && e.has_quantize) ≡ true
    → handle_message e (inq_var_quantize_async ncid varid has_quantize_mode has_nsd ds)
      ≡ some (some (Call.inq_var_quantize ncid varid has_quantize_mode has_nsd), ds)
unfolding handle_message dispatch inq_var_quantize_handler inq_var_quantize_async
handle_message-inq_var_quantize e ncid varid has_quantize_mode has_nsd ds hbuilt =
    rw (hbuilt) (bind-some _ _ (simp (receive_laws)) refl)
