-- ===== src/Async/Dispatch.antt =====
-- The message service, pio_msg_handler2 in src/clib/pio_msg.c, for one computation component.
use parallel_io.Base.{Bool, true, false, ◌&&◌, Option, none, some, ◌∷◌}
use parallel_io.Async.Wire.{Msg, sent, Receiver, pure, ◌>>=◌}
use parallel_io.Async.Calls.{Call, Env}
use parallel_io.Async.Handlers.Files.{
  create_file_handler, open_file_handler, close_file_handler, delete_file_handler,
  sync_file_handler, change_def_file_handler, set_fill_handler, seterrorhandling_handler,
  set_loglevel_handler, set_chunk_cache_handler, get_chunk_cache_handler, finalize_handler,
}
use parallel_io.Async.Handlers.Metadata.{
  inq_handler, inq_unlimdims_handler, inq_type_handler, inq_format_handler, inq_dim_handler,
  inq_dimid_handler, rename_dim_handler, def_dim_handler, inq_att_handler, inq_attname_handler,
  inq_attid_handler, rename_att_handler, delete_att_handler, att_put_handler, att_get_handler,
}
use parallel_io.Async.Handlers.Variables.{
  inq_var_handler, inq_varid_handler, rename_var_handler, def_var_handler, def_var_fill_handler,
  inq_var_fill_handler, def_var_chunking_handler, inq_var_chunking_handler, def_var_deflate_handler,
  inq_var_deflate_handler, def_var_endian_handler, inq_var_endian_handler,
  set_var_chunk_cache_handler, get_var_chunk_cache_handler,
}
use parallel_io.Async.Handlers.Filters.{
  def_var_zstandard_handler, inq_var_zstandard_handler, def_var_filter_handler,
  inq_var_filter_ids_handler, inq_var_filter_info_handler, inq_filter_avail_handler,
  def_var_quantize_handler, inq_var_quantize_handler,
}
use parallel_io.Async.Handlers.Data.{
  get_vars_handler, put_vars_handler, setframe_handler, advanceframe_handler,
  initdecomp_dof_handler, freedecomp_handler, write_darray_multi_handler, read_darray_handler,
}

-- A case that is under a macro.
abbrev pub when : Bool → Receiver Call → Receiver (Option Call)
when false m = pure none
when true m = do c ← m; pure (some c)

abbrev pub always : Receiver Call → Receiver (Option Call)
always m = when true m

-- The switch. `none` in place of a call is its default case.
unfoldable pub dispatch : Env → Msg → Receiver (Option Call)
dispatch e Msg.create_file = always create_file_handler
dispatch e Msg.open_file = always open_file_handler
dispatch e Msg.close_file = always close_file_handler
dispatch e Msg.delete_file = always delete_file_handler
dispatch e Msg.sync_file = always sync_file_handler
dispatch e Msg.enddef = always (change_def_file_handler Msg.enddef)
dispatch e Msg.redef = always (change_def_file_handler Msg.redef)
dispatch e Msg.set_fill = always set_fill_handler
dispatch e Msg.set_error_handling = always (seterrorhandling_handler e.other_bytes)
dispatch e Msg.set_log_level = always set_loglevel_handler
dispatch e Msg.set_chunk_cache = always set_chunk_cache_handler
dispatch e Msg.get_chunk_cache = always get_chunk_cache_handler
dispatch e Msg.free_iosystem = always finalize_handler
dispatch e Msg.inq = always inq_handler
dispatch e Msg.inq_unlimdims = always inq_unlimdims_handler
dispatch e Msg.inq_type = always inq_type_handler
dispatch e Msg.inq_format = always inq_format_handler
dispatch e Msg.inq_dim = always inq_dim_handler
dispatch e Msg.inq_dimid = always (inq_dimid_handler e.other_bytes)
dispatch e Msg.rename_dim = always rename_dim_handler
dispatch e Msg.def_dim = always def_dim_handler
dispatch e Msg.inq_att = always inq_att_handler
dispatch e Msg.inq_attname = always inq_attname_handler
dispatch e Msg.inq_attid = always inq_attid_handler
dispatch e Msg.rename_att = always rename_att_handler
dispatch e Msg.del_att = always delete_att_handler
dispatch e Msg.put_att = always att_put_handler
dispatch e Msg.get_att = always att_get_handler
dispatch e Msg.inq_var = always inq_var_handler
dispatch e Msg.inq_varid = always inq_varid_handler
dispatch e Msg.rename_var = always rename_var_handler
dispatch e Msg.def_var = always def_var_handler
dispatch e Msg.def_var_fill = always def_var_fill_handler
dispatch e Msg.inq_var_fill = always inq_var_fill_handler
dispatch e Msg.def_var_chunking = always def_var_chunking_handler
dispatch e Msg.inq_var_chunking = always inq_var_chunking_handler
dispatch e Msg.def_var_deflate = always def_var_deflate_handler
dispatch e Msg.inq_var_deflate = always inq_var_deflate_handler
dispatch e Msg.def_var_endian = always def_var_endian_handler
dispatch e Msg.inq_var_endian = always inq_var_endian_handler
dispatch e Msg.set_var_chunk_cache = always set_var_chunk_cache_handler
dispatch e Msg.get_var_chunk_cache = always get_var_chunk_cache_handler
dispatch e Msg.def_var_zstandard = when (e.par_filters && e.has_zstd) def_var_zstandard_handler
dispatch e Msg.inq_var_zstandard = when (e.par_filters && e.has_zstd) inq_var_zstandard_handler
dispatch e Msg.def_var_filter = when (e.par_filters) def_var_filter_handler
dispatch e Msg.inq_var_filter_ids = when (e.par_filters) inq_var_filter_ids_handler
dispatch e Msg.inq_var_filter_info = when (e.par_filters) inq_var_filter_info_handler
dispatch e Msg.inq_filter_avail = when (e.par_filters) inq_filter_avail_handler
dispatch e Msg.def_var_quantize = when (e.par_filters && e.has_quantize) def_var_quantize_handler
dispatch e Msg.inq_var_quantize = when (e.par_filters && e.has_quantize) inq_var_quantize_handler
dispatch e Msg.get_vars = always (get_vars_handler e.netcdf4)
dispatch e Msg.put_vars = always (put_vars_handler e.netcdf4)
dispatch e Msg.set_frame = always setframe_handler
dispatch e Msg.advance_frame = always advanceframe_handler
dispatch e Msg.init_decomp = always initdecomp_dof_handler
dispatch e Msg.free_decomp = always freedecomp_handler
dispatch e Msg.write_darray_multi = always (write_darray_multi_handler e.sizes e.is_open)
dispatch e Msg.read_darray = always read_darray_handler
dispatch e m = pure none

-- One message: what is received and which call is made.
unfoldable pub handle_message : Env → Receiver (Option Call)
handle_message e (sent m ∷ ds) = dispatch e m ds
handle_message e ds = none
