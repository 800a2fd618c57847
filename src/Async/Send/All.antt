-- ===== src/Async/Send/All.antt =====
-- What is broadcast for each call, and when the IO tasks can make the same call.
use parallel_io.Base.{◌*◌, ◌≡◌, true, ◌&&◌, ◌||◌, not, some, List, length}
use parallel_io.Base.Int.{pos, ◌==ℤ◌, to_int}
use parallel_io.Async.Wire.{Datum, NoNul, HasLength}
use parallel_io.Async.Calls.{Call, Inquired, Env, has_case}
use parallel_io.Async.Send.Files.{
  create_file_async, open_file_async, close_file_async, delete_file_async, sync_file_async,
  enddef_async, redef_async, set_fill_async, set_error_handling_async, set_log_level_async,
  set_chunk_cache_async, get_chunk_cache_async, free_iosystem_async,
}
use parallel_io.Async.Send.Metadata.{
  inq_async, inq_unlimdims_async, inq_type_async, inq_format_async, inq_dim_async, inq_dimid_async,
  rename_dim_async, def_dim_async, inq_att_async, inq_attname_async, inq_attid_async,
  rename_att_async, del_att_async, put_att_async, get_att_async,
}
use parallel_io.Async.Send.Variables.{
  inq_var_async, inq_varid_async, rename_var_async, def_var_async, def_var_fill_async,
  inq_var_fill_async, def_var_chunking_async, inq_var_chunking_async, def_var_deflate_async,
  inq_var_deflate_async, def_var_endian_async, inq_var_endian_async, set_var_chunk_cache_async,
  get_var_chunk_cache_async,
}
use parallel_io.Async.Send.Filters.{
  def_var_szip_async, def_var_bzip2_async, inq_var_bzip2_async, def_var_zstandard_async,
  inq_var_zstandard_async, def_var_filter_async, inq_var_filter_ids_async,
  inq_var_filter_info_async, inq_filter_avail_async, def_var_quantize_async, inq_var_quantize_async,
}
use parallel_io.Async.Send.Data.{
  get_vars_async, put_vars_async, set_frame_async, advance_frame_async, init_decomp_async,
  free_decomp_async, write_darray_multi_async, read_darray_async,
}

unfoldable pub send : Inquired → Call → List Datum → List Datum
send k (Call.create_file filename iotype mode use_ext_ncid) ds =
    create_file_async k filename iotype mode use_ext_ncid ds
send k (Call.open_file filename iotype mode use_ext_ncid) ds =
    open_file_async filename iotype mode use_ext_ncid ds
send k (Call.close_file ncid) ds = close_file_async ncid ds
send k (Call.delete_file filename) ds = delete_file_async filename ds
send k (Call.sync_file ncid) ds = sync_file_async ncid ds
send k (Call.enddef ncid) ds = enddef_async ncid ds
send k (Call.redef ncid) ds = redef_async ncid ds
send k (Call.set_fill ncid fillmode has_old_mode) ds = set_fill_async ncid fillmode has_old_mode ds
send k (Call.set_error_handling method has_old_method) ds =
    set_error_handling_async method has_old_method ds
send k (Call.set_log_level iosysid) ds = set_log_level_async iosysid ds
send k (Call.set_chunk_cache iosysid iotype size nelems preemption) ds =
    set_chunk_cache_async iosysid iotype size nelems preemption ds
send k (Call.get_chunk_cache iosysid iotype has_size has_nelems has_preemption) ds =
    get_chunk_cache_async iosysid iotype has_size has_nelems has_preemption ds
send k (Call.free_iosystem iosysid) ds = free_iosystem_async iosysid ds
send k (Call.inq ncid has_ndims has_nvars has_ngatts has_unlimdimid) ds =
    inq_async ncid has_ndims has_nvars has_ngatts has_unlimdimid ds
send k (Call.inq_unlimdims ncid has_nunlimdims has_unlimdimids) ds =
    inq_unlimdims_async ncid has_nunlimdims has_unlimdimids ds
send k (Call.inq_type ncid xtype has_name has_size) ds =
    inq_type_async ncid xtype has_name has_size ds
send k (Call.inq_format ncid has_format) ds = inq_format_async ncid has_format ds
send k (Call.inq_dim ncid dimid has_name has_len) ds = inq_dim_async ncid dimid has_name has_len ds
send k (Call.inq_dimid ncid dim_name has_id) ds = inq_dimid_async ncid dim_name has_id ds
send k (Call.rename_dim ncid dimid dim_name) ds = rename_dim_async ncid dimid dim_name ds
send k (Call.def_dim ncid dim_name len) ds = def_dim_async ncid dim_name len ds
send k (Call.inq_att ncid varid att_name has_xtype has_len eh) ds =
    inq_att_async ncid varid att_name has_xtype has_len eh ds
send k (Call.inq_attname ncid varid attnum has_name) ds =
    inq_attname_async ncid varid attnum has_name ds
send k (Call.inq_attid ncid varid att_name has_id) ds =
    inq_attid_async ncid varid att_name has_id ds
send k (Call.rename_att ncid varid att_name new_name) ds =
    rename_att_async ncid varid att_name new_name ds
send k (Call.del_att ncid varid att_name) ds = del_att_async ncid varid att_name ds
send k (Call.put_att ncid varid att_name atttype len memtype op) ds =
    put_att_async k ncid varid att_name atttype len memtype op ds
send k (Call.get_att ncid varid att_name memtype) ds =
    get_att_async k ncid varid att_name memtype ds
send k (Call.inq_var ncid varid has_name has_xtype has_ndims has_dimids has_natts) ds =
    inq_var_async ncid varid has_name has_xtype has_ndims has_dimids has_natts ds
send k (Call.inq_varid ncid var_name) ds = inq_varid_async ncid var_name ds
send k (Call.rename_var ncid varid var_name) ds = rename_var_async ncid varid var_name ds
send k (Call.def_var ncid var_name xtype ndims dimids) ds =
    def_var_async ncid var_name xtype ndims dimids ds
send k (Call.def_var_fill ncid varid fill_mode fill_value) ds =
    def_var_fill_async k ncid varid fill_mode fill_value ds
send k (Call.inq_var_fill ncid varid has_fill_mode has_fill_value) ds =
    inq_var_fill_async k ncid varid has_fill_mode has_fill_value ds
send k (Call.def_var_chunking ncid varid storage chunksizes) ds =
    def_var_chunking_async k ncid varid storage chunksizes ds
send k (Call.inq_var_chunking ncid varid has_storage has_chunksizes) ds =
    inq_var_chunking_async k ncid varid has_storage has_chunksizes ds
send k (Call.def_var_deflate ncid varid shuffle deflate deflate_level) ds =
    def_var_deflate_async ncid varid shuffle deflate deflate_level ds
send k (Call.inq_var_deflate ncid varid shuffle deflate deflate_level) ds =
    inq_var_deflate_async ncid varid shuffle deflate deflate_level ds
send k (Call.def_var_endian ncid varid endian) ds = def_var_endian_async ncid varid endian ds
send k (Call.inq_var_endian ncid varid has_endian) ds =
    inq_var_endian_async ncid varid has_endian ds
send k (Call.set_var_chunk_cache ncid varid size nelems preemption) ds =
    set_var_chunk_cache_async ncid varid size nelems preemption ds
send k (Call.get_var_chunk_cache ncid varid has_size has_nelems has_preemption) ds =
    get_var_chunk_cache_async ncid varid has_size has_nelems has_preemption ds
send k (Call.def_var_szip ncid varid options_mask pixels_per_block) ds =
    def_var_szip_async ncid varid options_mask pixels_per_block ds
send k (Call.def_var_bzip2 ncid varid level) ds = def_var_bzip2_async ncid varid level ds
send k (Call.inq_var_bzip2 ncid varid has_hasfilter has_level) ds =
    inq_var_bzip2_async ncid varid has_hasfilter has_level ds
send k (Call.def_var_zstandard ncid varid level) ds = def_var_zstandard_async ncid varid level ds
send k (Call.inq_var_zstandard ncid varid has_hasfilter has_level) ds =
    inq_var_zstandard_async ncid varid has_hasfilter has_level ds
send k (Call.def_var_filter ncid varid id nparams params) ds =
    def_var_filter_async ncid varid id nparams params ds
send k (Call.inq_var_filter_ids ncid varid has_nfilters has_ids) ds =
    inq_var_filter_ids_async ncid varid has_nfilters has_ids ds
send k (Call.inq_var_filter_info ncid varid id has_nparams has_params) ds =
    inq_var_filter_info_async ncid varid id has_nparams has_params ds
send k (Call.inq_filter_avail ncid id) ds = inq_filter_avail_async ncid id ds
send k (Call.def_var_quantize ncid varid quantize_mode nsd) ds =
    def_var_quantize_async ncid varid quantize_mode nsd ds
send k (Call.inq_var_quantize ncid varid has_quantize_mode has_nsd) ds =
    inq_var_quantize_async ncid varid has_quantize_mode has_nsd ds
send k (Call.get_vars ncid varid start count stride xtype) ds =
    get_vars_async k ncid varid start count stride xtype ds
send k (Call.put_vars ncid varid start count stride xtype buf) ds =
    put_vars_async k ncid varid start count stride xtype buf ds
send k (Call.set_frame ncid varid frame) ds = set_frame_async ncid varid frame ds
send k (Call.advance_frame ncid varid) ds = advance_frame_async ncid varid ds
send k (Call.init_decomp iosysid pio_type ndims gdimlen maplen compmap rearranger iostart iocount)
      ds =
    init_decomp_async iosysid pio_type ndims gdimlen maplen compmap rearranger iostart iocount ds
send k (Call.free_decomp iosysid ioid) ds = free_decomp_async iosysid ioid ds
send k (Call.write_darray_multi ncid nvars varids ioid arraylen array frame fillvalue flushtodisk)
      ds =
    write_darray_multi_async k ncid nvars varids ioid arraylen array frame fillvalue flushtodisk ds
send k (Call.read_darray ncid varid ioid arraylen) ds =
    read_darray_async ncid varid ioid arraylen ds
send k Call.no_call ds = ds

-- The strings have no NUL, the arrays have the length that the call says, the build has the handler, the length of a
-- dimension is an `int`, and a flag that is received into an `int` is not spoilt by what the other bytes held.
abbrev pub Served : Env → Inquired → Call → Type 0
Served e k (Call.create_file filename iotype mode use_ext_ncid) =
    (NoNul filename) × (HasLength k.ncidp 1) × ((use_ext_ncid ==ℤ pos 0) ≡ true)
Served e k (Call.open_file filename iotype mode use_ext_ncid) =
    (NoNul filename) × ((use_ext_ncid ==ℤ pos 0) ≡ true)
Served e k (Call.close_file ncid) = Unit {0}
Served e k (Call.delete_file filename) = (NoNul filename)
Served e k (Call.sync_file ncid) = Unit {0}
Served e k (Call.enddef ncid) = Unit {0}
Served e k (Call.redef ncid) = Unit {0}
Served e k (Call.set_fill ncid fillmode has_old_mode) = Unit {0}
Served e k (Call.set_error_handling method has_old_method) =
    ((has_old_method || not (e.other_bytes ==ℤ pos 0)) ≡ has_old_method)
Served e k (Call.set_log_level iosysid) = Unit {0}
Served e k (Call.set_chunk_cache iosysid iotype size nelems preemption) = Unit {0}
Served e k (Call.get_chunk_cache iosysid iotype has_size has_nelems has_preemption) = Unit {0}
Served e k (Call.free_iosystem iosysid) = Unit {0}
Served e k (Call.inq ncid has_ndims has_nvars has_ngatts has_unlimdimid) = Unit {0}
Served e k (Call.inq_unlimdims ncid has_nunlimdims has_unlimdimids) = Unit {0}
Served e k (Call.inq_type ncid xtype has_name has_size) = Unit {0}
Served e k (Call.inq_format ncid has_format) = Unit {0}
Served e k (Call.inq_dim ncid dimid has_name has_len) = Unit {0}
Served e k (Call.inq_dimid ncid dim_name has_id) =
    (NoNul dim_name) × ((has_id || not (e.other_bytes ==ℤ pos 0)) ≡ has_id)
Served e k (Call.rename_dim ncid dimid dim_name) = (NoNul dim_name)
Served e k (Call.def_dim ncid dim_name len) = (NoNul dim_name) × (to_int len ≡ len)
Served e k (Call.inq_att ncid varid att_name has_xtype has_len eh) = (NoNul att_name)
Served e k (Call.inq_attname ncid varid attnum has_name) = Unit {0}
Served e k (Call.inq_attid ncid varid att_name has_id) = (NoNul att_name)
Served e k (Call.rename_att ncid varid att_name new_name) = (NoNul att_name) × (NoNul new_name)
Served e k (Call.del_att ncid varid att_name) = (NoNul att_name)
Served e k (Call.put_att ncid varid att_name atttype len memtype op) =
    (NoNul att_name) × (length op ≡ len * k.memtype_len)
Served e k (Call.get_att ncid varid att_name memtype) = (NoNul att_name)
Served e k (Call.inq_var ncid varid has_name has_xtype has_ndims has_dimids has_natts) = Unit {0}
Served e k (Call.inq_varid ncid var_name) = (NoNul var_name)
Served e k (Call.rename_var ncid varid var_name) = (NoNul var_name)
Served e k (Call.def_var ncid var_name xtype ndims dimids) =
    (NoNul var_name) × (length dimids ≡ ndims)
Served e k (Call.def_var_fill ncid varid fill_mode fill_value) = (HasLength fill_value k.type_size)
Served e k (Call.inq_var_fill ncid varid has_fill_mode has_fill_value) = Unit {0}
Served e k (Call.def_var_chunking ncid varid storage chunksizes) =
    (HasLength chunksizes k.var_ndims)
Served e k (Call.inq_var_chunking ncid varid has_storage has_chunksizes) = Unit {0}
Served e k (Call.def_var_deflate ncid varid shuffle deflate deflate_level) = Unit {0}
Served e k (Call.inq_var_deflate ncid varid shuffle deflate deflate_level) =
    (HasLength shuffle 1) × (HasLength deflate 1) × (HasLength deflate_level 1)
Served e k (Call.def_var_endian ncid varid endian) = Unit {0}
Served e k (Call.inq_var_endian ncid varid has_endian) = Unit {0}
Served e k (Call.set_var_chunk_cache ncid varid size nelems preemption) = Unit {0}
Served e k (Call.get_var_chunk_cache ncid varid has_size has_nelems has_preemption) = Unit {0}
Served e k (Call.def_var_szip ncid varid options_mask pixels_per_block) = (⊥)
Served e k (Call.def_var_bzip2 ncid varid level) = (⊥)
Served e k (Call.inq_var_bzip2 ncid varid has_hasfilter has_level) = (⊥)
Served e k (Call.def_var_zstandard ncid varid level) = ((e.par_filters && e.has_zstd) ≡ true)
Served e k (Call.inq_var_zstandard ncid varid has_hasfilter has_level) =
    ((e.par_filters && e.has_zstd) ≡ true)
Served e k (Call.def_var_filter ncid varid id nparams params) =
    ((e.par_filters) ≡ true) × (length params ≡ nparams)
Served e k (Call.inq_var_filter_ids ncid varid has_nfilters has_ids) = ((e.par_filters) ≡ true)
Served e k (Call.inq_var_filter_info ncid varid id has_nparams has_params) =
    ((e.par_filters) ≡ true)
Served e k (Call.inq_filter_avail ncid id) = ((e.par_filters) ≡ true)
Served e k (Call.def_var_quantize ncid varid quantize_mode nsd) =
    ((e.par_filters && e.has_quantize) ≡ true)
Served e k (Call.inq_var_quantize ncid varid has_quantize_mode has_nsd) =
    ((e.par_filters && e.has_quantize) ≡ true)
Served e k (Call.get_vars ncid varid start count stride xtype) =
    (HasLength start k.var_ndims)
    × (HasLength count k.var_ndims)
    × (HasLength stride k.var_ndims)
    × (has_case e.netcdf4 xtype ≡ true)
Served e k (Call.put_vars ncid varid start count stride xtype buf) =
    (HasLength start k.var_ndims)
    × (HasLength count k.var_ndims)
    × (HasLength stride k.var_ndims)
    × (length buf ≡ k.num_elem * k.type_size)
    × (has_case e.netcdf4 xtype ≡ true)
Served e k (Call.set_frame ncid varid frame) = Unit {0}
Served e k (Call.advance_frame ncid varid) = Unit {0}
Served e k
      (Call.init_decomp iosysid pio_type ndims gdimlen maplen compmap rearranger iostart iocount) =
    (length gdimlen ≡ ndims)
    × (length compmap ≡ maplen)
    × (HasLength rearranger 1)
    × (HasLength iostart ndims)
    × (HasLength iocount ndims)
Served e k (Call.free_decomp iosysid ioid) = Unit {0}
Served e k
      (Call.write_darray_multi ncid nvars varids ioid arraylen array frame fillvalue flushtodisk) =
    (length varids ≡ nvars)
    × (e.sizes ioid ≡ some k.piotype_size)
    × (length array ≡ arraylen * k.piotype_size)
    × (HasLength frame nvars)
    × (HasLength fillvalue (nvars * k.piotype_size))
    × (e.is_open ncid ≡ true)
Served e k (Call.read_darray ncid varid ioid arraylen) = Unit {0}
Served e k Call.no_call = ⊥
