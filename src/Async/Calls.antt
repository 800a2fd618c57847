-- ===== src/Async/Calls.antt =====
-- The calls that the compute tasks pass on to the IO tasks, src/clib/pio_msg.c, and what both sides know
-- beside them.
use parallel_io.Base.{ℕ, Bool, false, ◌&&◌, ◌||◌, Option, List, leb, ◌==◌}
use parallel_io.Base.Int.{ℤ, pos, negsuc}

-- What a compute task has found out with other calls before it broadcasts.
pub record Inquired : Type 0 where
  pub atttype_len : ℤ
  pub memtype_len : ℕ
  pub att_iotype : ℤ
  pub att_type : ℤ
  pub attlen : ℤ
  pub type_size : ℕ
  pub var_ndims : ℕ
  pub num_elem : ℕ
  pub piotype_size : ℕ
  pub ncidp : Option (List ℤ)

-- The build and the IO task: which macros are defined, the size of a value of each decomposition (`none` for an
-- unknown id), the open files, and what the other bytes of an uninitialised `int` hold.
pub record Env : Type 0 where
  pub par_filters : Bool
  pub has_zstd : Bool
  pub has_quantize : Bool
  pub netcdf4 : Bool
  pub sizes : ℤ → Option ℕ
  pub is_open : ℤ → Bool
  pub other_bytes : ℤ

-- The types that the switch of get_vars_handler and of put_vars_handler has: NC_BYTE to NC_DOUBLE and
-- PIO_LONG_INTERNAL, and NC_UBYTE to NC_UINT64 when _NETCDF4 is defined.
abbrev pub has_case : Bool → ℤ → Bool
has_case netcdf4 (pos n) = (leb 1 n && leb n 6) || n == 13 || (netcdf4 && leb 7 n && leb n 11)
has_case netcdf4 (negsuc n) = false

-- The calls of PIOc_ functions. A Boolean says that the pointer with that name is not NULL. An Option is a
-- pointer and what it points to. `no_call` is a handler that makes none.
pub data Call : Type 0 where
  create_file : (filename : List ℤ) (iotype mode use_ext_ncid : ℤ) → Call
  open_file : (filename : List ℤ) (iotype mode use_ext_ncid : ℤ) → Call
  close_file : (ncid : ℤ) → Call
  delete_file : (filename : List ℤ) → Call
  sync_file : (ncid : ℤ) → Call
  enddef : (ncid : ℤ) → Call
  redef : (ncid : ℤ) → Call
  set_fill : (ncid fillmode : ℤ) (has_old_mode : Bool) → Call
  set_error_handling : (method : ℤ) (has_old_method : Bool) → Call
  set_log_level : (iosysid : ℤ) → Call
  set_chunk_cache : (iosysid iotype size nelems preemption : ℤ) → Call
  get_chunk_cache : (iosysid iotype : ℤ) (has_size has_nelems has_preemption : Bool) → Call
  free_iosystem : (iosysid : ℤ) → Call
  inq : (ncid : ℤ) (has_ndims has_nvars has_ngatts has_unlimdimid : Bool) → Call
  inq_unlimdims : (ncid : ℤ) (has_nunlimdims has_unlimdimids : Bool) → Call
  inq_type : (ncid xtype : ℤ) (has_name has_size : Bool) → Call
  inq_format : (ncid : ℤ) (has_format : Bool) → Call
  inq_dim : (ncid dimid : ℤ) (has_name has_len : Bool) → Call
  inq_dimid : (ncid : ℤ) (dim_name : List ℤ) (has_id : Bool) → Call
  rename_dim : (ncid dimid : ℤ) (dim_name : List ℤ) → Call
  def_dim : (ncid : ℤ) (dim_name : List ℤ) (len : ℤ) → Call
  inq_att : (ncid varid : ℤ) (att_name : List ℤ) (has_xtype has_len : Bool) (eh : ℤ) → Call
  inq_attname : (ncid varid attnum : ℤ) (has_name : Bool) → Call
  inq_attid : (ncid varid : ℤ) (att_name : List ℤ) (has_id : Bool) → Call
  rename_att : (ncid varid : ℤ) (att_name new_name : List ℤ) → Call
  del_att : (ncid varid : ℤ) (att_name : List ℤ) → Call
  put_att :
      (ncid varid : ℤ) (att_name : List ℤ) (atttype : ℤ) (len : ℕ) (memtype : ℤ) (op : List ℤ)
      → Call
  get_att : (ncid varid : ℤ) (att_name : List ℤ) (memtype : ℤ) → Call
  inq_var : (ncid varid : ℤ) (has_name has_xtype has_ndims has_dimids has_natts : Bool) → Call
  inq_varid : (ncid : ℤ) (var_name : List ℤ) → Call
  rename_var : (ncid varid : ℤ) (var_name : List ℤ) → Call
  def_var : (ncid : ℤ) (var_name : List ℤ) (xtype : ℤ) (ndims : ℕ) (dimids : List ℤ) → Call
  def_var_fill : (ncid varid fill_mode : ℤ) (fill_value : Option (List ℤ)) → Call
  inq_var_fill : (ncid varid : ℤ) (has_fill_mode has_fill_value : Bool) → Call
  def_var_chunking : (ncid varid storage : ℤ) (chunksizes : Option (List ℤ)) → Call
  inq_var_chunking : (ncid varid : ℤ) (has_storage has_chunksizes : Bool) → Call
  def_var_deflate : (ncid varid shuffle deflate deflate_level : ℤ) → Call
  inq_var_deflate : (ncid varid : ℤ) (shuffle deflate deflate_level : Option (List ℤ)) → Call
  def_var_endian : (ncid varid endian : ℤ) → Call
  inq_var_endian : (ncid varid : ℤ) (has_endian : Bool) → Call
  set_var_chunk_cache : (ncid varid size nelems preemption : ℤ) → Call
  get_var_chunk_cache : (ncid varid : ℤ) (has_size has_nelems has_preemption : Bool) → Call
  def_var_szip : (ncid varid options_mask pixels_per_block : ℤ) → Call
  def_var_bzip2 : (ncid varid level : ℤ) → Call
  inq_var_bzip2 : (ncid varid : ℤ) (has_hasfilter has_level : Bool) → Call
  def_var_zstandard : (ncid varid level : ℤ) → Call
  inq_var_zstandard : (ncid varid : ℤ) (has_hasfilter has_level : Bool) → Call
  def_var_filter : (ncid varid id : ℤ) (nparams : ℕ) (params : List ℤ) → Call
  inq_var_filter_ids : (ncid varid : ℤ) (has_nfilters has_ids : Bool) → Call
  inq_var_filter_info : (ncid varid id : ℤ) (has_nparams has_params : Bool) → Call
  inq_filter_avail : (ncid id : ℤ) → Call
  def_var_quantize : (ncid varid quantize_mode nsd : ℤ) → Call
  inq_var_quantize : (ncid varid : ℤ) (has_quantize_mode has_nsd : Bool) → Call
  get_vars : (ncid varid : ℤ) (start count stride : Option (List ℤ)) (xtype : ℤ) → Call
  put_vars :
      (ncid varid : ℤ) (start count stride : Option (List ℤ)) (xtype : ℤ) (buf : List ℤ) → Call
  set_frame : (ncid varid frame : ℤ) → Call
  advance_frame : (ncid varid : ℤ) → Call
  init_decomp :
      (iosysid pio_type : ℤ) (ndims : ℕ) (gdimlen : List ℤ) (maplen : ℕ) (compmap : List ℤ)
      (rearranger iostart iocount : Option (List ℤ))
      → Call
  free_decomp : (iosysid ioid : ℤ) → Call
  write_darray_multi :
      (ncid : ℤ) (nvars : ℕ) (varids : List ℤ) (ioid : ℤ) (arraylen : ℕ) (array : List ℤ)
      (frame fillvalue : Option (List ℤ)) (flushtodisk : ℤ)
      → Call
  read_darray : (ncid varid ioid arraylen : ℤ) → Call
  no_call : Call
