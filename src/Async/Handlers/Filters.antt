-- ===== src/Async/Handlers/Filters.antt =====
-- The handlers for filters, src/clib/pio_msg.c.
use parallel_io.Async.Wire.{
  Kind, Receiver, pure, ◌>>=◌, recv, recv_count, recv_array, recv_flag, recv_if,
}
use parallel_io.Async.Calls.{Call}

unfoldable pub inq_var_bzip2_handler : Receiver Call
inq_var_bzip2_handler = do
  ncid ← recv Kind.int
  varid ← recv Kind.int
  has_hasfilter ← recv_flag Kind.char
  has_level ← recv_flag Kind.char
  pure (Call.inq_var_bzip2 ncid varid has_hasfilter has_level)

unfoldable pub def_var_zstandard_handler : Receiver Call
def_var_zstandard_handler = do
  ncid ← recv Kind.int
  varid ← recv Kind.int
  level ← recv Kind.int
  pure (Call.def_var_zstandard ncid varid level)

unfoldable pub inq_var_zstandard_handler : Receiver Call
inq_var_zstandard_handler = do
  ncid ← recv Kind.int
  varid ← recv Kind.int
  has_hasfilter ← recv_flag Kind.char
  has_level ← recv_flag Kind.char
  pure (Call.inq_var_zstandard ncid varid has_hasfilter has_level)

unfoldable pub def_var_filter_handler : Receiver Call
def_var_filter_handler = do
  ncid ← recv Kind.int
  varid ← recv Kind.int
  id ← recv Kind.int
  nparams ← recv_count Kind.size_t
  params ← recv_array Kind.unsigned nparams
  pure (Call.def_var_filter ncid varid id nparams params)

unfoldable pub inq_var_filter_ids_handler : Receiver Call
inq_var_filter_ids_handler = do
  ncid ← recv Kind.int
  varid ← recv Kind.int
  has_nfilters ← recv_flag Kind.char
  has_ids ← recv_flag Kind.char
  size ← recv_if has_ids Kind.size_t 1
  pure (Call.inq_var_filter_ids ncid varid has_nfilters has_ids)

unfoldable pub inq_var_filter_info_handler : Receiver Call
inq_var_filter_info_handler = do
  ncid ← recv Kind.int
  varid ← recv Kind.int
  id ← recv Kind.unsigned
  has_nparams ← recv_flag Kind.char
  has_params ← recv_flag Kind.char
  size ← recv_if has_params Kind.size_t 1
  pure (Call.inq_var_filter_info ncid varid id has_nparams has_params)

unfoldable pub inq_filter_avail_handler : Receiver Call
inq_filter_avail_handler = do
  ncid ← recv Kind.int
  id ← recv Kind.int
  pure (Call.inq_filter_avail ncid id)

unfoldable pub def_var_quantize_handler : Receiver Call
def_var_quantize_handler = do
  ncid ← recv Kind.int
  varid ← recv Kind.int
  quantize_mode ← recv Kind.int
  nsd ← recv Kind.int
  pure (Call.def_var_quantize ncid varid quantize_mode nsd)

unfoldable pub inq_var_quantize_handler : Receiver Call
inq_var_quantize_handler = do
  ncid ← recv Kind.int
  varid ← recv Kind.int
  has_quantize_mode ← recv_flag Kind.char
  has_nsd ← recv_flag Kind.char
  pure (Call.inq_var_quantize ncid varid has_quantize_mode has_nsd)
