-- ===== src/Async/Handlers/Variables.antt =====
-- The handlers for variables, src/clib/pio_msg.c.
use parallel_io.Async.Wire.{
  Kind, Receiver, pure, ◌>>=◌, recv, recv_count, recv_array, recv_flag, recv_name, recv_if,
}
use parallel_io.Async.Calls.{Call}

unfoldable pub inq_var_handler : Receiver Call
inq_var_handler = do
  ncid ← recv Kind.int
  varid ← recv Kind.int
  has_name ← recv_flag Kind.char
  has_xtype ← recv_flag Kind.char
  has_ndims ← recv_flag Kind.char
  has_dimids ← recv_flag Kind.char
  has_natts ← recv_flag Kind.char
  pure (Call.inq_var ncid varid has_name has_xtype has_ndims has_dimids has_natts)

unfoldable pub inq_varid_handler : Receiver Call
inq_varid_handler = do
  ncid ← recv Kind.int
  var_name ← recv_name
  pure (Call.inq_varid ncid var_name)

unfoldable pub rename_var_handler : Receiver Call
rename_var_handler = do
  ncid ← recv Kind.int
  varid ← recv Kind.int
  var_name ← recv_name
  pure (Call.rename_var ncid varid var_name)

unfoldable pub def_var_handler : Receiver Call
def_var_handler = do
  ncid ← recv Kind.int
  var_name ← recv_name
  xtype ← recv Kind.int
  ndims ← recv_count Kind.int
  dimids ← recv_array Kind.int ndims
  pure (Call.def_var ncid var_name xtype ndims dimids)

unfoldable pub def_var_fill_handler : Receiver Call
def_var_fill_handler = do
  ncid ← recv Kind.int
  varid ← recv Kind.int
  fill_mode ← recv Kind.int
  type_size ← recv_count Kind.offset
  has_fill_value ← recv_flag Kind.char
  fill_value ← recv_if has_fill_value Kind.char type_size
  pure (Call.def_var_fill ncid varid fill_mode fill_value)

unfoldable pub inq_var_fill_handler : Receiver Call
inq_var_fill_handler = do
  ncid ← recv Kind.int
  varid ← recv Kind.int
  type_size ← recv_count Kind.offset
  has_fill_mode ← recv_flag Kind.char
  has_fill_value ← recv_flag Kind.char
  pure (Call.inq_var_fill ncid varid has_fill_mode has_fill_value)

unfoldable pub def_var_chunking_handler : Receiver Call
def_var_chunking_handler = do
  ncid ← recv Kind.int
  varid ← recv Kind.int
  storage ← recv Kind.int
  var_ndims ← recv_count Kind.int
  has_chunksizes ← recv_flag Kind.char
  chunksizes ← recv_if has_chunksizes Kind.offset var_ndims
  pure (Call.def_var_chunking ncid varid storage chunksizes)

unfoldable pub inq_var_chunking_handler : Receiver Call
inq_var_chunking_handler = do
  ncid ← recv Kind.int
  varid ← recv Kind.int
  has_storage ← recv_flag Kind.char
  var_ndims ← recv_count Kind.int
  has_chunksizes ← recv_flag Kind.char
  pure (Call.inq_var_chunking ncid varid has_storage has_chunksizes)

unfoldable pub def_var_deflate_handler : Receiver Call
def_var_deflate_handler = do
  ncid ← recv Kind.int
  varid ← recv Kind.int
  shuffle ← recv Kind.int
  deflate ← recv Kind.int
  deflate_level ← recv Kind.int
  pure (Call.def_var_deflate ncid varid shuffle deflate deflate_level)

unfoldable pub inq_var_deflate_handler : Receiver Call
inq_var_deflate_handler = do
  ncid ← recv Kind.int
  varid ← recv Kind.int
  has_shuffle ← recv_flag Kind.char
  shuffle ← recv_if has_shuffle Kind.int 1
  has_deflate ← recv_flag Kind.char
  deflate ← recv_if has_deflate Kind.int 1
  has_deflate_level ← recv_flag Kind.char
  deflate_level ← recv_if has_deflate_level Kind.int 1
  pure (Call.inq_var_deflate ncid varid shuffle deflate deflate_level)

unfoldable pub def_var_endian_handler : Receiver Call
def_var_endian_handler = do
  ncid ← recv Kind.int
  varid ← recv Kind.int
  endian ← recv Kind.int
  pure (Call.def_var_endian ncid varid endian)

unfoldable pub inq_var_endian_handler : Receiver Call
inq_var_endian_handler = do
  ncid ← recv Kind.int
  varid ← recv Kind.int
  has_endian ← recv_flag Kind.char
  pure (Call.inq_var_endian ncid varid has_endian)

unfoldable pub set_var_chunk_cache_handler : Receiver Call
set_var_chunk_cache_handler = do
  ncid ← recv Kind.int
  varid ← recv Kind.int
  size ← recv Kind.offset
  nelems ← recv Kind.offset
  preemption ← recv Kind.float
  pure (Call.set_var_chunk_cache ncid varid size nelems preemption)

unfoldable pub get_var_chunk_cache_handler : Receiver Call
get_var_chunk_cache_handler = do
  ncid ← recv Kind.int
  varid ← recv Kind.int
  has_size ← recv_flag Kind.char
  has_nelems ← recv_flag Kind.char
  has_preemption ← recv_flag Kind.char
  pure (Call.get_var_chunk_cache ncid varid has_size has_nelems has_preemption)
