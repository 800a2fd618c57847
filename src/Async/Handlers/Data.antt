-- ===== src/Async/Handlers/Data.antt =====
-- The handlers for data, frames and decompositions, src/clib/pio_msg.c.
use parallel_io.Base.{ℕ, ◌*◌, Bool, Option, if◌then◌else◌}
use parallel_io.Base.Int.{ℤ}
use parallel_io.Async.Wire.{
  Kind, Receiver, pure, ◌>>=◌, recv, recv_count, recv_array, recv_flag, recv_if, lift, require,
}
use parallel_io.Async.Calls.{Call, has_case}

-- PIOc_get_vars_int and the like, each of which is PIOc_get_vars_tc with its type.
unfoldable pub get_vars_handler : (netcdf4 : Bool) → Receiver Call
get_vars_handler netcdf4 = do
  ncid ← recv Kind.int
  varid ← recv Kind.int
  var_ndims ← recv_count Kind.int
  has_start ← recv_flag Kind.char
  start ← recv_if has_start Kind.offset var_ndims
  has_count ← recv_flag Kind.char
  count ← recv_if has_count Kind.offset var_ndims
  has_stride ← recv_flag Kind.char
  stride ← recv_if has_stride Kind.offset var_ndims
  xtype ← recv Kind.int
  num_elem ← recv_count Kind.offset
  type_size ← recv_count Kind.offset
  pure (
      if has_case netcdf4 xtype
      then Call.get_vars ncid varid start count stride xtype
      else Call.no_call)

unfoldable pub put_vars_handler : (netcdf4 : Bool) → Receiver Call
put_vars_handler netcdf4 = do
  ncid ← recv Kind.int
  varid ← recv Kind.int
  var_ndims ← recv_count Kind.int
  has_start ← recv_flag Kind.char
  start ← recv_if has_start Kind.offset var_ndims
  has_count ← recv_flag Kind.char
  count ← recv_if has_count Kind.offset var_ndims
  has_stride ← recv_flag Kind.char
  stride ← recv_if has_stride Kind.offset var_ndims
  xtype ← recv Kind.int
  num_elem ← recv_count Kind.offset
  type_size ← recv_count Kind.offset
  buf ← recv_array Kind.byte (num_elem * type_size)
  pure (
      if has_case netcdf4 xtype
      then Call.put_vars ncid varid start count stride xtype buf
      else Call.no_call)

unfoldable pub setframe_handler : Receiver Call
setframe_handler = do
  ncid ← recv Kind.int
  varid ← recv Kind.int
  frame ← recv Kind.int
  pure (Call.set_frame ncid varid frame)

unfoldable pub advanceframe_handler : Receiver Call
advanceframe_handler = do
  ncid ← recv Kind.int
  varid ← recv Kind.int
  pure (Call.advance_frame ncid varid)

unfoldable pub initdecomp_dof_handler : Receiver Call
initdecomp_dof_handler = do
  iosysid ← recv Kind.int
  pio_type ← recv Kind.int
  ndims ← recv_count Kind.int
  gdimlen ← recv_array Kind.int ndims
  maplen ← recv_count Kind.int
  compmap ← recv_array Kind.offset maplen
  has_rearranger ← recv_flag Kind.char
  rearranger ← recv_if has_rearranger Kind.int 1
  has_iostart ← recv_flag Kind.char
  iostart ← recv_if has_iostart Kind.offset ndims
  has_iocount ← recv_flag Kind.char
  iocount ← recv_if has_iocount Kind.offset ndims
  pure (Call.init_decomp iosysid pio_type ndims gdimlen maplen compmap rearranger iostart iocount)

unfoldable pub freedecomp_handler : Receiver Call
freedecomp_handler = do
  iosysid ← recv Kind.int
  ioid ← recv Kind.int
  pure (Call.free_decomp iosysid ioid)

unfoldable pub write_darray_multi_handler :
    (sizes : ℤ → Option ℕ) (is_open : ℤ → Bool) → Receiver Call
write_darray_multi_handler sizes is_open = do
  ncid ← recv Kind.int
  nvars ← recv_count Kind.int
  varids ← recv_array Kind.int nvars
  ioid ← recv Kind.int
  piotype_size ← lift (sizes ioid)
  arraylen ← recv_count Kind.offset
  array ← recv_array Kind.char (arraylen * piotype_size)
  has_frame ← recv_flag Kind.char
  frame ← recv_if has_frame Kind.int nvars
  has_fillvalue ← recv_flag Kind.char
  fillvalue ← recv_if has_fillvalue Kind.char (nvars * piotype_size)
  flushtodisk ← recv Kind.int
  _ ← require (is_open ncid)
  pure (Call.write_darray_multi ncid nvars varids ioid arraylen array frame fillvalue flushtodisk)

unfoldable pub read_darray_handler : Receiver Call
read_darray_handler = do
  ncid ← recv Kind.int
  varid ← recv Kind.int
  ioid ← recv Kind.int
  arraylen ← recv Kind.offset
  pure (Call.read_darray ncid varid ioid arraylen)
