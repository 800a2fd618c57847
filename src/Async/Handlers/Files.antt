-- ===== src/Async/Handlers/Files.antt =====
-- The handlers for files, IO systems and chunk caches, src/clib/pio_msg.c.
use parallel_io.Base.{if◌then◌else◌}
use parallel_io.Base.Int.{ℤ, pos, ◌==ℤ◌}
use parallel_io.Async.Wire.{
  Kind, Msg, Receiver, pure, ◌>>=◌, recv, recv_flag, recv_flag_into_int, recv_name, recv_if,
}
use parallel_io.Async.Calls.{Call}

abbrev change_def : Msg → ℤ → Call
change_def Msg.enddef ncid = Call.enddef ncid
change_def m ncid = Call.redef ncid

-- As built without NETCDF_INTEGRATION: with `use_ext_ncid` no call is made.
unfoldable pub create_file_handler : Receiver Call
create_file_handler = do
  filename ← recv_name
  iotype ← recv Kind.int
  mode ← recv Kind.int
  use_ext_ncid ← recv Kind.int
  has_ncidp ← recv_flag Kind.char
  ncidp ← recv_if has_ncidp Kind.int 1
  pure (
      if use_ext_ncid ==ℤ pos 0
      then Call.create_file filename iotype mode use_ext_ncid
      else Call.no_call)

unfoldable pub open_file_handler : Receiver Call
open_file_handler = do
  filename ← recv_name
  iotype ← recv Kind.int
  mode ← recv Kind.int
  use_ext_ncid ← recv Kind.int
  pure (
      if use_ext_ncid ==ℤ pos 0
      then Call.open_file filename iotype mode use_ext_ncid
      else Call.no_call)

unfoldable pub close_file_handler : Receiver Call
close_file_handler = do ncid ← recv Kind.int; pure (Call.close_file ncid)

unfoldable pub delete_file_handler : Receiver Call
delete_file_handler = do filename ← recv_name; pure (Call.delete_file filename)

unfoldable pub sync_file_handler : Receiver Call
sync_file_handler = do ncid ← recv Kind.int; pure (Call.sync_file ncid)

unfoldable pub change_def_file_handler : (msg : Msg) → Receiver Call
change_def_file_handler msg = do ncid ← recv Kind.int; pure (change_def msg ncid)

unfoldable pub set_fill_handler : Receiver Call
set_fill_handler = do
  ncid ← recv Kind.int
  fillmode ← recv Kind.int
  has_old_mode ← recv_flag Kind.int
  pure (Call.set_fill ncid fillmode has_old_mode)

unfoldable pub seterrorhandling_handler : (other_bytes : ℤ) → Receiver Call
seterrorhandling_handler other_bytes = do
  method ← recv Kind.int
  has_old_method ← recv_flag_into_int other_bytes
  pure (Call.set_error_handling method has_old_method)

-- As built with PIO_ENABLE_LOGGING.
unfoldable pub set_loglevel_handler : Receiver Call
set_loglevel_handler = do iosysid ← recv Kind.int; pure (Call.set_log_level iosysid)

unfoldable pub set_chunk_cache_handler : Receiver Call
set_chunk_cache_handler = do
  iosysid ← recv Kind.int
  iotype ← recv Kind.int
  size ← recv Kind.offset
  nelems ← recv Kind.offset
  preemption ← recv Kind.float
  pure (Call.set_chunk_cache iosysid iotype size nelems preemption)

unfoldable pub get_chunk_cache_handler : Receiver Call
get_chunk_cache_handler = do
  iosysid ← recv Kind.int
  iotype ← recv Kind.int
  has_size ← recv_flag Kind.char
  has_nelems ← recv_flag Kind.char
  has_preemption ← recv_flag Kind.char
  pure (Call.get_chunk_cache iosysid iotype has_size has_nelems has_preemption)

unfoldable pub finalize_handler : Receiver Call
finalize_handler = do iosysid ← recv Kind.int; pure (Call.free_iosystem iosysid)
