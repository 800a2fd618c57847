-- ===== src/Async/Send/Files.antt =====
-- What the PIOc_ functions for files, IO systems and chunk caches broadcast to the IO tasks.
use parallel_io.Base.{Bool, List, ◌∷◌}
use parallel_io.Base.Int.{ℤ}
use parallel_io.Async.Wire.{Kind, Msg, Datum, sent, value, present, name, if_there, is_there}
use parallel_io.Async.Calls.{Inquired}

unfoldable pub create_file_async :
    (k : Inquired) (filename : List ℤ) (iotype mode use_ext_ncid : ℤ) → List Datum → List Datum
create_file_async k filename iotype mode use_ext_ncid ds =
    sent Msg.create_file
    ∷ name filename (
        value Kind.int iotype
        ∷ value Kind.int mode
        ∷ value Kind.int use_ext_ncid
        ∷ present Kind.char (is_there k.ncidp)
        ∷ if_there Kind.int k.ncidp ds)

unfoldable pub open_file_async :
    (filename : List ℤ) (iotype mode use_ext_ncid : ℤ) → List Datum → List Datum
open_file_async filename iotype mode use_ext_ncid ds =
    sent Msg.open_file
    ∷ name filename (value Kind.int iotype ∷ value Kind.int mode ∷ value Kind.int use_ext_ncid ∷ ds)

unfoldable pub close_file_async : (ncid : ℤ) → List Datum → List Datum
close_file_async ncid ds = sent Msg.close_file ∷ value Kind.int ncid ∷ ds

unfoldable pub delete_file_async : (filename : List ℤ) → List Datum → List Datum
delete_file_async filename ds = sent Msg.delete_file ∷ name filename ds

unfoldable pub sync_file_async : (ncid : ℤ) → List Datum → List Datum
sync_file_async ncid ds = sent Msg.sync_file ∷ value Kind.int ncid ∷ ds

unfoldable pub enddef_async : (ncid : ℤ) → List Datum → List Datum
enddef_async ncid ds = sent Msg.enddef ∷ value Kind.int ncid ∷ ds

unfoldable pub redef_async : (ncid : ℤ) → List Datum → List Datum
redef_async ncid ds = sent Msg.redef ∷ value Kind.int ncid ∷ ds

unfoldable pub set_fill_async : (ncid fillmode : ℤ) (has_old_mode : Bool) → List Datum → List Datum
set_fill_async ncid fillmode has_old_mode ds =
    sent Msg.set_fill
    ∷ value Kind.int ncid
    ∷ value Kind.int fillmode
    ∷ present Kind.int has_old_mode
    ∷ ds

unfoldable pub set_error_handling_async :
    (method : ℤ) (has_old_method : Bool) → List Datum → List Datum
set_error_handling_async method has_old_method ds =
    sent Msg.set_error_handling ∷ value Kind.int method ∷ present Kind.char has_old_method ∷ ds

unfoldable pub set_log_level_async : (iosysid : ℤ) → List Datum → List Datum
set_log_level_async iosysid ds = sent Msg.set_log_level ∷ value Kind.int iosysid ∷ ds

unfoldable pub set_chunk_cache_async :
    (iosysid iotype size nelems preemption : ℤ) → List Datum → List Datum
set_chunk_cache_async iosysid iotype size nelems preemption ds =
    sent Msg.set_chunk_cache
    ∷ value Kind.int iosysid
    ∷ value Kind.int iotype
    ∷ value Kind.offset size
    ∷ value Kind.offset nelems
    ∷ value Kind.float preemption
    ∷ ds

unfoldable pub get_chunk_cache_async :
    (iosysid iotype : ℤ) (has_size has_nelems has_preemption : Bool) → List Datum → List Datum
get_chunk_cache_async iosysid iotype has_size has_nelems has_preemption ds =
    sent Msg.get_chunk_cache
    ∷ value Kind.int iosysid
    ∷ value Kind.int iotype
    ∷ present Kind.char has_size
    ∷ present Kind.char has_nelems
    ∷ present Kind.char has_preemption
    ∷ ds

unfoldable pub free_iosystem_async : (iosysid : ℤ) → List Datum → List Datum
free_iosystem_async iosysid ds = sent Msg.free_iosystem ∷ value Kind.int iosysid ∷ ds
