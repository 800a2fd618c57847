-- ===== src/Async/RoundTrip/Files.antt =====
-- The handlers for files, IO systems and chunk caches make the calls that were broadcast.
use parallel_io.Base.{◌≡◌, refl, Bool, true, ◌||◌, not, some, List}
use parallel_io.Base.Int.{ℤ, pos, ◌==ℤ◌}
use parallel_io.Async.Wire.{Kind, Datum, NoNul, HasLength}
use parallel_io.Async.Receive.{
  receive_laws, bind-recv_name, bind-recv_flag_into_int, bind-recv_if, bind-some,
}
use parallel_io.Async.Calls.{Call, Inquired, Env}
use parallel_io.Async.Dispatch.{handle_message, dispatch}
use parallel_io.Async.Handlers.Files.{
  create_file_handler, open_file_handler, close_file_handler, delete_file_handler,
  sync_file_handler, change_def_file_handler, set_fill_handler, seterrorhandling_handler,
  set_loglevel_handler, set_chunk_cache_handler, get_chunk_cache_handler, finalize_handler,
}
use parallel_io.Async.Send.Files.{
  create_file_async, open_file_async, close_file_async, delete_file_async, sync_file_async,
  enddef_async, redef_async, set_fill_async, set_error_handling_async, set_log_level_async,
  set_chunk_cache_async, get_chunk_cache_async, free_iosystem_async,
}

pub handle_message-create_file :
    (e : Env) (k : Inquired) (filename : List ℤ) (iotype mode use_ext_ncid : ℤ) (ds : List Datum)
    → NoNul filename
    → HasLength k.ncidp 1
    → (use_ext_ncid ==ℤ pos 0) ≡ true
    → handle_message e (create_file_async k filename iotype mode use_ext_ncid ds)
      ≡ some (some (Call.create_file filename iotype mode use_ext_ncid), ds)
unfolding handle_message dispatch create_file_handler create_file_async
handle_message-create_file e k filename iotype mode use_ext_ncid ds hfilename hncidp hcall =
    bind-some _ _
      (simp (
        receive_laws,
        bind-recv_name filename hfilename,
        bind-recv_if Kind.int k.ncidp 1 hncidp,
        hcall,
      ))
      refl

pub handle_message-open_file :
    (e : Env) (filename : List ℤ) (iotype mode use_ext_ncid : ℤ) (ds : List Datum)
    → NoNul filename
    → (use_ext_ncid ==ℤ pos 0) ≡ true
    → handle_message e (open_file_async filename iotype mode use_ext_ncid ds)
      ≡ some (some (Call.open_file filename iotype mode use_ext_ncid), ds)
unfolding handle_message dispatch open_file_handler open_file_async
handle_message-open_file e filename iotype mode use_ext_ncid ds hfilename hcall =
    bind-some _ _ (simp (receive_laws, bind-recv_name filename hfilename, hcall)) refl

pub handle_message-close_file :
    (e : Env) (ncid : ℤ) (ds : List Datum)
    → handle_message e (close_file_async ncid ds) ≡ some (some (Call.close_file ncid), ds)
unfolding handle_message dispatch close_file_handler close_file_async
handle_message-close_file e ncid ds = bind-some _ _ (simp (receive_laws)) refl

pub handle_message-delete_file :
    (e : Env) (filename : List ℤ) (ds : List Datum)
    → NoNul filename
    → handle_message e (delete_file_async filename ds) ≡ some (some (Call.delete_file filename), ds)
unfolding handle_message dispatch delete_file_handler delete_file_async
handle_message-delete_file e filename ds hfilename =
    bind-some _ _ (simp (bind-recv_name filename hfilename)) refl

pub handle_message-sync_file :
    (e : Env) (ncid : ℤ) (ds : List Datum)
    → handle_message e (sync_file_async ncid ds) ≡ some (some (Call.sync_file ncid), ds)
unfolding handle_message dispatch sync_file_handler sync_file_async
handle_message-sync_file e ncid ds = bind-some _ _ (simp (receive_laws)) refl

pub handle_message-enddef :
    (e : Env) (ncid : ℤ) (ds : List Datum)
    → handle_message e (enddef_async ncid ds) ≡ some (some (Call.enddef ncid), ds)
unfolding handle_message dispatch change_def_file_handler enddef_async
handle_message-enddef e ncid ds = bind-some _ _ (simp (receive_laws)) refl

pub handle_message-redef :
    (e : Env) (ncid : ℤ) (ds : List Datum)
    → handle_message e (redef_async ncid ds) ≡ some (some (Call.redef ncid), ds)
unfolding handle_message dispatch change_def_file_handler redef_async
handle_message-redef e ncid ds = bind-some _ _ (simp (receive_laws)) refl

pub handle_message-set_fill :
    (e : Env) (ncid fillmode : ℤ) (has_old_mode : Bool) (ds : List Datum)
    → handle_message e (set_fill_async ncid fillmode has_old_mode ds)
      ≡ some (some (Call.set_fill ncid fillmode has_old_mode), ds)
unfolding handle_message dispatch set_fill_handler set_fill_async
handle_message-set_fill e ncid fillmode has_old_mode ds = bind-some _ _ (simp (receive_laws)) refl

pub handle_message-set_error_handling :
    (e : Env) (method : ℤ) (has_old_method : Bool) (ds : List Datum)
    → (has_old_method || not (e.other_bytes ==ℤ pos 0)) ≡ has_old_method
    → handle_message e (set_error_handling_async method has_old_method ds)
      ≡ some (some (Call.set_error_handling method has_old_method), ds)
unfolding handle_message dispatch seterrorhandling_handler set_error_handling_async
handle_message-set_error_handling e method has_old_method ds hhas_old_method =
    bind-some _ _ {ds' = ds} {a = Call.set_error_handling method has_old_method}
      (simp (receive_laws, bind-recv_flag_into_int {B = Call} e.other_bytes hhas_old_method)) refl

pub handle_message-set_log_level :
    (e : Env) (iosysid : ℤ) (ds : List Datum)
    → handle_message e (set_log_level_async iosysid ds)
      ≡ some (some (Call.set_log_level iosysid), ds)
unfolding handle_message dispatch set_loglevel_handler set_log_level_async
handle_message-set_log_level e iosysid ds = bind-some _ _ (simp (receive_laws)) refl

pub handle_message-set_chunk_cache :
    (e : Env) (iosysid iotype size nelems preemption : ℤ) (ds : List Datum)
    → handle_message e (set_chunk_cache_async iosysid iotype size nelems preemption ds)
      ≡ some (some (Call.set_chunk_cache iosysid iotype size nelems preemption), ds)
unfolding handle_message dispatch set_chunk_cache_handler set_chunk_cache_async
handle_message-set_chunk_cache e iosysid iotype size nelems preemption ds =
    bind-some _ _ (simp (receive_laws)) refl

pub handle_message-get_chunk_cache :
    (e : Env) (iosysid iotype : ℤ) (has_size has_nelems has_preemption : Bool) (ds : List Datum)
    → handle_message e (get_chunk_cache_async iosysid iotype has_size has_nelems has_preemption ds)
      ≡ some (some (Call.get_chunk_cache iosysid iotype has_size has_nelems has_preemption), ds)
unfolding handle_message dispatch get_chunk_cache_handler get_chunk_cache_async
handle_message-get_chunk_cache e iosysid iotype has_size has_nelems has_preemption ds =
    bind-some _ _ (simp (receive_laws)) refl

pub handle_message-free_iosystem :
    (e : Env) (iosysid : ℤ) (ds : List Datum)
    → handle_message e (free_iosystem_async iosysid ds)
      ≡ some (some (Call.free_iosystem iosysid), ds)
unfolding handle_message dispatch finalize_handler free_iosystem_async
handle_message-free_iosystem e iosysid ds = bind-some _ _ (simp (receive_laws)) refl
