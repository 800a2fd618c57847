-- ===== src/Examples/Async.antt =====
-- Tests and instances for the messages of src/clib/pio_msg.c.
use parallel_io.Base.{◌≡◌, refl, true, false, none, some, List, [], ◌∷◌, map, if◌then◌else◌}
use parallel_io.Base.Int.{ℤ, pos, ◌==ℤ◌, to_int}
use parallel_io.Async.Wire.{
  recv_count, recv, ◌>>=◌, recv_array, recv_flag, recv_flag_into_int, c_string, recv_name, recv_if,
}
use parallel_io.Async.Calls.{Call, Inquired, Env}
use parallel_io.Async.Send.All.{send}
use parallel_io.Async.Dispatch.{handle_message, dispatch}
use parallel_io.Async.Handlers.Files.{finalize_handler}
use parallel_io.Async.Handlers.Metadata.{def_dim_handler, inq_dimid_handler}
use parallel_io.Async.Handlers.Data.{put_vars_handler}
use parallel_io.Async.Send.Files.{free_iosystem_async}
use parallel_io.Async.Send.Metadata.{def_dim_async, inq_dimid_async}
use parallel_io.Async.Send.Data.{put_vars_async}
use parallel_io.Async.Service.{Ending, service}
use parallel_io.Async.Sessions.{Session, broadcasts}
use parallel_io.Async.Unknown.{service-unknown}

-- A build without the filters of netCDF-4, one decomposition of 8-byte values, and one open file.
abbrev an_env : Env
an_env = record {
  par_filters = false;
  has_zstd = false;
  has_quantize = false;
  netcdf4 = true;
  sizes = λ ioid. if ioid ==ℤ pos 512 then some 8 else none;
  is_open = λ ncid. ncid ==ℤ pos 128;
  other_bytes = pos 0;
}

abbrev a_file : Inquired
a_file = record {
  ncidp = none;
  atttype_len = pos 0;
  memtype_len = 0;
  att_iotype = pos 0;
  att_type = pos 0;
  attlen = pos 0;
  type_size = 4;
  var_ndims = 2;
  num_elem = 2;
  piotype_size = 8;
}

-- "lat"
abbrev lat : List ℤ
lat = pos 108 ∷ pos 97 ∷ pos 116 ∷ []

abbrev put : Call
put =
    Call.put_vars (pos 128) (pos 0) (some (pos 0 ∷ pos 1 ∷ [])) (some (pos 1 ∷ pos 2 ∷ [])) none
      (pos 4) (pos 1 ∷ pos 0 ∷ pos 0 ∷ pos 0 ∷ pos 2 ∷ pos 0 ∷ pos 0 ∷ pos 0 ∷ [])

abbrev atmosphere : Session
atmosphere =
    (a_file, Call.def_dim (pos 128) lat (pos 90))
    ∷ (a_file, put)
    ∷ (a_file, Call.free_iosystem (pos 2048))
    ∷ []

abbrev ocean : Session
ocean = (a_file, Call.def_var_szip (pos 144) (pos 1) (pos 4) (pos 8)) ∷ []

abbrev land : Session
land = (a_file, Call.inq_dimid (pos 144) lat true) ∷ (a_file, Call.free_iosystem (pos 2049)) ∷ []

-- The two components by turns.
service_by_turns :
    service an_env (1 ∷ 0 ∷ 0 ∷ 1 ∷ 0 ∷ []) 2 (map broadcasts (atmosphere ∷ land ∷ [])) ≡ (
      (1, Call.inq_dimid (pos 144) lat true)
          ∷ (0, Call.def_dim (pos 128) lat (pos 90))
          ∷ (0, put)
          ∷ (1, Call.free_iosystem (pos 2049))
          ∷ (0, Call.free_iosystem (pos 2048))
          ∷ [],
      Ending.finalized,
    )
unfolding recv recv_count service send handle_message dispatch finalize_handler def_dim_handler
    inq_dimid_handler put_vars_handler free_iosystem_async def_dim_async inq_dimid_async
    put_vars_async ◌>>=◌ recv_array recv_flag recv_flag_into_int c_string recv_name recv_if to_int
service_by_turns = refl

service-unknown_example :
    service an_env (1 ∷ 0 ∷ []) 2 (map broadcasts (atmosphere ∷ ocean ∷ []))
    ≡ ([], Ending.unknown_message)
service-unknown_example = service-unknown an_env (atmosphere ∷ ocean ∷ []) 1 (0 ∷ []) 2 refl refl
