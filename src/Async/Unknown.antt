-- ===== src/Async/Unknown.antt =====
-- Messages that are sent but have no case in the switch of pio_msg_handler2, src/clib/pio_msg.c.
use parallel_io.Base.{ℕ, ◌≡◌, refl, Bool, true, false, none, some, List, [], ◌∷◌, map, get_elem?}
use parallel_io.Async.Wire.{Datum}
use parallel_io.Async.Calls.{Call, Inquired, Env}
use parallel_io.Async.Send.Filters.{def_var_szip_async, def_var_bzip2_async, inq_var_bzip2_async}
use parallel_io.Async.Send.All.{send}
use parallel_io.Async.Dispatch.{handle_message, dispatch}
use parallel_io.Async.Service.{Ending, service}
use parallel_io.Async.Sessions.{Session, broadcasts, get_elem?-map}

abbrev pub is_undispatched : Call → Bool
is_undispatched (Call.def_var_szip ncid varid options_mask pixels_per_block) = true
is_undispatched (Call.def_var_bzip2 ncid varid level) = true
is_undispatched (Call.inq_var_bzip2 ncid varid has_hasfilter has_level) = true
is_undispatched c = false

handle_message-unknown :
    (e : Env) (k : Inquired) (c : Call) (ds : List Datum)
    → is_undispatched c ≡ true
    → (rest : List Datum) × (handle_message e (send k c ds) ≡ some (none, rest))
unfolding handle_message dispatch send def_var_szip_async def_var_bzip2_async inq_var_bzip2_async
handle_message-unknown e k (Call.def_var_szip ncid varid options_mask pixels_per_block) ds h =
    (_, refl)
handle_message-unknown e k (Call.def_var_bzip2 ncid varid level) ds h = (_, refl)
handle_message-unknown e k (Call.inq_var_bzip2 ncid varid has_hasfilter has_level) ds h = (_, refl)
handle_message-unknown e k c ds h = cc

-- When the message that is found is of PIOc_def_var_szip, PIOc_def_var_bzip2 or PIOc_inq_var_bzip2, the loop ends at
-- once with an unknown message, in every build and whatever the other components have left to do.
pub service-unknown :
    (e : Env) (ss : List Session) (i : ℕ) {k : Inquired} {c : Call} {s : Session} (order : List ℕ)
    (n : ℕ)
    → get_elem? ss i ≡ some ((k, c) ∷ s)
    → is_undispatched c ≡ true
    → service e (i ∷ order) n (map broadcasts ss) ≡ ([], Ending.unknown_message)
unfolding service
service-unknown e ss i {k = k} {c = c} {s = s} order n h undispatched =
    let (rest, e') = handle_message-unknown e k c (broadcasts s) undispatched in
    rw (get_elem?-map ss i h, service) (rw (e', service) refl)
