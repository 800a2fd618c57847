-- ===== src/Async/Send/Filters.antt =====
-- What the PIOc_ functions for filters broadcast to the IO tasks.
use parallel_io.Base.{ℕ, Bool, List, ◌∷◌}
use parallel_io.Base.Int.{ℤ, pos}
use parallel_io.Async.Wire.{Kind, Msg, Datum, sent, bcast, value, present, if_flag, pointer_size}

unfoldable pub def_var_szip_async :
    (ncid varid options_mask pixels_per_block : ℤ) → List Datum → List Datum
def_var_szip_async ncid varid options_mask pixels_per_block ds =
    sent Msg.def_var_szip
    ∷ value Kind.int ncid
    ∷ value Kind.int varid
    ∷ value Kind.int options_mask
    ∷ value Kind.int pixels_per_block
    ∷ ds

unfoldable pub def_var_bzip2_async : (ncid varid level : ℤ) → List Datum → List Datum
def_var_bzip2_async ncid varid level ds =
    sent Msg.def_var_bzip2 ∷ value Kind.int ncid ∷ value Kind.int varid ∷ value Kind.int level ∷ ds

unfoldable pub inq_var_bzip2_async :
    (ncid varid : ℤ) (has_hasfilter has_level : Bool) → List Datum → List Datum
inq_var_bzip2_async ncid varid has_hasfilter has_level ds =
    sent Msg.inq_var_bzip2
    ∷ value Kind.int ncid
    ∷ value Kind.int varid
    ∷ present Kind.char has_hasfilter
    ∷ present Kind.char has_level
    ∷ ds

unfoldable pub def_var_zstandard_async : (ncid varid level : ℤ) → List Datum → List Datum
def_var_zstandard_async ncid varid level ds =
    sent Msg.def_var_zstandard
    ∷ value Kind.int ncid
    ∷ value Kind.int varid
    ∷ value Kind.int level
    ∷ ds

unfoldable pub inq_var_zstandard_async :
    (ncid varid : ℤ) (has_hasfilter has_level : Bool) → List Datum → List Datum
inq_var_zstandard_async ncid varid has_hasfilter has_level ds =
    sent Msg.inq_var_zstandard
    ∷ value Kind.int ncid
    ∷ value Kind.int varid
    ∷ present Kind.char has_hasfilter
    ∷ present Kind.char has_level
    ∷ ds

unfoldable pub def_var_filter_async :
    (ncid varid id : ℤ) (nparams : ℕ) (params : List ℤ) → List Datum → List Datum
def_var_filter_async ncid varid id nparams params ds =
    sent Msg.def_var_filter
    ∷ value Kind.int ncid
    ∷ value Kind.int varid
    ∷ value Kind.int id
    ∷ value Kind.size_t (pos nparams)
    ∷ bcast Kind.unsigned params
    ∷ ds

unfoldable pub inq_var_filter_ids_async :
    (ncid varid : ℤ) (has_nfilters has_ids : Bool) → List Datum → List Datum
inq_var_filter_ids_async ncid varid has_nfilters has_ids ds =
    sent Msg.inq_var_filter_ids
    ∷ value Kind.int ncid
    ∷ value Kind.int varid
    ∷ present Kind.char has_nfilters
    ∷ present Kind.char has_ids
    ∷ if_flag Kind.size_t pointer_size has_ids ds

unfoldable pub inq_var_filter_info_async :
    (ncid varid id : ℤ) (has_nparams has_params : Bool) → List Datum → List Datum
inq_var_filter_info_async ncid varid id has_nparams has_params ds =
    sent Msg.inq_var_filter_info
    ∷ value Kind.int ncid
    ∷ value Kind.int varid
    ∷ value Kind.unsigned id
    ∷ present Kind.char has_nparams
    ∷ present Kind.char has_params
    ∷ if_flag Kind.size_t pointer_size has_params ds

unfoldable pub inq_filter_avail_async : (ncid id : ℤ) → List Datum → List Datum
inq_filter_avail_async ncid id ds =
    sent Msg.inq_filter_avail ∷ value Kind.int ncid ∷ value Kind.int id ∷ ds

unfoldable pub def_var_quantize_async : (ncid varid quantize_mode nsd : ℤ) → List Datum → List Datum
def_var_quantize_async ncid varid quantize_mode nsd ds =
    sent Msg.def_var_quantize
    ∷ value Kind.int ncid
    ∷ value Kind.int varid
    ∷ value Kind.int quantize_mode
    ∷ value Kind.int nsd
    ∷ ds

unfoldable pub inq_var_quantize_async :
    (ncid varid : ℤ) (has_quantize_mode has_nsd : Bool) → List Datum → List Datum
inq_var_quantize_async ncid varid has_quantize_mode has_nsd ds =
    sent Msg.inq_var_quantize
    ∷ value Kind.int ncid
    ∷ value Kind.int varid
    ∷ present Kind.char has_quantize_mode
    ∷ present Kind.char has_nsd
    ∷ ds
