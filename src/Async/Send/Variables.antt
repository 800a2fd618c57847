-- ===== src/Async/Send/Variables.antt =====
-- What the PIOc_ functions for variables broadcast to the IO tasks.
use parallel_io.Base.{ℕ, Bool, Option, List, ◌∷◌}
use parallel_io.Base.Int.{ℤ, pos}
use parallel_io.Async.Wire.{Kind, Msg, Datum, sent, bcast, value, present, name, if_there, is_there}
use parallel_io.Async.Calls.{Inquired}

unfoldable pub inq_var_async :
    (ncid varid : ℤ) (has_name has_xtype has_ndims has_dimids has_natts : Bool)
    → List Datum
    → List Datum
inq_var_async ncid varid has_name has_xtype has_ndims has_dimids has_natts ds =
    sent Msg.inq_var
    ∷ value Kind.int ncid
    ∷ value Kind.int varid
    ∷ present Kind.char has_name
    ∷ present Kind.char has_xtype
    ∷ present Kind.char has_ndims
    ∷ present Kind.char has_dimids
    ∷ present Kind.char has_natts
    ∷ ds

unfoldable pub inq_varid_async : (ncid : ℤ) (var_name : List ℤ) → List Datum → List Datum
inq_varid_async ncid var_name ds = sent Msg.inq_varid ∷ value Kind.int ncid ∷ name var_name ds

unfoldable pub rename_var_async : (ncid varid : ℤ) (var_name : List ℤ) → List Datum → List Datum
rename_var_async ncid varid var_name ds =
    sent Msg.rename_var ∷ value Kind.int ncid ∷ value Kind.int varid ∷ name var_name ds

unfoldable pub def_var_async :
    (ncid : ℤ) (var_name : List ℤ) (xtype : ℤ) (ndims : ℕ) (dimids : List ℤ)
    → List Datum
    → List Datum
def_var_async ncid var_name xtype ndims dimids ds =
    sent Msg.def_var
    ∷ value Kind.int ncid
    ∷ name var_name (value Kind.int xtype ∷ value Kind.int (pos ndims) ∷ bcast Kind.int dimids ∷ ds)

unfoldable pub def_var_fill_async :
    (k : Inquired) (ncid varid fill_mode : ℤ) (fill_value : Option (List ℤ))
    → List Datum
    → List Datum
def_var_fill_async k ncid varid fill_mode fill_value ds =
    sent Msg.def_var_fill
    ∷ value Kind.int ncid
    ∷ value Kind.int varid
    ∷ value Kind.int fill_mode
    ∷ value Kind.offset (pos k.type_size)
    ∷ present Kind.char (is_there fill_value)
    ∷ if_there Kind.char fill_value ds

unfoldable pub inq_var_fill_async :
    (k : Inquired) (ncid varid : ℤ) (has_fill_mode has_fill_value : Bool) → List Datum → List Datum
inq_var_fill_async k ncid varid has_fill_mode has_fill_value ds =
    sent Msg.inq_var_fill
    ∷ value Kind.int ncid
    ∷ value Kind.int varid
    ∷ value Kind.offset (pos k.type_size)
    ∷ present Kind.char has_fill_mode
    ∷ present Kind.char has_fill_value
    ∷ ds

unfoldable pub def_var_chunking_async :
    (k : Inquired) (ncid varid storage : ℤ) (chunksizes : Option (List ℤ)) → List Datum → List Datum
def_var_chunking_async k ncid varid storage chunksizes ds =
    sent Msg.def_var_chunking
    ∷ value Kind.int ncid
    ∷ value Kind.int varid
    ∷ value Kind.int storage
    ∷ value Kind.int (pos k.var_ndims)
    ∷ present Kind.char (is_there chunksizes)
    ∷ if_there Kind.offset chunksizes ds

unfoldable pub inq_var_chunking_async :
    (k : Inquired) (ncid varid : ℤ) (has_storage has_chunksizes : Bool) → List Datum → List Datum
inq_var_chunking_async k ncid varid has_storage has_chunksizes ds =
    sent Msg.inq_var_chunking
    ∷ value Kind.int ncid
    ∷ value Kind.int varid
    ∷ present Kind.char has_storage
    ∷ value Kind.int (pos k.var_ndims)
    ∷ present Kind.char has_chunksizes
    ∷ ds

unfoldable pub def_var_deflate_async :
    (ncid varid shuffle deflate deflate_level : ℤ) → List Datum → List Datum
def_var_deflate_async ncid varid shuffle deflate deflate_level ds =
    sent Msg.def_var_deflate
    ∷ value Kind.int ncid
    ∷ value Kind.int varid
    ∷ value Kind.int shuffle
    ∷ value Kind.int deflate
    ∷ value Kind.int deflate_level
    ∷ ds

unfoldable pub inq_var_deflate_async :
    (ncid varid : ℤ) (shuffle deflate deflate_level : Option (List ℤ)) → List Datum → List Datum
inq_var_deflate_async ncid varid shuffle deflate deflate_level ds =
    sent Msg.inq_var_deflate
    ∷ value Kind.int ncid
    ∷ value Kind.int varid
    ∷ present Kind.char (is_there shuffle)
    ∷ if_there Kind.int shuffle (
        present Kind.char (is_there deflate)
        ∷ if_there Kind.int deflate
            (present Kind.char (is_there deflate_level) ∷ if_there Kind.int deflate_level ds))

unfoldable pub def_var_endian_async : (ncid varid endian : ℤ) → List Datum → List Datum
def_var_endian_async ncid varid endian ds =
    sent Msg.def_var_endian
    ∷ value Kind.int ncid
    ∷ value Kind.int varid
    ∷ value Kind.int endian
    ∷ ds

unfoldable pub inq_var_endian_async : (ncid varid : ℤ) (has_endian : Bool) → List Datum → List Datum
inq_var_endian_async ncid varid has_endian ds =
    sent Msg.inq_var_endian
    ∷ value Kind.int ncid
    ∷ value Kind.int varid
    ∷ present Kind.char has_endian
    ∷ ds

unfoldable pub set_var_chunk_cache_async :
    (ncid varid size nelems preemption : ℤ) → List Datum → List Datum
set_var_chunk_cache_async ncid varid size nelems preemption ds =
    sent Msg.set_var_chunk_cache
    ∷ value Kind.int ncid
    ∷ value Kind.int varid
    ∷ value Kind.offset size
    ∷ value Kind.offset nelems
    ∷ value Kind.float preemption
    ∷ ds

unfoldable pub get_var_chunk_cache_async :
    (ncid varid : ℤ) (has_size has_nelems has_preemption : Bool) → List Datum → List Datum
get_var_chunk_cache_async ncid varid has_size has_nelems has_preemption ds =
    sent Msg.get_var_chunk_cache
    ∷ value Kind.int ncid
    ∷ value Kind.int varid
    ∷ present Kind.char has_size
    ∷ present Kind.char has_nelems
    ∷ present Kind.char has_preemption
    ∷ ds
