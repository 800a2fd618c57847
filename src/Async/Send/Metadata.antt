-- ===== src/Async/Send/Metadata.antt =====
-- What the PIOc_ functions for files, dimensions and attributes broadcast to the IO tasks.
use parallel_io.Base.{ℕ, Bool, List, ◌∷◌}
use parallel_io.Base.Int.{ℤ, pos, to_int}
use parallel_io.Async.Wire.{Kind, Msg, Datum, sent, bcast, value, present, name}
use parallel_io.Async.Calls.{Inquired}

unfoldable pub inq_async :
    (ncid : ℤ) (has_ndims has_nvars has_ngatts has_unlimdimid : Bool) → List Datum → List Datum
inq_async ncid has_ndims has_nvars has_ngatts has_unlimdimid ds =
    sent Msg.inq
    ∷ value Kind.int ncid
    ∷ present Kind.char has_ndims
    ∷ present Kind.char has_nvars
    ∷ present Kind.char has_ngatts
    ∷ present Kind.char has_unlimdimid
    ∷ ds

unfoldable pub inq_unlimdims_async :
    (ncid : ℤ) (has_nunlimdims has_unlimdimids : Bool) → List Datum → List Datum
inq_unlimdims_async ncid has_nunlimdims has_unlimdimids ds =
    sent Msg.inq_unlimdims
    ∷ value Kind.int ncid
    ∷ present Kind.char has_nunlimdims
    ∷ present Kind.char has_unlimdimids
    ∷ ds

unfoldable pub inq_type_async :
    (ncid xtype : ℤ) (has_name has_size : Bool) → List Datum → List Datum
inq_type_async ncid xtype has_name has_size ds =
    sent Msg.inq_type
    ∷ value Kind.int ncid
    ∷ value Kind.int xtype
    ∷ present Kind.char has_name
    ∷ present Kind.char has_size
    ∷ ds

unfoldable pub inq_format_async : (ncid : ℤ) (has_format : Bool) → List Datum → List Datum
inq_format_async ncid has_format ds =
    sent Msg.inq_format ∷ value Kind.int ncid ∷ present Kind.char has_format ∷ ds

unfoldable pub inq_dim_async : (ncid dimid : ℤ) (has_name has_len : Bool) → List Datum → List Datum
inq_dim_async ncid dimid has_name has_len ds =
    sent Msg.inq_dim
    ∷ value Kind.int ncid
    ∷ value Kind.int dimid
    ∷ present Kind.char has_name
    ∷ present Kind.char has_len
    ∷ ds

unfoldable pub inq_dimid_async :
    (ncid : ℤ) (dim_name : List ℤ) (has_id : Bool) → List Datum → List Datum
inq_dimid_async ncid dim_name has_id ds =
    sent Msg.inq_dimid ∷ value Kind.int ncid ∷ name dim_name (present Kind.char has_id ∷ ds)

unfoldable pub rename_dim_async : (ncid dimid : ℤ) (dim_name : List ℤ) → List Datum → List Datum
rename_dim_async ncid dimid dim_name ds =
    sent Msg.rename_dim ∷ value Kind.int ncid ∷ value Kind.int dimid ∷ name dim_name ds

unfoldable pub def_dim_async : (ncid : ℤ) (dim_name : List ℤ) (len : ℤ) → List Datum → List Datum
def_dim_async ncid dim_name len ds =
    sent Msg.def_dim ∷ value Kind.int ncid ∷ name dim_name (value Kind.int (to_int len) ∷ ds)

unfoldable pub inq_att_async :
    (ncid varid : ℤ) (att_name : List ℤ) (has_xtype has_len : Bool) (eh : ℤ)
    → List Datum
    → List Datum
inq_att_async ncid varid att_name has_xtype has_len eh ds =
    sent Msg.inq_att
    ∷ value Kind.int ncid
    ∷ value Kind.int varid
    ∷ name att_name
        (present Kind.char has_xtype ∷ present Kind.char has_len ∷ value Kind.int eh ∷ ds)

unfoldable pub inq_attname_async :
    (ncid varid attnum : ℤ) (has_name : Bool) → List Datum → List Datum
inq_attname_async ncid varid attnum has_name ds =
    sent Msg.inq_attname
    ∷ value Kind.int ncid
    ∷ value Kind.int varid
    ∷ value Kind.int attnum
    ∷ present Kind.char has_name
    ∷ ds

unfoldable pub inq_attid_async :
    (ncid varid : ℤ) (att_name : List ℤ) (has_id : Bool) → List Datum → List Datum
inq_attid_async ncid varid att_name has_id ds =
    sent Msg.inq_attid
    ∷ value Kind.int ncid
    ∷ value Kind.int varid
    ∷ name att_name (present Kind.char has_id ∷ ds)

unfoldable pub rename_att_async :
    (ncid varid : ℤ) (att_name new_name : List ℤ) → List Datum → List Datum
rename_att_async ncid varid att_name new_name ds =
    sent Msg.rename_att
    ∷ value Kind.int ncid
    ∷ value Kind.int varid
    ∷ name att_name (name new_name ds)

unfoldable pub del_att_async : (ncid varid : ℤ) (att_name : List ℤ) → List Datum → List Datum
del_att_async ncid varid att_name ds =
    sent Msg.del_att ∷ value Kind.int ncid ∷ value Kind.int varid ∷ name att_name ds

unfoldable pub put_att_async :
    (k : Inquired) (ncid varid : ℤ) (att_name : List ℤ) (atttype : ℤ) (len : ℕ) (memtype : ℤ)
    (op : List ℤ)
    → List Datum
    → List Datum
put_att_async k ncid varid att_name atttype len memtype op ds =
    sent Msg.put_att
    ∷ value Kind.int ncid
    ∷ value Kind.int varid
    ∷ name att_name (
        value Kind.int atttype
        ∷ value Kind.offset (pos len)
        ∷ value Kind.offset k.atttype_len
        ∷ value Kind.int memtype
        ∷ value Kind.offset (pos k.memtype_len)
        ∷ bcast Kind.byte op
        ∷ ds)

unfoldable pub get_att_async :
    (k : Inquired) (ncid varid : ℤ) (att_name : List ℤ) (memtype : ℤ) → List Datum → List Datum
get_att_async k ncid varid att_name memtype ds =
    sent Msg.get_att
    ∷ value Kind.int ncid
    ∷ value Kind.int varid
    ∷ name att_name (
        value Kind.int k.att_iotype
        ∷ value Kind.int k.att_type
        ∷ value Kind.offset k.attlen
        ∷ value Kind.offset k.atttype_len
        ∷ value Kind.int memtype
        ∷ value Kind.offset (pos k.memtype_len)
        ∷ ds)
