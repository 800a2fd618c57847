-- ===== src/Async/Send/Data.antt =====
-- What the PIOc_ functions for data, frames and decompositions broadcast to the IO tasks.
use parallel_io.Base.{ℕ, Option, List, ◌∷◌}
use parallel_io.Base.Int.{ℤ, pos}
use parallel_io.Async.Wire.{Kind, Msg, Datum, sent, bcast, value, present, if_there, is_there}
use parallel_io.Async.Calls.{Inquired}

-- The type is the one that is transferred, NC_NAT having been replaced.
unfoldable pub get_vars_async :
    (k : Inquired) (ncid varid : ℤ) (start count stride : Option (List ℤ)) (xtype : ℤ)
    → List Datum
    → List Datum
get_vars_async k ncid varid start count stride xtype ds =
    sent Msg.get_vars
    ∷ value Kind.int ncid
    ∷ value Kind.int varid
    ∷ value Kind.int (pos k.var_ndims)
    ∷ present Kind.char (is_there start)
    ∷ if_there Kind.offset start (
        present Kind.char (is_there count)
        ∷ if_there Kind.offset count (
            present Kind.char (is_there stride)
            ∷ if_there Kind.offset stride (
                value Kind.int xtype
                ∷ value Kind.offset (pos k.num_elem)
                ∷ value Kind.offset (pos k.type_size)
                ∷ ds)))

unfoldable pub put_vars_async :
    (k : Inquired) (ncid varid : ℤ) (start count stride : Option (List ℤ)) (xtype : ℤ)
    (buf : List ℤ)
    → List Datum
    → List Datum
put_vars_async k ncid varid start count stride xtype buf ds =
    sent Msg.put_vars
    ∷ value Kind.int ncid
    ∷ value Kind.int varid
    ∷ value Kind.int (pos k.var_ndims)
    ∷ present Kind.char (is_there start)
    ∷ if_there Kind.offset start (
        present Kind.char (is_there count)
        ∷ if_there Kind.offset count (
            present Kind.char (is_there stride)
            ∷ if_there Kind.offset stride (
                value Kind.int xtype
                ∷ value Kind.offset (pos k.num_elem)
                ∷ value Kind.offset (pos k.type_size)
                ∷ bcast Kind.byte buf
                ∷ ds)))

unfoldable pub set_frame_async : (ncid varid frame : ℤ) → List Datum → List Datum
set_frame_async ncid varid frame ds =
    sent Msg.set_frame ∷ value Kind.int ncid ∷ value Kind.int varid ∷ value Kind.int frame ∷ ds

unfoldable pub advance_frame_async : (ncid varid : ℤ) → List Datum → List Datum
advance_frame_async ncid varid ds =
    sent Msg.advance_frame ∷ value Kind.int ncid ∷ value Kind.int varid ∷ ds

unfoldable pub init_decomp_async :
    (iosysid pio_type : ℤ) (ndims : ℕ) (gdimlen : List ℤ) (maplen : ℕ) (compmap : List ℤ)
    (rearranger iostart iocount : Option (List ℤ))
    → List Datum
    → List Datum
init_decomp_async iosysid pio_type ndims gdimlen maplen compmap rearranger iostart iocount ds =
    sent Msg.init_decomp
    ∷ value Kind.int iosysid
    ∷ value Kind.int pio_type
    ∷ value Kind.int (pos ndims)
    ∷ bcast Kind.int gdimlen
    ∷ value Kind.int (pos maplen)
    ∷ bcast Kind.offset compmap
    ∷ present Kind.char (is_there rearranger)
    ∷ if_there Kind.int rearranger (
        present Kind.char (is_there iostart)
        ∷ if_there Kind.offset iostart
            (present Kind.char (is_there iocount) ∷ if_there Kind.offset iocount ds))

unfoldable pub free_decomp_async : (iosysid ioid : ℤ) → List Datum → List Datum
free_decomp_async iosysid ioid ds =
    sent Msg.free_decomp ∷ value Kind.int iosysid ∷ value Kind.int ioid ∷ ds

unfoldable pub write_darray_multi_async :
    (k : Inquired) (ncid : ℤ) (nvars : ℕ) (varids : List ℤ) (ioid : ℤ) (arraylen : ℕ)
    (array : List ℤ) (frame fillvalue : Option (List ℤ)) (flushtodisk : ℤ)
    → List Datum
    → List Datum
write_darray_multi_async k ncid nvars varids ioid arraylen array frame fillvalue flushtodisk ds =
    sent Msg.write_darray_multi
    ∷ value Kind.int ncid
    ∷ value Kind.int (pos nvars)
    ∷ bcast Kind.int varids
    ∷ value Kind.int ioid
    ∷ value Kind.offset (pos arraylen)
    ∷ bcast Kind.char array
    ∷ present Kind.char (is_there frame)
    ∷ if_there Kind.int frame (
        present Kind.char (is_there fillvalue)
        ∷ if_there Kind.char fillvalue (value Kind.int flushtodisk ∷ ds))

unfoldable pub read_darray_async : (ncid varid ioid arraylen : ℤ) → List Datum → List Datum
read_darray_async ncid varid ioid arraylen ds =
    sent Msg.read_darray
    ∷ value Kind.int ncid
    ∷ value Kind.int varid
    ∷ value Kind.int ioid
    ∷ value Kind.offset arraylen
    ∷ ds
