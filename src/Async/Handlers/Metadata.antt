-- ===== src/Async/Handlers/Metadata.antt =====
-- The handlers for files, dimensions and attributes, src/clib/pio_msg.c.
use parallel_io.Base.{◌*◌}
use parallel_io.Base.Int.{ℤ}
use parallel_io.Async.Wire.{
  Kind, Receiver, pure, ◌>>=◌, recv, recv_count, recv_array, recv_flag, recv_flag_into_int,
  recv_name,
}
use parallel_io.Async.Calls.{Call}

unfoldable pub inq_handler : Receiver Call
inq_handler = do
  ncid ← recv Kind.int
  has_ndims ← recv_flag Kind.char
  has_nvars ← recv_flag Kind.char
  has_ngatts ← recv_flag Kind.char
  has_unlimdimid ← recv_flag Kind.char
  pure (Call.inq ncid has_ndims has_nvars has_ngatts has_unlimdimid)

unfoldable pub inq_unlimdims_handler : Receiver Call
inq_unlimdims_handler = do
  ncid ← recv Kind.int
  has_nunlimdims ← recv_flag Kind.char
  has_unlimdimids ← recv_flag Kind.char
  pure (Call.inq_unlimdims ncid has_nunlimdims has_unlimdimids)

unfoldable pub inq_type_handler : Receiver Call
inq_type_handler = do
  ncid ← recv Kind.int
  xtype ← recv Kind.int
  has_name ← recv_flag Kind.char
  has_size ← recv_flag Kind.char
  pure (Call.inq_type ncid xtype has_name has_size)

unfoldable pub inq_format_handler : Receiver Call
inq_format_handler = do
  ncid ← recv Kind.int
  has_format ← recv_flag Kind.char
  pure (Call.inq_format ncid has_format)

unfoldable pub inq_dim_handler : Receiver Call
inq_dim_handler = do
  ncid ← recv Kind.int
  dimid ← recv Kind.int
  has_name ← recv_flag Kind.char
  has_len ← recv_flag Kind.char
  pure (Call.inq_dim ncid dimid has_name has_len)

unfoldable pub inq_dimid_handler : (other_bytes : ℤ) → Receiver Call
inq_dimid_handler other_bytes = do
  ncid ← recv Kind.int
  dim_name ← recv_name
  has_id ← recv_flag_into_int other_bytes
  pure (Call.inq_dimid ncid dim_name has_id)

unfoldable pub rename_dim_handler : Receiver Call
rename_dim_handler = do
  ncid ← recv Kind.int
  dimid ← recv Kind.int
  dim_name ← recv_name
  pure (Call.rename_dim ncid dimid dim_name)

unfoldable pub def_dim_handler : Receiver Call
def_dim_handler = do
  ncid ← recv Kind.int
  dim_name ← recv_name
  len ← recv Kind.int
  pure (Call.def_dim ncid dim_name len)

unfoldable pub inq_att_handler : Receiver Call
inq_att_handler = do
  ncid ← recv Kind.int
  varid ← recv Kind.int
  att_name ← recv_name
  has_xtype ← recv_flag Kind.char
  has_len ← recv_flag Kind.char
  eh ← recv Kind.int
  pure (Call.inq_att ncid varid att_name has_xtype has_len eh)

unfoldable pub inq_attname_handler : Receiver Call
inq_attname_handler = do
  ncid ← recv Kind.int
  varid ← recv Kind.int
  attnum ← recv Kind.int
  has_name ← recv_flag Kind.char
  pure (Call.inq_attname ncid varid attnum has_name)

unfoldable pub inq_attid_handler : Receiver Call
inq_attid_handler = do
  ncid ← recv Kind.int
  varid ← recv Kind.int
  att_name ← recv_name
  has_id ← recv_flag Kind.char
  pure (Call.inq_attid ncid varid att_name has_id)

unfoldable pub rename_att_handler : Receiver Call
rename_att_handler = do
  ncid ← recv Kind.int
  varid ← recv Kind.int
  att_name ← recv_name
  new_name ← recv_name
  pure (Call.rename_att ncid varid att_name new_name)

unfoldable pub delete_att_handler : Receiver Call
delete_att_handler = do
  ncid ← recv Kind.int
  varid ← recv Kind.int
  att_name ← recv_name
  pure (Call.del_att ncid varid att_name)

unfoldable pub att_put_handler : Receiver Call
att_put_handler = do
  ncid ← recv Kind.int
  varid ← recv Kind.int
  att_name ← recv_name
  atttype ← recv Kind.int
  len ← recv_count Kind.offset
  atttype_len ← recv Kind.offset
  memtype ← recv Kind.int
  memtype_len ← recv_count Kind.offset
  op ← recv_array Kind.byte (len * memtype_len)
  pure (Call.put_att ncid varid att_name atttype len memtype op)

unfoldable pub att_get_handler : Receiver Call
att_get_handler = do
  ncid ← recv Kind.int
  varid ← recv Kind.int
  att_name ← recv_name
  att_iotype ← recv Kind.int
  att_type ← recv Kind.int
  attlen ← recv Kind.offset
  atttype_len ← recv Kind.offset
  memtype ← recv Kind.int
  memtype_len ← recv_count Kind.offset
  pure (Call.get_att ncid varid att_name memtype)
