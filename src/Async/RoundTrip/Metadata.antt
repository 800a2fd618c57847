-- ===== src/Async/RoundTrip/Metadata.antt =====
-- The handlers for files, dimensions and attributes make the calls that were broadcast.
use parallel_io.Base.{ℕ, ◌*◌, ◌≡◌, refl, Bool, ◌||◌, not, some, List, length}
use parallel_io.Base.Int.{ℤ, pos, ◌==ℤ◌, to_int}
use parallel_io.Async.Wire.{Kind, Datum, NoNul}
use parallel_io.Async.Receive.{
  receive_laws, bind-recv_name, bind-recv_flag_into_int, bind-recv_array, bind-some,
}
use parallel_io.Async.Calls.{Call, Inquired, Env}
use parallel_io.Async.Dispatch.{handle_message, dispatch}
use parallel_io.Async.Handlers.Metadata.{
  inq_handler, inq_unlimdims_handler, inq_type_handler, inq_format_handler, inq_dim_handler,
  inq_dimid_handler, rename_dim_handler, def_dim_handler, inq_att_handler, inq_attname_handler,
  inq_attid_handler, rename_att_handler, delete_att_handler, att_put_handler, att_get_handler,
}
use parallel_io.Async.Send.Metadata.{
  inq_async, inq_unlimdims_async, inq_type_async, inq_format_async, inq_dim_async, inq_dimid_async,
  rename_dim_async, def_dim_async, inq_att_async, inq_attname_async, inq_attid_async,
  rename_att_async, del_att_async, put_att_async, get_att_async,
}

pub handle_message-inq :
    (e : Env) (ncid : ℤ) (has_ndims has_nvars has_ngatts has_unlimdimid : Bool) (ds : List Datum)
    → handle_message e (inq_async ncid has_ndims has_nvars has_ngatts has_unlimdimid ds)
      ≡ some (some (Call.inq ncid has_ndims has_nvars has_ngatts has_unlimdimid), ds)
unfolding handle_message dispatch inq_handler inq_async
handle_message-inq e ncid has_ndims has_nvars has_ngatts has_unlimdimid ds =
    bind-some _ _ (simp (receive_laws)) refl

pub handle_message-inq_unlimdims :
    (e : Env) (ncid : ℤ) (has_nunlimdims has_unlimdimids : Bool) (ds : List Datum)
    → handle_message e (inq_unlimdims_async ncid has_nunlimdims has_unlimdimids ds)
      ≡ some (some (Call.inq_unlimdims ncid has_nunlimdims has_unlimdimids), ds)
unfolding handle_message dispatch inq_unlimdims_handler inq_unlimdims_async
handle_message-inq_unlimdims e ncid has_nunlimdims has_unlimdimids ds =
    bind-some _ _ (simp (receive_laws)) refl

pub handle_message-inq_type :
    (e : Env) (ncid xtype : ℤ) (has_name has_size : Bool) (ds : List Datum)
    → handle_message e (inq_type_async ncid xtype has_name has_size ds)
      ≡ some (some (Call.inq_type ncid xtype has_name has_size), ds)
unfolding handle_message dispatch inq_type_handler inq_type_async
handle_message-inq_type e ncid xtype has_name has_size ds = bind-some _ _ (simp (receive_laws)) refl

pub handle_message-inq_format :
    (e : Env) (ncid : ℤ) (has_format : Bool) (ds : List Datum)
    → handle_message e (inq_format_async ncid has_format ds)
      ≡ some (some (Call.inq_format ncid has_format), ds)
unfolding handle_message dispatch inq_format_handler inq_format_async
handle_message-inq_format e ncid has_format ds = bind-some _ _ (simp (receive_laws)) refl

pub handle_message-inq_dim :
    (e : Env) (ncid dimid : ℤ) (has_name has_len : Bool) (ds : List Datum)
    → handle_message e (inq_dim_async ncid dimid has_name has_len ds)
      ≡ some (some (Call.inq_dim ncid dimid has_name has_len), ds)
unfolding handle_message dispatch inq_dim_handler inq_dim_async
handle_message-inq_dim e ncid dimid has_name has_len ds = bind-some _ _ (simp (receive_laws)) refl

pub handle_message-inq_dimid :
    (e : Env) (ncid : ℤ) (dim_name : List ℤ) (has_id : Bool) (ds : List Datum)
    → NoNul dim_name
    → (has_id || not (e.other_bytes ==ℤ pos 0)) ≡ has_id
    → handle_message e (inq_dimid_async ncid dim_name has_id ds)
      ≡ some (some (Call.inq_dimid ncid dim_name has_id), ds)
unfolding handle_message dispatch inq_dimid_handler inq_dimid_async
handle_message-inq_dimid e ncid dim_name has_id ds hdim_name hhas_id =
    bind-some _ _ {ds' = ds} {a = Call.inq_dimid ncid dim_name has_id}
      (simp (
        receive_laws,
        bind-recv_name dim_name hdim_name,
        bind-recv_flag_into_int {B = Call} e.other_bytes hhas_id,
      ))
      refl

pub handle_message-rename_dim :
    (e : Env) (ncid dimid : ℤ) (dim_name : List ℤ) (ds : List Datum)
    → NoNul dim_name
    → handle_message e (rename_dim_async ncid dimid dim_name ds)
      ≡ some (some (Call.rename_dim ncid dimid dim_name), ds)
unfolding handle_message dispatch rename_dim_handler rename_dim_async
handle_message-rename_dim e ncid dimid dim_name ds hdim_name =
    bind-some _ _ (simp (receive_laws, bind-recv_name dim_name hdim_name)) refl

pub handle_message-def_dim :
    (e : Env) (ncid : ℤ) (dim_name : List ℤ) (len : ℤ) (ds : List Datum)
    → NoNul dim_name
    → to_int len ≡ len
    → handle_message e (def_dim_async ncid dim_name len ds)
      ≡ some (some (Call.def_dim ncid dim_name len), ds)
unfolding handle_message dispatch def_dim_handler def_dim_async
handle_message-def_dim e ncid dim_name len ds hdim_name hlen =
    bind-some _ _ (simp (receive_laws, bind-recv_name dim_name hdim_name, hlen)) refl

pub handle_message-inq_att :
    (e : Env) (ncid varid : ℤ) (att_name : List ℤ) (has_xtype has_len : Bool) (eh : ℤ)
    (ds : List Datum)
    → NoNul att_name
    → handle_message e (inq_att_async ncid varid att_name has_xtype has_len eh ds)
      ≡ some (some (Call.inq_att ncid varid att_name has_xtype has_len eh), ds)
unfolding handle_message dispatch inq_att_handler inq_att_async
handle_message-inq_att e ncid varid att_name has_xtype has_len eh ds hatt_name =
    bind-some _ _ (simp (receive_laws, bind-recv_name att_name hatt_name)) refl

pub handle_message-inq_attname :
    (e : Env) (ncid varid attnum : ℤ) (has_name : Bool) (ds : List Datum)
    → handle_message e (inq_attname_async ncid varid attnum has_name ds)
      ≡ some (some (Call.inq_attname ncid varid attnum has_name), ds)
unfolding handle_message dispatch inq_attname_handler inq_attname_async
handle_message-inq_attname e ncid varid attnum has_name ds =
    bind-some _ _ (simp (receive_laws)) refl

pub handle_message-inq_attid :
    (e : Env) (ncid varid : ℤ) (att_name : List ℤ) (has_id : Bool) (ds : List Datum)
    → NoNul att_name
    → handle_message e (inq_attid_async ncid varid att_name has_id ds)
      ≡ some (some (Call.inq_attid ncid varid att_name has_id), ds)
unfolding handle_message dispatch inq_attid_handler inq_attid_async
handle_message-inq_attid e ncid varid att_name has_id ds hatt_name =
    bind-some _ _ (simp (receive_laws, bind-recv_name att_name hatt_name)) refl

pub handle_message-rename_att :
    (e : Env) (ncid varid : ℤ) (att_name new_name : List ℤ) (ds : List Datum)
    → NoNul att_name
    → NoNul new_name
    → handle_message e (rename_att_async ncid varid att_name new_name ds)
      ≡ some (some (Call.rename_att ncid varid att_name new_name), ds)
unfolding handle_message dispatch rename_att_handler rename_att_async
handle_message-rename_att e ncid varid att_name new_name ds hatt_name hnew_name =
    bind-some _ _
      (simp (receive_laws, bind-recv_name att_name hatt_name, bind-recv_name new_name hnew_name))
      refl

pub handle_message-del_att :
    (e : Env) (ncid varid : ℤ) (att_name : List ℤ) (ds : List Datum)
    → NoNul att_name
    → handle_message e (del_att_async ncid varid att_name ds)
      ≡ some (some (Call.del_att ncid varid att_name), ds)
unfolding handle_message dispatch delete_att_handler del_att_async
handle_message-del_att e ncid varid att_name ds hatt_name =
    bind-some _ _ (simp (receive_laws, bind-recv_name att_name hatt_name)) refl

pub handle_message-put_att :
    (e : Env) (k : Inquired) (ncid varid : ℤ) (att_name : List ℤ) (atttype : ℤ) (len : ℕ)
    (memtype : ℤ) (op : List ℤ) (ds : List Datum)
    → NoNul att_name
    → length op ≡ len * k.memtype_len
    → handle_message e (put_att_async k ncid varid att_name atttype len memtype op ds)
      ≡ some (some (Call.put_att ncid varid att_name atttype len memtype op), ds)
unfolding handle_message dispatch att_put_handler put_att_async
handle_message-put_att e k ncid varid att_name atttype len memtype op ds hatt_name hop =
    bind-some _ _
      (simp (receive_laws, bind-recv_name att_name hatt_name, bind-recv_array Kind.byte hop)) refl

pub handle_message-get_att :
    (e : Env) (k : Inquired) (ncid varid : ℤ) (att_name : List ℤ) (memtype : ℤ) (ds : List Datum)
    → NoNul att_name
    → handle_message e (get_att_async k ncid varid att_name memtype ds)
      ≡ some (some (Call.get_att ncid varid att_name memtype), ds)
unfolding handle_message dispatch att_get_handler get_att_async
handle_message-get_att e k ncid varid att_name memtype ds hatt_name =
    bind-some _ _ (simp (receive_laws, bind-recv_name att_name hatt_name)) refl
