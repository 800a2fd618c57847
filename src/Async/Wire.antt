-- ===== src/Async/Wire.antt =====
-- What the compute tasks broadcast to the IO tasks, src/clib/pio_msg.c: each MPI_Bcast has a type and its
-- values. The receiving MPI_Bcast names the type and the number of values; where they differ from
-- what was sent the model stops with `none`.
use parallel_io.Base.{
  ℕ, ◌+◌, ◌≡◌, Bool, true, false, ◌&&◌, ◌||◌, not, Option, none, some, List, [], ◌∷◌, ◌++◌, ◌==◌,
  if◌then◌else◌, length,
}
use parallel_io.Base.Int.{ℤ, pos, negsuc, ◌==ℤ◌}

-- The MPI types; a float stands for its bits.
pub data Kind : Type 0 where
  int char offset float unsigned byte size_t : Kind

-- The messages, enum PIO_MSG.
pub data Msg : Type 0 where
  create_file open_file close_file delete_file sync_file enddef redef set_fill : Msg
  set_error_handling set_log_level set_chunk_cache get_chunk_cache free_iosystem inq : Msg
  inq_unlimdims inq_type inq_format inq_dim inq_dimid rename_dim def_dim inq_att inq_attname : Msg
  inq_attid rename_att del_att put_att get_att inq_var inq_varid rename_var def_var : Msg
  def_var_fill inq_var_fill def_var_chunking inq_var_chunking def_var_deflate inq_var_deflate : Msg
  def_var_endian inq_var_endian set_var_chunk_cache get_var_chunk_cache def_var_szip : Msg
  def_var_bzip2 inq_var_bzip2 def_var_zstandard inq_var_zstandard def_var_filter : Msg
  inq_var_filter_ids inq_var_filter_info inq_filter_avail def_var_quantize inq_var_quantize : Msg
  get_vars put_vars set_frame advance_frame init_decomp free_decomp write_darray_multi : Msg
  read_darray : Msg

pub data Datum : Type 0 where
  sent : Msg → Datum
  bcast : Kind → List ℤ → Datum

abbrev pub same_kind : Kind → Kind → Bool
same_kind Kind.int Kind.int = true
same_kind Kind.char Kind.char = true
same_kind Kind.offset Kind.offset = true
same_kind Kind.float Kind.float = true
same_kind Kind.unsigned Kind.unsigned = true
same_kind Kind.byte Kind.byte = true
same_kind Kind.size_t Kind.size_t = true
same_kind j k = false

-- A receiver reads from what was broadcast.
abbrev pub Receiver : Type 0 → Type 0
Receiver A = List Datum → Option (A × List Datum)

abbrev pub pure : {A : Type 0} → A → Receiver A
pure a ds = some (a, ds)

infixl 5 ◌>>=◌
unfoldable pub ◌>>=◌ : {A B : Type 0} → Receiver A → (A → Receiver B) → Receiver B
◌>>=◌ m f ds = elim (m ds) [ none ↦ none | some (a, ds') ↦ f a ds' ]

-- One value.
unfoldable pub recv : Kind → Receiver ℤ
recv k (bcast j (x ∷ []) ∷ ds) = if same_kind k j then some (x, ds) else none
recv k ds = none

-- A length or another count.
unfoldable pub recv_count : Kind → Receiver ℕ
recv_count k (bcast j (pos n ∷ []) ∷ ds) = if same_kind k j then some (n, ds) else none
recv_count k ds = none

-- An array of `n` values.
unfoldable pub recv_array : Kind → ℕ → Receiver (List ℤ)
recv_array k n (bcast j xs ∷ ds) = if same_kind k j && length xs == n then some (xs, ds) else none
recv_array k n ds = none

-- A `char` or an `int` that says whether a pointer is not NULL.
abbrev pub flag : Bool → ℤ
flag p = if p then pos 1 else pos 0

unfoldable pub recv_flag : Kind → Receiver Bool
recv_flag k ds = elim (recv k ds) [ none ↦ none | some (x, ds') ↦ some (not (x ==ℤ pos 0), ds') ]

-- A `char` received into an `int` whose other bytes hold what they held before.
unfoldable pub recv_flag_into_int : ℤ → Receiver Bool
recv_flag_into_int other_bytes ds = elim (recv_flag Kind.char ds) [
  | none ↦ none
  | some (p, ds') ↦ some (p || not (other_bytes ==ℤ pos 0), ds')
]

-- A lookup that ends the handler when it finds nothing.
unfoldable pub lift : {A : Type 0} → Option A → Receiver A
lift none ds = none
lift (some a) ds = some (a, ds)

-- A check that ends the handler.
unfoldable pub require : Bool → Receiver (Unit {0})
require false ds = none
require true ds = some (tt, ds)

abbrev pub value : Kind → ℤ → Datum
value k x = bcast k (x ∷ [])

abbrev pub present : Kind → Bool → Datum
present k p = bcast k (flag p ∷ [])

-- A name: its length, and its characters with the NUL. The receiver's `char *` ends at the first NUL.
abbrev pub with_nul : List ℤ → List ℤ
with_nul s = s ++ pos 0 ∷ []

unfoldable pub c_string : List ℤ → List ℤ
c_string [] = []
c_string (c ∷ s) = let rest = c_string s in if c ==ℤ pos 0 then [] else c ∷ rest

abbrev pub to_length : ℤ → ℕ
to_length (pos n) = n
to_length (negsuc n) = 0

abbrev pub name : List ℤ → List Datum → List Datum
name s ds = bcast Kind.int (pos (length s) ∷ []) ∷ bcast Kind.char (with_nul s) ∷ ds

unfoldable pub recv_name : Receiver (List ℤ)
recv_name ds = elim (recv Kind.int ds) [
  | none ↦ none
  | some (n, ds') ↦ elim (recv_array Kind.char (to_length n + 1) ds') [
    | none ↦ none
    | some (s, ds'') ↦ some (c_string s, ds'')
  ]
]

-- A value or an array that is sent only if it is there.
abbrev pub if_there : Kind → Option (List ℤ) → List Datum → List Datum
if_there k none ds = ds
if_there k (some xs) ds = bcast k xs ∷ ds

abbrev pub is_there : Option (List ℤ) → Bool
is_there none = false
is_there (some xs) = true

unfoldable pub recv_if : Bool → Kind → ℕ → Receiver (Option (List ℤ))
recv_if false k n ds = some (none, ds)
recv_if true k n ds = elim (recv_array k n ds) [
  | none ↦ none
  | some (xs, ds') ↦ some (some xs, ds')
]

-- sizeof a pointer, sent only with a pointer that is there.
abbrev pub pointer_size : ℤ
pointer_size = pos 8

abbrev pub if_flag : Kind → ℤ → Bool → List Datum → List Datum
if_flag k x false ds = ds
if_flag k x true ds = bcast k (x ∷ []) ∷ ds

abbrev pub HasLength : Option (List ℤ) → ℕ → Type 0
HasLength none n = Unit {0}
HasLength (some xs) n = length xs ≡ n

-- No character of a name is NUL.
abbrev pub NoNul : List ℤ → Type 0
NoNul [] = Unit {0}
NoNul (c ∷ s) = ((c ==ℤ pos 0) ≡ false) × NoNul s
