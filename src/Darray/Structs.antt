-- ===== src/Darray/Structs.antt =====
-- The structs of a write buffer and of what it is handed to, src/clib/pio.h, and steps on a buffer.
use parallel_io.Base.{ℕ, Bool, Option, none, some, []}
use parallel_io.Base.Error.{Result, ok, err}
use parallel_io.Base.Int.{ℤ}
use parallel_io.Darray.Memory.{Block}

-- A `wmulti_buffer`. A pointer to no memory is an empty block, and NULL where that is told apart.
pub record WmultiBuffer (V : Type 0) : Type 0 where
  pub ioid : ℤ
  pub recordvar : ℤ
  pub num_arrays : ℕ
  pub arraylen : ℕ
  pub vid : Block ℤ
  pub frame : Option (Block ℤ)
  pub fillvalue : Option (Block V)
  pub cells : Block V
  pub htid : ℤ

-- The members of the other structs that are read here.
pub record VarDesc (V : Type 0) : Type 0 where
  pub rec_var : ℤ
  pub frame : ℤ
  pub fillvalue : Option V
  pub use_fill : Bool

pub record IoDesc : Type 0 where
  pub readonly : Bool
  pub ndof : ℕ
  pub maxiobuflen : ℕ
  pub mpitype_size : ℕ
  pub needsfill : Bool

-- A call of PIOc_write_darray_multi, with its arguments.
pub record MultiWrite (V : Type 0) : Type 0 where
  pub varids : Block ℤ
  pub ioid : ℤ
  pub nvars : ℕ
  pub arraylen : ℕ
  pub array : Block V
  pub frame : Option (Block ℤ)
  pub fillvalue : Option (Block V)
  pub flushtodisk : Bool

-- What the surroundings answer during one call: the address of a new buffer, whether `realloc` finds
-- memory (for the data, for the data after a flush, for the three small arrays), and the largest
-- `needsflush` of the other tasks.
pub record Surroundings : Type 0 where
  pub fresh : Option ℕ
  pub grows : Bool
  pub grows_again : Bool
  pub vid_grows : Bool
  pub frame_grows : Bool
  pub fill_grows : Bool
  pub others : ℕ

abbrev pub int_max : ℕ
int_max = 2147483647

abbrev pub or_empty : {A : Type 0} → Option (Block A) → Block A
or_empty none = []
or_empty (some b) = b

-- A step on a buffer that may return early with an error code; `none` is a fault.
abbrev pub Step : Type 0 → Type 0
Step V = WmultiBuffer V → Option (WmultiBuffer V × Result (Unit {0}))

infixl 5 ◌>>◌
abbrev pub ◌>>◌ : {V : Type 0} → Step V → Step V → Step V
◌>>◌ m k wmb = elim (m wmb) [
  | none ↦ none
  | some (wmb', err e) ↦ some (wmb', err e)
  | some (wmb', ok u) ↦ k wmb'
]

-- What `flush_buffer` hands to PIOc_write_darray_multi.
abbrev pub multi_write : {V : Type 0} → WmultiBuffer V → Bool → MultiWrite V
multi_write wmb flushtodisk = record {
  varids = wmb.vid;
  ioid = wmb.ioid;
  nvars = wmb.num_arrays;
  arraylen = wmb.arraylen;
  array = wmb.cells;
  frame = wmb.frame;
  fillvalue = wmb.fillvalue;
  flushtodisk = flushtodisk;
}
