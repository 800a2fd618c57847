-- ===== src/Support/Types.antt =====
-- `find_mpi_type` of src/clib/pioc_support.c, with the sizes of src/clib/pio_internal.h.
use parallel_io.Base.{ℕ, ◌≡◌, Bool, ◌⊎◌, if◌then◌else◌, arith}
use parallel_io.Base.Error.{Result, ok, err, ebadtype}

-- `other` stands for every int that is no PIO type.
pub data PioType : Type 0 where
  byte char short int float double ubyte ushort uint int64 uint64 string other : PioType

pub data MpiType : Type 0 where
  mpi_byte mpi_signed_char mpi_char mpi_short mpi_int mpi_float mpi_double mpi_unsigned_char :
      MpiType
  mpi_unsigned_short mpi_unsigned mpi_long_long mpi_unsigned_long_long : MpiType

abbrev pub netcdf_char_size : ℕ
netcdf_char_size = 1

abbrev pub netcdf_short_size : ℕ
netcdf_short_size = 2

abbrev pub netcdf_int_float_size : ℕ
netcdf_int_float_size = 4

abbrev pub netcdf_double_int64_size : ℕ
netcdf_double_int64_size = 8

-- The build's macros _MPISERIAL and _NETCDF4.
pub record Build : Type 0 where
  pub mpi_serial : Bool
  pub netcdf4 : Bool

-- The cases under `#ifdef _NETCDF4`.
netcdf4_type : Build → MpiType → ℕ → Result (MpiType × ℕ)
netcdf4_type b t size = if b.netcdf4 then ok (t, size) else err ebadtype

unfoldable pub find_mpi_type : Build → PioType → Result (MpiType × ℕ)
unfolding netcdf4_type
find_mpi_type b byte = ok ((if b.mpi_serial then mpi_byte else mpi_signed_char), netcdf_char_size)
find_mpi_type b char = ok (mpi_char, netcdf_char_size)
find_mpi_type b short = ok (mpi_short, netcdf_short_size)
find_mpi_type b int = ok (mpi_int, netcdf_int_float_size)
find_mpi_type b float = ok (mpi_float, netcdf_int_float_size)
find_mpi_type b double = ok (mpi_double, netcdf_double_int64_size)
find_mpi_type b ubyte = netcdf4_type b mpi_unsigned_char netcdf_char_size
find_mpi_type b ushort = netcdf4_type b mpi_unsigned_short netcdf_short_size
find_mpi_type b uint = netcdf4_type b mpi_unsigned netcdf_int_float_size
find_mpi_type b int64 = netcdf4_type b mpi_long_long netcdf_double_int64_size
find_mpi_type b uint64 = netcdf4_type b mpi_unsigned_long_long netcdf_double_int64_size
find_mpi_type b string = netcdf4_type b mpi_char netcdf_char_size
find_mpi_type b other = err ebadtype

-- A type's size in bytes is one of 1, 2, 4 and 8.
pub find_mpi_type_size :
    (b : Build) (t : PioType) {m : MpiType} {n : ℕ}
    → find_mpi_type b t ≡ ok (m, n)
    → (n ≡ 1) ⊎ (n ≡ 2) ⊎ (n ≡ 4) ⊎ (n ≡ 8)
unfolding find_mpi_type
find_mpi_type_size b byte h = ground arith
find_mpi_type_size b t h = ground arith
