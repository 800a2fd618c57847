-- ===== src/Support/Iotype.antt =====
-- The types of IO: `find_iotype_from_omode`, `find_iotype_from_cmode` and `iotype_is_valid` of
-- src/clib/pioc_support.c. The flags of the netCDF library are read as the set of those that are on.
use parallel_io.Base.{ℕ, ◌+◌, ◌≡◌, refl, Bool, true, false, ◌&&◌, ◌||◌, if◌then◌else◌, arith}

pub data Iotype : Type 0 where
  pnetcdf : Iotype
  netcdf : Iotype
  netcdf4c : Iotype
  netcdf4p : Iotype
  gdal : Iotype

-- The bits of a mode that the code tests.
pub record Mode : Type 0 where
  pub nc_netcdf4 : Bool
  pub nc_mpiio : Bool
  pub nc_mpiposix : Bool
  pub nc_pnetcdf : Bool

unfoldable pub find_iotype_from_omode : Mode → Iotype
find_iotype_from_omode m =
    if m.nc_netcdf4
    then if m.nc_mpiio || m.nc_mpiposix then netcdf4p else netcdf4c
    else if m.nc_pnetcdf || m.nc_mpiio
    then pnetcdf
    else netcdf

unfoldable pub find_iotype_from_cmode : Mode → Iotype
find_iotype_from_cmode m =
    if m.nc_netcdf4
    then if m.nc_mpiio || m.nc_mpiposix then netcdf4p else netcdf4c
    else if m.nc_pnetcdf || m.nc_mpiio
    then pnetcdf
    else netcdf

-- What the build includes: NC_HAS_NC4 or a late netCDF, _PNETCDF, PIO_ENABLE_GDAL.
pub record Included : Type 0 where
  pub has_nc4 : Bool
  pub has_pnetcdf : Bool
  pub has_gdal : Bool

abbrev pub count_if : Bool → ℕ
count_if true = 1
count_if false = 0

abbrev same : Iotype → Iotype → Bool
same pnetcdf pnetcdf = true
same netcdf netcdf = true
same netcdf4c netcdf4c = true
same netcdf4p netcdf4p = true
same gdal gdal = true
same a b = false

-- The number of tests that hold.
unfoldable pub iotype_is_valid : Included → Iotype → ℕ
iotype_is_valid b t =
    count_if (same t netcdf)
    + count_if (b.has_nc4 && (same t netcdf4c || same t netcdf4p))
    + count_if (b.has_pnetcdf && same t pnetcdf)
    + count_if (b.has_gdal && same t gdal)

-- What a mode needs of the build.
abbrev pub needs : Mode → Included → Bool
needs m b =
    if m.nc_netcdf4 then b.has_nc4 else if m.nc_pnetcdf || m.nc_mpiio then b.has_pnetcdf else true

-- Opening and creating a file read a mode alike, and the IO type of a mode is valid exactly if the build
-- includes the library that the mode asks for.
pub find_iotype-is_valid :
    (b : Included) (m : Mode)
    → (find_iotype_from_cmode m ≡ find_iotype_from_omode m)
      × (iotype_is_valid b (find_iotype_from_omode m) ≡ count_if (needs m b))
unfolding find_iotype_from_omode find_iotype_from_cmode iotype_is_valid
find_iotype-is_valid b m = (refl, ground arith)
