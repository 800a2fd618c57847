-- ===== src/Lib.antt =====
-- ParallelIO reads and writes distributed arrays of many tasks through a few IO tasks. This library models
-- the parts of its C library that decide where the data go, and that keep track of what is open.
--
-- The parts, and how they interact:
--
-- - BoxDecomp (src/clib/pioc_sc.c): `gcd`, `lgcd`, `lgcd_array` in BoxDecomp/Gcd and BoxDecomp/GcdArray;
--   `compute_one_dim` in BoxDecomp/OneDim; `GCDblocksize` in BoxDecomp/BlockSize; `CalcStartandCount` in
--   BoxDecomp/StartCount, its loop over dimensions as `split`, over tasks as `pass`, and its outer loop as
--   `search_loop`. `PIOc_InitDecomp` calls it for the box rearranger to divide the data among the IO tasks.
-- - Coords and Regions (src/clib/pio_rearrange.c): `idx_to_dim_list` and `coord_to_lindex`; `expand_region`,
--   `find_region` and `get_regions`, which cut an IO task's map into boxes for the subset rearranger.
--   `compute_maxIObuffersize` (Regions.BufferSize) takes the regions of all tasks; its sums stay exact, 64 bits
--   are not written out.
-- - Rearranger (src/clib/pio_rearrange.c): `determine_fill`, and the color and key of
--   `default_subset_partition`.
-- - Sort (src/clib/parallel_sort.c): `partition`, `parallel_sort`, `is_unique` and `run_unique_check`, with
--   which `PIOc_InitDecomp` looks for elements that are mapped twice.
-- - Spmd (src/clib/pio_spmd.c): `ceil2`, `pair` and `pio_swapm`, the exchange with which the rearrangers move
--   data. A run on one rank is the list of its MPI calls; the arrays of requests and `rstep` are the record
--   `Exchange`, and `round` is a round of the loop over the steps. The calls of two ranks meet by rank and tag.
-- - Registry (src/clib/pio_lists.c): the variables of a file (Registry/Vars), the open files (Registry/Files),
--   the IO systems (Registry/Iosystems) and the decompositions (Registry/Iodescs), with the remembered
--   pointers `current_file` and `current_iodesc`. Structs stand in a heap; a read of a freed one is a fault.
-- - Darray (src/clib/pio_darray.c): the write buffers of a file on one compute task. `PIOc_write_darray` is
--   `write_darray`; its work on one `wmulti_buffer`, with `flush_buffer` (src/clib/pio_darray_int.c), is in
--   Darray/Buffer on the structs of Darray/Structs, and the blocks that `realloc` and `memcpy` work on are in
--   Darray/Memory. `sync_buffers` is the loop of `PIOc_sync` (src/clib/pio_file.c), `set_frame` is `PIOc_setframe` (src/clib/pioc.c), and Darray/Runs
--   is the relation of the files that these calls reach. Each buffer is handed to `PIOc_write_darray_multi`,
--   which is kept as a list of calls.
-- - Async: with asynchronous IO the computation tasks broadcast the arguments of a PIOc_ function, and the IO
--   tasks receive them and make the same call. Async/Wire has the broadcasts and a monad of receiving ones,
--   Async/Receive its laws, Async/Send the async block of each PIOc_ function (`inq_dim_async` is that of `PIOc_inq_dim`),
--   Async/Handlers the handlers (src/clib/pio_msg.c) under their names, Async/Dispatch the switch and
--   Async/Service the loop of `pio_msg_handler2`, for several components; the order in which MPI_Waitsome finds
--   their messages is an argument. Async/RoundTrip has a law for each handler, Async/Sessions whole sessions.
-- - BoxMap (src/clib/pioc.c): the map that `PIOc_InitDecomp_bc` makes of a start and a count in each dimension;
--   BoxMap/Odometer follows its counters `loc`, and BoxMap/Map says what the map holds.
-- - SortedCopy (src/clib/pio_darray_int.c): `pio_sorted_copy`, its two loops for one variable as `copy_in` and
--   `copy_out`. The write and read of arrays call it when the map had to be sorted.
-- - Remap (src/clib/pioc.c): how `PIOc_InitDecomp` sorts a map, and the remap that `pio_sorted_copy` is given.
-- - Support (src/clib/pioc_support.c): `find_mpi_type`, which `CalcStartandCount` calls; `determine_procs`; the
--   IO types; `PIOc_set_rearr_opts`, which looks up the IO system in Registry; `check_compmap`.
-- - Base: numbers, lists, heaps, error codes, the values of the ranks of a communicator, exclusive or.
-- - Examples: tests, and the theorems at concrete inputs.
--
-- Numbers. int and long values are natural numbers or integers without a bound, but for the narrowing in
-- `lgcd_array`, whose calls of `gcd` convert to 32 bits, and the length that `PIOc_def_dim` sends as
-- an int. The cells of the arrays of `pio_sorted_copy` are a function on the natural numbers.
-- Sizes are natural numbers, and a subtraction that C would take below 0 is written out.
--
-- Bounds and fuel. `gcd` recurs on the accessibility of its first argument. The other loops without a bound in
-- C run on fuel: `search_loop` on the number of IO tasks and one more, `pass` on the tasks that are left,
-- `region_loop` on the length of the map and one more, `ceil2` on its argument, and `delete_all_vars` and
-- `sync_buffers` on the size of the table and one more. No loop of the C code makes more rounds than its fuel.
--
-- Parameters. MPI is not part of the repository: Sort.Comm is a record of the collectives with the effect that
-- the standard gives them. uthash is another project's header: Registry.Hash is a record of its macros with
-- their documented laws. `rand`, and the floating point rounding in `CalcStartandCount`, are functions that the
-- theorems hold for whatever they are.
--
-- Not modelled: the calls of netCDF, pnetcdf and GDAL and the functions around them (pio_nc.c, pio_nc4.c,
-- pio_getput_int.c, pio_file.c, pio_gdal.c and the like) but for their messages, and the broadcasts of their
-- results; the start of the asynchronous service (pioc_async.c); the writing and reading on
-- the IO tasks (the rest of pio_darray.c and pio_darray_int.c); the creation of the rearrangers
-- and of IO systems (the rest of pio_rearrange.c, pioc.c); logging and error text; the Fortran library, the
-- netCDF integration and the timing library. Failures of MPI calls and of most allocations are left out too.
pub mod Base
pub mod Support
pub mod BoxDecomp
pub mod Coords
pub mod Darray
pub mod Async
pub mod BoxMap
pub mod SortedCopy
pub mod Remap
pub mod Regions
pub mod Registry
pub mod Sort
pub mod Spmd
pub mod Rearranger
mod Examples
