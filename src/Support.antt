-- ===== src/Support.antt =====
-- The functions of src/clib/pioc_support.c that the other parts call.
pub mod Types
pub mod Procs
pub mod Iotype
pub mod RearrOpts
pub mod Compmap
