-- ===== src/Registry.antt =====
-- The lists of open files, IO systems, decompositions and variables, src/clib/pio_lists.c.
pub mod Hash
pub mod Vars
pub mod Files
pub mod Iosystems
pub mod Iodescs
