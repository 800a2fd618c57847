-- ===== src/BoxDecomp.antt =====
-- The box rearranger's decomposition, src/clib/pioc_sc.c.
pub mod Gcd
pub mod GcdList
pub mod GcdArray
pub mod OneDim
pub mod BlockSize
pub mod StartCount
