-- ===== src/Examples.antt =====
-- Tests of the definitions, and the theorems at concrete inputs.
mod BoxDecomp
mod Regions
mod HashList
mod ListComm
mod Sort
mod Spmd
mod Support
mod Rearranger
mod Registry
mod Darray
mod Async
mod BoxMap
mod SortedCopy
mod Remap
