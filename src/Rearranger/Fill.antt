-- ===== src/Rearranger/Fill.antt =====
-- When the data of a variable need to be filled.
use parallel_io.Base.{◌&&◌, ◌&&◌}
