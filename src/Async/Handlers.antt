-- ===== src/Async/Handlers.antt =====
-- The handlers of src/clib/pio_msg.c, by topic.
pub mod Files
pub mod Metadata
pub mod Variables
pub mod Filters
pub mod Data
