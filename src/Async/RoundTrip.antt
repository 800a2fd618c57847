-- ===== src/Async/RoundTrip.antt =====
-- The handlers make the calls that were broadcast.
pub mod Files
pub mod Metadata
pub mod Variables
pub mod Filters
pub mod Data
pub mod All
