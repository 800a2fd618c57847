-- ===== src/Async/Send.antt =====
-- The async blocks of the PIOc_ functions: what they broadcast, by topic.
pub mod Files
pub mod Metadata
pub mod Variables
pub mod Filters
pub mod Data
pub mod All
