-- ===== src/Async.antt =====
-- The calls that computation tasks pass on to IO tasks: the async blocks of the PIOc_ functions and the message
-- service, src/clib/pio_msg.c.
pub mod Wire
pub mod Receive
pub mod Calls
pub mod Send
pub mod Handlers
pub mod Dispatch
pub mod Service
pub mod RoundTrip
pub mod Sessions
pub mod Unknown
