-- ===== src/Extent.antt =====
-- The extent service: the server that stores files by number, the client's write-back cache,
-- and many clients that share files.
pub mod Server
pub mod Messages
pub mod Client
pub mod Cache
pub mod Transparent
mod Tests
pub mod History
pub mod Sharing
pub mod Handover
pub mod Consistency
