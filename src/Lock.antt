-- ===== src/Lock.antt =====
-- The lock service: the caching server, the client's cache, and the plain server.
pub mod ServerCache
pub mod Queueing
pub mod History
pub mod Enforcer
pub mod ClientCache
pub mod Plain
pub mod Mutex
mod Tests
