-- ===== src/Rpc.antt =====
-- The RPC library, under rpc/: marshalling, the at-most-once window, and the client.
pub mod Marshall
pub mod Unmarshall
pub mod RoundTrip
pub mod Vectors
pub mod Faults
pub mod Window
pub mod AtMostOnce
pub mod Replies
pub mod Client
pub mod Compress
pub mod Received
pub mod Timeouts
pub mod Deadline
pub mod Sends
pub mod Fifo
pub mod ThrPool
pub mod Link
pub mod Once
pub mod Connection
pub mod Typed
pub mod Poll
mod Tests
