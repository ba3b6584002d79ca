-- ===== src/Yfs.antt =====
-- The file system client of yfs_client.h and yfs_client.cc: the text of directories, and
-- the operations over extents and locks.
pub mod Directory
pub mod Client
pub mod Writing
pub mod ReadBack
pub mod Locks
pub mod Split
pub mod Naming
pub mod Leaks
pub mod Listing
mod Tests
