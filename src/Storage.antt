-- ===== src/Storage.antt =====
-- The files of the microblocks (src/carmentis/abci/storage).
pub mod Paths
pub mod Expired
pub mod Files
pub mod Appends
pub mod Cleaner
pub mod Cached
pub mod Flushes
pub mod Sequences
pub mod Examples
