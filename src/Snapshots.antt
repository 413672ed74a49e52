-- ===== src/Snapshots.antt =====
-- The snapshots (src/carmentis/abci/snapshots).
pub mod Chunks
pub mod Places
pub mod Cover
pub mod Copies
mod Examples
