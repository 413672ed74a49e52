-- ===== src/Challenge.antt =====
-- The storage challenge (src/carmentis/abci/challenge).
pub mod File
pub mod Manager
pub mod Reads
pub mod Agreement
mod Examples
