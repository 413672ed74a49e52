-- ===== src/Database.antt =====
-- The key-value tables of the node (src/carmentis/abci/database).
pub mod Level
pub mod Cache
pub mod MerkleNodes
pub mod Stores
pub mod CachedStores
pub mod Memory
mod Examples
