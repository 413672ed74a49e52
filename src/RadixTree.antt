-- ===== src/RadixTree.antt =====
-- The radix tree over a table of nodes (src/carmentis/abci/radixTree/RadixTree.ts).
pub mod Nodes
pub mod Read
pub mod Paths
pub mod Write
pub mod Confined
pub mod Laws
pub mod Examples
