-- ===== src/Abci.antt =====
-- The calls of CometBFT to the application (src/carmentis/abci/AbciService.ts,
-- src/carmentis/abci/services/EarlyMicroblockRejectionService.ts).
pub mod Runs
pub mod Service
pub mod Agreement
mod Rounds
pub mod Bounds
pub mod Proposals
pub mod Acceptance
pub mod Replays
mod Examples
