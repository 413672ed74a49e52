-- ===== src/GlobalState.antt =====
-- The global state and its updates (src/carmentis/abci/state/GlobalState.ts,
-- src/carmentis/abci/state/GlobalStateUpdater.ts).
pub mod Types
pub mod State
pub mod Sections
pub mod Validators
pub mod Days
pub mod Writers
pub mod Microblocks
pub mod Blocks
pub mod Checks
pub mod Settlements
pub mod Frames
pub mod Payments
pub mod Dispatch
pub mod Seeds
mod Payouts
mod Entries
pub mod Ends
pub mod Powers
pub mod Examples
