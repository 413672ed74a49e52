-- ===== src/Accounts.antt =====
-- The accounts (src/carmentis/abci/accounts, but for the fees).
pub mod Sdk
pub mod State
pub mod History
pub mod Transfer
pub mod Escrow
pub mod Staking
pub mod Manager
pub mod Frames
pub mod Balances
pub mod Checks
pub mod Chain
pub mod Keys
pub mod Locks
pub mod Settlements
pub mod Tree
pub mod Examples
