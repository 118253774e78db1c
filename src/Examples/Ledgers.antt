-- ===== src/Examples/Ledgers.antt =====
-- The ledgers of a small chain: two peripheral ledgers, and accounts that start with 100.
pub mod Inputs
mod Accounts
mod Notes
mod Whole
pub mod Process
mod Leader
mod Peer
mod Agreement
mod Channels
