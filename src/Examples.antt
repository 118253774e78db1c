-- ===== src/Examples.antt =====
-- Concrete libraries and inputs, and the theorems at them.
pub mod Trie
pub mod Codec
mod Ledgers
mod Blocks
mod Stores
mod Chain
mod Datasets
mod Nodes
mod Networks
mod Delivery
mod Addresses
mod Usdt
mod Randoms
