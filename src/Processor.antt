-- ===== src/Processor.antt =====
-- chain/banknote_processor.go: a block of banknote transactions is sorted by type and ledger, and
-- each ledger applies its own.
pub mod CoreLedger
pub mod StateTrie
pub mod Peripheral
pub mod Concurrent
pub mod Classify
