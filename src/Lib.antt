-- ===== src/Lib.antt =====
-- Banknote-Chain: a blockchain whose transactions are sorted to a core ledger of accounts and to
-- peripheral ledgers of banknotes. A leader makes blocks; it and its peers process their
-- transactions and store them. This library models the program's logic in Go.
--
-- The parts and their files (paths from the repository's root):
--
-- - `Base`: shared names, lists and tests on the native numbers, Go's integers and hashes, the
--   outcome of a call that may panic, and the libraries for gob and tries as records of operations
--   with their documented laws (`Gob`, `TrieLib`).
-- - `Config`: utils/config.go, the settings that are read, and `NewConfigFromJson`.
-- - `Account`: core/account.go. `deduct`, `deposit` are `Deduct`, `Deposit`.
-- - `Banknote`, `Pool`: banknoteChain/banknote.go and banknote_pool.go. `Pool.Refinement` relates the
--   sharded pool to one map.
-- - `Tx`: banknoteChain/banknote_transaction.go, with `SortBanknoteTxs` in `Tx.Sort`.
-- - `Transaction`, `TxPool`: core/transaction.go and txPool/txpool.go. `TxPool.Steps` has the turns of
--   a producer that may wait and of the consumers.
-- - `Block`: banknoteChain/banknote_block.go.
-- - `Storage`: storage/storage.go with the block of core/block.go, over a key-value database
--   (`KeyValueLib`).
-- - `Ledger`: the payment, the account access and the commit that chain/blockchain.go and
--   chain/banknote_processor.go repeat. `Ledger.View` sees a trie as a function from addresses to
--   accounts, and `Ledger.Spec` says what a payment does to it.
-- - `State`: banknoteChain/banknote_state.go, the roots, databases and pool that the ledgers share.
-- - `Processor`: chain/banknote_processor.go. `CoreLedger`, `Peripheral` and `StateTrie` are the three
--   functions for a ledger, `Concurrent` is the goroutines of the peripheral ledgers, which share the
--   pool, and `Classify` is `ProcessBanknoteTxs`, which starts them.
--   `Peripheral.Channels` has the goroutine that fills the four channels of a ledger and the workers
--   that empty them; `Peripheral` takes the lists that they get.
-- - `Chain`: chain/blockchain.go, the node's chain, which calls `Processor` and `Storage`.
--   `Chain.Leader` is about the block that a leader makes, `Chain.Peer` about the one that a peer adds,
--   `Chain.Transactions` about `ProcessTxs`, and `Chain.Restart` about a node that starts.
-- - `Generator`: chain/block_generator.go, how the transactions of a block are taken from the datasets of
--   txGenerator/USDT_dataset_csv_reader.go, whose goroutines and channels are in `Generator.Usdt`, of
--   txGenerator/banknote_dataset_csv_reader.go in `Generator.Dataset`, and of
--   txGenerator/banknote_dataset_random_reader.go in `Generator.Random`.
-- - `Node`: the rest of chain/block_generator.go, `StartBlockGenerator` and `StartBlockAdder`: the
--   goroutine that reads batches, the generator and the adder take turns, in any order, over the
--   channels `TobeProcessedTxsChan` and `ToBeAddedBlocks` with their places. They call `Chain`.
--   `Node.Numbers` is about the numbers of the blocks, `Node.Ends` about the end of the generator.
-- - `Network`: network/p2p.go, over libp2p, its keys and the files (`P2pLib`, `KeyLib`, `FileLib`).
-- - `Program`: cmd/main.go, with the loop in which a peer takes the leader's blocks.
--   `Program.Delivery` follows blocks from the adder of `Node` to the queue of a peer.
-- - `Addresses`: utils/utils_address.go.
-- - `Examples`: concrete libraries and inputs at which the theorems are applied.
--
-- A call that may panic returns an `Outcome`; state is passed on explicitly. Loops over slices, maps
-- and channels are structural recursions on lists, so no fuel is needed. `common.Hash` and
-- `common.Address` are the numbers that their bytes write. Counts on uint64 wrap around. A nil
-- `*big.Int` in a transaction is `none`; an account always has a balance.
--
-- Concurrency: the order in which Go visits a map is a parameter, and so are the order in which workers
-- take the transactions of a phase. The peripheral ledgers of a block work on the pool at the same time:
-- their turns come in any order, and the body of a worker's loop is one turn. A ledger whose channels
-- have too few places for its transactions blocks (`take_channels`). The lists of a block are hashed
-- before they are sorted. The goroutine in `StoreBlock` is a write of its own.
--
-- A turn of a goroutine of `Node` is the whole body of its loop up to where it waits: the adder does
-- not run while the generator makes a block. No fuel is needed there either: a run is a sequence of
-- turns.
--
-- Not modelled: the result writer, the signature simulator, the handling of signals in `main`, and
-- logs and timings. The copy of go-ethereum's database wrapper is used by nothing. The bound of the
-- channel to the state trie is not modelled, nor is `NewBanknoteChainState`, which nothing calls.
pub mod Base
pub mod Account
pub mod Config
pub mod Banknote
pub mod Pool
pub mod Tx
pub mod Transaction
pub mod TxPool
pub mod Storage
pub mod Block
pub mod Ledger
pub mod State
pub mod Processor
pub mod Chain
pub mod Generator
pub mod Node
pub mod Network
pub mod Program
pub mod Addresses
pub mod Examples
