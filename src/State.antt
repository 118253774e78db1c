-- ===== src/State.antt =====
-- banknoteChain/banknote_state.go: the state that the ledgers share, and the paths of its
-- databases.
pub mod Genesis
use banknote_chain.Base.{ℕ, zero, suc, ◌+◌, List, [], ◌∷◌, ◌%◌}
use banknote_chain.Base.Go.{Hash, TrieLib}
use banknote_chain.Config.{Config}
use banknote_chain.Pool.{ActiveBanknotePool, new_active_banknote_pool}

-- `Ethdbs` are the disks below `triedbs`, and the signature simulator holds no state.
pub record BanknoteChainState (T : TrieLib) : Type 0 where
  pub current_block_number : ℕ
  pub cledger_state_root : Hash
  pub pledger_state_roots : List Hash
  pub triedbs : List T.Database
  pub active_banknotes_pool : ActiveBanknotePool

-- The directory of a ledger's database: the part of the path below the storage path, before the
-- node's number.
pub data LedgerDir : Type 0 where
  core_ledger_state_db : LedgerDir
  pledger_state_db : ℕ → LedgerDir

-- The path in `NewBanknoteChainStateGenisis`.
unfoldable pub genesis_dir : ℕ → LedgerDir
genesis_dir zero = core_ledger_state_db
genesis_dir (suc i) = pledger_state_db (suc i)

module _ (T : TrieLib) (open_database : LedgerDir → T.Database) where
  -- One round of the genesis loop after another: a database and the root of its empty trie.
  pub genesis_ledgers : ℕ → ℕ → List (T.Database × Hash)
  genesis_ledgers i zero = []
  genesis_ledgers i (suc n) =
      let db = open_database (genesis_dir i) in
      (db, T.root_hash (T.new_empty db)) ∷ genesis_ledgers (i + 1) n

  pub databases : List (T.Database × Hash) → List T.Database
  databases [] = []
  databases (e ∷ es) = e.0 ∷ databases es

  pub roots : List (T.Database × Hash) → List Hash
  roots [] = []
  roots (e ∷ es) = e.1 ∷ roots es

  unfoldable pub new_banknote_chain_state_genisis : Config → ℕ → BanknoteChainState T
  unfolding genesis_ledgers databases roots
  new_banknote_chain_state_genisis cc current_block_number =
      let n = cc.banknote_chain_pledger_number in
      let core = open_database (genesis_dir 0) in
      let peripheral = genesis_ledgers 1 n in
      record {
        current_block_number = current_block_number;
        cledger_state_root = T.root_hash (T.new_empty core);
        pledger_state_roots = roots peripheral;
        triedbs = core ∷ databases peripheral;
        active_banknotes_pool = new_active_banknote_pool n;
      }
