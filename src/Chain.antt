-- ===== src/Chain.antt =====
-- chain/blockchain.go: a node's chain, how a leader makes a block, and how any node adds one.
pub mod Roots
pub mod Restart
pub mod Transactions
pub mod Leader
pub mod Peer
pub mod Made
use banknote_chain.Base.{
  ℕ, ◌+◌, ◌*◌, ◌%◌, ◌^◌, List, [], ◌∷◌, ◌++◌, Option, none, some, length, ◌==◌, if◌then◌else◌,
}
use banknote_chain.Base.Int.{ℤ, pos}
use banknote_chain.Base.Outcome.{Outcome, ok, panic, log_panic, nil_dereference, require, ◌>>=◌}
use banknote_chain.Base.Go.{Hash, Address, Bytes, Gob, TrieLib, u64_mod}
use banknote_chain.Account.{AccountState}
use banknote_chain.Block.{BanknoteBlock, hash_bytes, new_genisis_banknote_block}
use banknote_chain.Config.{Config, leader}
use banknote_chain.Ledger.{pay, commit_trie, mark_modified}
use banknote_chain.Processor.Classify.{process_banknote_txs, replayed}
use banknote_chain.Processor.Peripheral.{Phases}
use banknote_chain.Processor.StateTrie.{ModifySet}
use banknote_chain.State.{BanknoteChainState, LedgerDir, new_banknote_chain_state_genisis}
use banknote_chain.Storage.{
  encode_bh, BlockHeader, Block, KeyValueLib, put_block, store_block, store_block_sync, get_block,
  get_newest_block_hash,
}
use banknote_chain.Transaction.{encode_tx, Transaction}
use banknote_chain.Tx.{BanknoteTx}

-- The number that bytes write, most significant byte first, after those that gave `n`.
abbrev pub of_bytes : ℕ → Bytes → ℕ
of_bytes n [] = n
of_bytes n (b ∷ bs) = of_bytes (n * 256 + b) bs

-- `common.BytesToHash` takes the last 32 bytes.
unfoldable pub bytes_to_hash : Bytes → Hash
bytes_to_hash bs = of_bytes 0 bs % 2 ^ 256

module _ (T : TrieLib) (D : KeyValueLib) where
  -- `pending_writes` are the blocks that goroutines of `StoreBlock` have yet to write. The state of the
  -- banknote ledgers is nil in a chain that was found in the store.
  pub record BlockChain : Type 0 where
    pub current_block : Block
    pub triedb : T.Database
    pub chain_config : Config
    pub banknote_state : Option (BanknoteChainState T)
    pub store : D.Database
    pub pending_writes : List Block
    pub processed_tx_count : ℕ

  pub record Progress : Type 0 where
    pub st : T.Trie
    pub modified_account_map : List Address
    pub cnt : ℕ

module _ (T : TrieLib) (D : KeyValueLib) (g : Gob AccountState) where
  abbrev pub advance : Progress T D → Transaction → T.Trie → Progress T D
  advance p tx st = record {
    st = st;
    modified_account_map =
        mark_modified tx.recipient (mark_modified tx.sender p.modified_account_map);
    cnt = p.cnt + 2;
  }

  unfoldable pub process_txs_loop : ℤ → Progress T D → List Transaction → Outcome (Progress T D)
  process_txs_loop init_balance p [] = ok p
  process_txs_loop init_balance p (tx ∷ txs) =
      pay T g init_balance p.st tx.sender tx.recipient tx.value >>= λ st.
      process_txs_loop init_balance (advance p tx st) txs

  -- `ProcessTxs` on transactions that are not none, from the root of the current block.
  unfoldable pub process_some_txs :
      BlockChain T D → Hash → List Transaction → Outcome (BlockChain T D × Hash)
  process_some_txs c root txs = do
    st ← require log_panic (T.new_trie root c.triedb)
    p ←
        process_txs_loop c.chain_config.init_balance
          (record { st = st; modified_account_map = []; cnt = 0 }) txs
    let counted = record c { processed_tx_count = (c.processed_tx_count + length txs) % u64_mod }
    let committed = do
      (rt, db) ← commit_trie T p.st c.triedb
      ok (record counted { triedb = db }, rt)
    if p.cnt == 0 then ok (counted, root) else committed

  -- The new root is returned; the count of the accounts is used nowhere.
  unfoldable pub process_txs : BlockChain T D → List Transaction → Outcome (BlockChain T D × Hash)
  process_txs c [] = ok (c, bytes_to_hash c.current_block.header.state_root)
  process_txs c (tx ∷ txs) =
      process_some_txs c (bytes_to_hash c.current_block.header.state_root) (tx ∷ txs)

-- `sha256` and `memory_database` are the libraries' hash and empty database; `zero_header` holds
-- the zero value of each field.
module _ (T : TrieLib) (D : KeyValueLib) (gh : Gob BlockHeader) (gb : Gob Block)
    (gt : Gob Transaction) (sha256 : Bytes → Bytes) (memory_database : T.Database)
    (open_database : LedgerDir → T.Database) where
  unfoldable pub update_all : T.Trie → List Transaction → Outcome T.Trie
  update_all t [] = ok t
  update_all t (tx ∷ txs) = encode_tx gt tx >>= λ enc. update_all (T.update t tx.tx_hash enc) txs

  unfoldable pub get_tx_tree_root : List Transaction → Outcome Bytes
  get_tx_tree_root txs =
      update_all (T.new_empty memory_database) txs >>= λ t. ok (hash_bytes (T.root_hash t))

  -- `Header.Hash()`
  unfoldable pub header_hash : BlockHeader → Outcome Bytes
  header_hash bh = encode_bh gh bh >>= λ enc. ok (sha256 enc)

  abbrev zero_header : BlockHeader
  zero_header = record {
    parent_block_hash = [];
    state_root = [];
    tx_root = [];
    number = 0;
    time = 0;
    miner = 0;
    total_tx_count = 0;
    proposed_time = 0;
    message_delay_time = pos 0;
  }

  -- The block, and the state of the ledgers that it belongs to. `triedb` is a new database over the
  -- node's store.
  unfoldable pub new_genisis_block : Config → T.Database → Outcome (Block × BanknoteChainState T)
  new_genisis_block cc triedb = do
    tx_root ← get_tx_tree_root []
    let bh = record zero_header {
      state_root = hash_bytes (T.root_hash (T.new_empty triedb));
      tx_root = tx_root;
    }
    let state = new_banknote_chain_state_genisis T open_database cc 0
    hash ← header_hash bh
    ok (
      record {
        header = bh;
        body = [];
        hash = hash;
        banknote_block =
            some (
              new_genisis_banknote_block cc.banknote_chain_pledger_number
                state.pledger_state_roots);
      },
      state,
    )

  -- `AddGenisisBlock`: the current block is the one that is read back.
  unfoldable pub add_genisis_block : D.Database → Block → Outcome (Block × D.Database)
  add_genisis_block db b = do
    db' ← store_block_sync D gh gb db b
    hash ← require log_panic (get_newest_block_hash D gh gb db')
    found ← get_block D gh gb db' hash
    current ← require log_panic found
    ok (current, db')

  -- `NewBlockChain` where no block is stored.
  unfoldable pub genisis_chain : Config → D.Database → T.Database → Outcome (BlockChain T D)
  genisis_chain cc db triedb = do
    (b, state) ← new_genisis_block cc triedb
    (current, db') ← add_genisis_block db b
    ok (record {
      current_block = current;
      triedb = triedb;
      chain_config = cc;
      banknote_state = some state;
      store = db';
      pending_writes = [];
      processed_tx_count = 0;
    })

  -- `NewBlockChain` where `hash` is the newest.
  unfoldable pub found_chain : Config → D.Database → T.Database → Bytes → Outcome (BlockChain T D)
  found_chain cc db triedb hash = do
    found ← get_block D gh gb db hash
    current ← require log_panic found
    t ← require log_panic (T.new_trie (bytes_to_hash current.header.state_root) triedb)
    ok (record {
      current_block = current;
      triedb = triedb;
      chain_config = cc;
      banknote_state = none;
      store = db;
      pending_writes = [];
      processed_tx_count = 0;
    })

  unfoldable pub new_block_chain : Config → D.Database → T.Database → Outcome (BlockChain T D)
  new_block_chain cc db triedb = elim (get_newest_block_hash D gh gb db) [
    | none ↦ genisis_chain cc db triedb
    | some hash ↦ found_chain cc db triedb hash
  ]

  -- A block is stored and becomes the current one. Its own write is left to a goroutine.
  unfoldable pub keep_block : BlockChain T D → Block → Outcome (BlockChain T D)
  keep_block c b = do
    db ← store_block D gh gb c.store b
    ok (record c { store = db; current_block = b; pending_writes = c.pending_writes ++ b ∷ [] })

  module _ (g : Gob AccountState) (range_order : ModifySet → List (Address × ℤ))
      (schedule : Phases → Phases) (keccak256 : Bytes → Hash) (turns : List ℕ) where
    -- The leader's clock is fixed at `fixed_time`.
    unfoldable pub generate_block_for_leader :
        ℕ
        → BlockChain T D
        → List Transaction
        → List BanknoteTx
        → ℕ
        → Outcome (Block × BlockChain T D)
    generate_block_for_leader fixed_time c txs banknote_txs block_number = do
      (c₁, rt) ← process_txs T D g c txs
      tx_root ← get_tx_tree_root txs
      let bh = record zero_header {
        parent_block_hash = c.current_block.hash;
        number = block_number;
        time = fixed_time;
        state_root = hash_bytes rt;
        tx_root = tx_root;
        miner = c.chain_config.node_id;
      }
      hash ← header_hash bh
      state ← require nil_dereference c₁.banknote_state
      (bb, state') ←
          process_banknote_txs T g range_order schedule keccak256 turns banknote_txs state
            c₁.chain_config block_number
      ok (
        record { header = bh; body = txs; hash = hash; banknote_block = some bb },
        record c₁ { banknote_state = some state' },
      )

    -- The part of `AddBlock` for a node that is not the leader, before the block is stored.
    unfoldable pub replay_block : BlockChain T D → Block → Outcome (BlockChain T D)
    replay_block c b = do
      (c₁, rt) ← process_txs T D g c b.body
      bb ← require nil_dereference b.banknote_block
      state ← require nil_dereference c₁.banknote_state
      (bb', state') ←
          process_banknote_txs T g range_order schedule keccak256 turns (replayed bb) state
            c₁.chain_config b.header.number
      ok (record c₁ { banknote_state = some state' })

    -- A wrong number or parent is printed, and the block is added all the same.
    unfoldable pub add_block : BlockChain T D → Block → Outcome (BlockChain T D)
    add_block c b = elim c.chain_config.node_mode [
      | leader ↦ keep_block c b
      | _ ↦ replay_block c b >>= λ c'. keep_block c' b
    ]
