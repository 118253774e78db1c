-- ===== src/Chain/Leader.antt =====
-- chain/blockchain.go, `GenerateBlockForLeader` and `AddBlock`: the block that a leader makes.
use banknote_chain.Base.{map, true, ℕ, ◌<◌, ◌≤◌, ◌≡◌, refl, ◌∙◌, List, [], ◌∷◌, length, some, keep}
use banknote_chain.Base.Go.{Hash, Address, Bytes, Gob, IsGob, TrieLib, IsTrieLib}
use banknote_chain.Base.Int.{ℤ, pos}
use banknote_chain.Base.Outcome.{ok, Returns}
use banknote_chain.Account.{AccountState}
use banknote_chain.Block.{BanknoteBlock, hash_bytes}
use banknote_chain.Chain.{
  bytes_to_hash, BlockChain, update_all, get_tx_tree_root, header_hash, generate_block_for_leader,
}
use banknote_chain.Chain.Transactions.{PaysFor, process_txs-refines}
use banknote_chain.Ledger.Spec.{Payment, settle_all}
use banknote_chain.Ledger.View.{Accounts, Reads}
use banknote_chain.Pool.Refinement.{Notes, Holds}
use banknote_chain.Processor.Classify.{is_nt}
use banknote_chain.Processor.Classify.Laws.{applied}
use banknote_chain.Processor.Classify.Refinement.{
  Books, AllRead, HaveAllAmounts, phases_of, process_banknote_txs-refines,
}
use banknote_chain.Processor.Concurrent.Ledgers.{from}
use banknote_chain.Processor.Concurrent.Refinement.{after_turns}
use banknote_chain.Processor.CoreLedger.Refinement.{Pays, CoreReads}
use banknote_chain.Processor.Peripheral.{Phases, fill_channels, fits}
use banknote_chain.Processor.Peripheral.Notes.{Keyed}
use banknote_chain.Processor.Peripheral.Whole.{sent}
use banknote_chain.Processor.StateTrie.{ModifySet}
use banknote_chain.Processor.StateTrie.Refinement.{IsRange, netted}
use banknote_chain.State.{BanknoteChainState, LedgerDir}
use banknote_chain.Storage.{BlockHeader, Block, KeyValueLib}
use banknote_chain.Transaction.{Transaction}
use banknote_chain.Tx.{BanknoteTx}

module _ {T : TrieLib} {g : Gob AccountState} (lawful : IsTrieLib T) (codec : IsGob g)
    (D : KeyValueLib) (gh : Gob BlockHeader) (gb : Gob Block) (gt : Gob Transaction)
    (is_gh : IsGob gh) (is_gt : IsGob gt) (sha256 : Bytes → Bytes) (memory_database : T.Database)
    (open_database : LedgerDir → T.Database) where
  update_all-returns :
      (t : T.Trie) (txs : List Transaction)
      → (u : T.Trie) × (update_all T D gh gb gt sha256 memory_database open_database t txs ≡ ok u)
  unfolding update_all
  update_all-returns t [] = (t, refl)
  update_all-returns t (tx ∷ txs) =
      let (u, run) = update_all-returns (T.update t tx.tx_hash (is_gt.stream tx)) txs in
      (u, rw (is_gt.encodes tx) run)

  get_tx_tree_root-returns :
      (txs : List Transaction)
      → (root : Bytes) × (get_tx_tree_root T D gh gb gt sha256 memory_database open_database txs
          ≡ ok root)
  unfolding get_tx_tree_root
  get_tx_tree_root-returns txs =
      let (u, run) = update_all-returns (T.new_empty memory_database) txs in
      (hash_bytes (T.root_hash u), rw run refl)

  pub generate_block_for_leader-refines :
      (range_order : ModifySet → List (Address × ℤ))
      → IsRange range_order
      → (schedule : Phases → Phases) (keccak256 : Bytes → Hash) (turns : List ℕ) (fixed_time : ℕ)
        (c : BlockChain T D) (txs : List Transaction) (banknote_txs : List BanknoteTx) (number : ℕ)
        (accounts : Accounts) (t : T.Trie) (payments : List Payment) (s : BanknoteChainState T)
        (f : Accounts) (ps : List Payment) (books : Books) (notes : Notes)
      → T.new_trie (bytes_to_hash c.current_block.header.state_root) c.triedb ≡ some t
      → Reads T g c.chain_config.init_balance t accounts
      → PaysFor txs payments
      → c.banknote_state ≡ some s
      → 0 < c.chain_config.banknote_chain_pledger_number
      → c.chain_config.banknote_chain_pledger_number ≤ length s.pledger_state_roots
      → CoreReads T g c.chain_config.init_balance s f
      → Pays (keep is_nt banknote_txs) ps
      → AllRead T g c.chain_config s books
      → Holds s.active_banknotes_pool notes
      → Keyed notes
      → ((i : ℕ)
          → i < c.chain_config.banknote_chain_pledger_number
          → HaveAllAmounts (phases_of schedule c.chain_config banknote_txs i))
      → ((i : ℕ)
          → i < c.chain_config.banknote_chain_pledger_number
          → fits c.chain_config (
              fill_channels
                (keep (applied c.chain_config.banknote_chain_pledger_number i) banknote_txs))
            ≡ true)
      → Returns
          (generate_block_for_leader T D gh gb gt sha256 memory_database open_database g range_order
            schedule keccak256 turns fixed_time c txs banknote_txs number)
          λ r.
            (r.0.header.number ≡ number)
            × (r.0.header.parent_block_hash ≡ c.current_block.hash)
            × (r.0.body ≡ txs)
            × (header_hash T D gh gb gt sha256 memory_database open_database r.0.header
                ≡ ok r.0.hash)
            × (get_tx_tree_root T D gh gb gt sha256 memory_database open_database txs
                ≡ ok r.0.header.tx_root)
            × ((root : Hash) × (w : T.Trie) × (r.0.header.state_root ≡ hash_bytes root)
                × (T.new_trie root r.1.triedb ≡ some w)
                × Reads T g c.chain_config.init_balance w (settle_all accounts payments))
            × ((bb : BanknoteBlock) × (s' : BanknoteChainState T) × (r.0.banknote_block ≡ some bb)
                × (r.1.banknote_state ≡ some s')
                × (bb.c_ledger ≡ keep is_nt banknote_txs)
                × CoreReads T g c.chain_config.init_balance s' (settle_all f ps)
                × AllRead T g c.chain_config s' (λ i.
                  netted (books i) (sent (phases_of schedule c.chain_config banknote_txs i)))
                × Holds s'.active_banknotes_pool (
                    after_turns c.chain_config turns
                      (map
                        (phases_of schedule c.chain_config banknote_txs)
                        (from 0 c.chain_config.banknote_chain_pledger_number))
                      notes))
            × (r.1.current_block ≡ c.current_block)
            × (r.1.store ≡ c.store)
  unfolding generate_block_for_leader header_hash
  generate_block_for_leader-refines range_order range schedule keccak256 turns fixed_time c txs
        banknote_txs number accounts t payments s f ps books notes opens reads pays has p roots core
        pays' all_read held keyed amounts places =
      let ((c₁, rt), paid, ((w, opens', reads'), current, store, state, config)) =
        process_txs-refines lawful codec D c accounts t txs payments opens reads pays in
      let (tx_root, rooted) = get_tx_tree_root-returns txs in
      let ((bb, s'), run, (core', all_read', held', normal, _, _)) =
        process_banknote_txs-refines lawful codec range_order range schedule keccak256 turns
          banknote_txs s c.chain_config number f ps books notes p roots core pays' all_read held
          keyed amounts places in
      let bh : BlockHeader = record {
        parent_block_hash = c.current_block.hash;
        state_root = hash_bytes rt;
        tx_root = tx_root;
        number = number;
        time = fixed_time;
        miner = c.chain_config.node_id;
        total_tx_count = 0;
        proposed_time = 0;
        message_delay_time = pos 0;
      } in
      (
        (
          record {
            header = bh;
            body = txs;
            hash = sha256 (is_gh.stream bh);
            banknote_block = some bb;
          },
          record c₁ { banknote_state = some s' },
        ),
        rw (paid, rooted, is_gh.encodes bh, state ∙ has, config, run) refl,
        (
          refl,
          refl,
          refl,
          rw (is_gh.encodes bh) refl,
          rooted,
          (rt, w, refl, opens', reads'),
          (bb, s', refl, refl, normal, core', all_read', held'),
          current,
          store,
        ),
      )
