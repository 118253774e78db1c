-- ===== src/Chain/Restart.antt =====
-- chain/blockchain.go, `NewBlockChain`: what a node finds when it starts again.
use banknote_chain.Base.{◌^◌, ◌<◌, ◌≡◌, refl, sym, ap, ◌∙◌, [], ◌∷◌, ◌++◌, none, some}
use banknote_chain.Base.Go.{Bytes, Gob, IsGob, TrieLib, IsTrieLib}
use banknote_chain.Base.Int.{pos}
use banknote_chain.Base.Outcome.{Outcome, ok, panic, log_panic, Returns}
use banknote_chain.Block.{hash_bytes, new_genisis_banknote_block}
use banknote_chain.Chain.{
  bytes_to_hash, BlockChain, get_tx_tree_root, update_all, header_hash, new_genisis_block,
  add_genisis_block, genisis_chain, found_chain, new_block_chain, keep_block,
}
use banknote_chain.Chain.Roots.{bytes_to_hash-hash_bytes}
use banknote_chain.Config.{Config}
use banknote_chain.State.{LedgerDir, new_banknote_chain_state_genisis}
use banknote_chain.Storage.{
  BlockHeader, Block, KeyValueLib, IsKeyValueLib, put_block, get_block, get_newest_block_hash,
}
use banknote_chain.Storage.Laws.{store_block_sync-reads, store_block-reads_late}
use banknote_chain.Transaction.{Transaction}

module _ (T : TrieLib) (lawful : IsTrieLib T) (D : KeyValueLib) (lib : IsKeyValueLib D)
    (gh : Gob BlockHeader) (gb : Gob Block) (gt : Gob Transaction) (is_gh : IsGob gh)
    (is_gb : IsGob gb) (sha256 : Bytes → Bytes) (memory_database : T.Database)
    (open_database : LedgerDir → T.Database) where
  abbrev start_node : Config → D.Database → T.Database → Outcome (BlockChain T D)
  start_node = new_block_chain T D gh gb gt sha256 memory_database open_database

  -- A node that finds a newest hash with its block, and a trie at the block's root.
  found_chain-current :
      (cc : Config) (db : D.Database) (triedb : T.Database) (b : Block) (t : T.Trie)
      → get_newest_block_hash D gh gb db ≡ some b.hash
      → get_block D gh gb db b.hash ≡ ok (some b)
      → T.new_trie (bytes_to_hash b.header.state_root) triedb ≡ some t
      → Returns
          (start_node cc db triedb)
          λ c. (c.current_block ≡ b) × (c.banknote_state ≡ none) × (c.store ≡ db)
  unfolding new_block_chain found_chain
  found_chain-current cc db triedb b t newest found opens = (
    record {
      current_block = b;
      triedb = triedb;
      chain_config = cc;
      banknote_state = none;
      store = db;
      pending_writes = [];
      processed_tx_count = 0;
    },
    rw (new_block_chain, newest, found_chain, found, opens) refl,
    (refl, refl, refl),
  )

  -- When a block is added that was not in the store, and whose root opens, a node that starts before
  -- the goroutine of `StoreBlock` has written it ends in a panic; one that starts after the write
  -- has the block as its current block, but no state of the banknote ledgers.
  pub keep_block-restart :
      (cc : Config) (c : BlockChain T D) (b : Block) (t : T.Trie)
      → get_block D gh gb c.store b.hash ≡ ok none
      → T.new_trie (bytes_to_hash b.header.state_root) c.triedb ≡ some t
      → Returns (keep_block T D gh gb gt sha256 memory_database open_database c b) λ c'.
        (c'.current_block ≡ b)
        × (new_block_chain T D gh gb gt sha256 memory_database open_database cc c'.store c'.triedb
            ≡ panic log_panic)
        × Returns (put_block D gh gb c'.store b) λ db.
          Returns
            (new_block_chain T D gh gb gt sha256 memory_database open_database cc db c'.triedb)
            λ again. (again.current_block ≡ b) × (again.banknote_state ≡ none)
  unfolding keep_block new_block_chain found_chain
  keep_block-restart cc c b t missing opens =
      let (db₁, stored, (newest, header, as_before, (db₂, wrote, (found, newest')))) =
        store_block-reads_late D lib gh gb is_gh is_gb c.store b in
      let (again, run, (current, no_state, same)) =
        found_chain-current cc db₂ c.triedb b t newest' found opens in
      (
        record c { store = db₁; current_block = b; pending_writes = c.pending_writes ++ b ∷ [] },
        rw stored refl,
        (
          refl,
          rw (new_block_chain, newest, found_chain, as_before b.hash, missing) refl,
          (db₂, wrote, (again, run, (current, no_state))),
        ),
      )

  new_genisis_block-made :
      (cc : Config) (triedb : T.Database)
      → Returns (new_genisis_block T D gh gb gt sha256 memory_database open_database cc triedb) λ r.
        (r.0.header.number ≡ 0)
        × (r.0.body ≡ [])
        × (r.0.header.state_root ≡ hash_bytes (T.root_hash (T.new_empty triedb)))
  unfolding new_genisis_block get_tx_tree_root update_all header_hash
  new_genisis_block-made cc triedb =
      let state = new_banknote_chain_state_genisis T open_database cc 0 in
      let bh : BlockHeader = record {
        parent_block_hash = [];
        state_root = hash_bytes (T.root_hash (T.new_empty triedb));
        tx_root = hash_bytes (T.root_hash (T.new_empty memory_database));
        number = 0;
        time = 0;
        miner = 0;
        total_tx_count = 0;
        proposed_time = 0;
        message_delay_time = pos 0;
      } in
      let b : Block = record {
        header = bh;
        body = [];
        hash = sha256 (is_gh.stream bh);
        banknote_block =
            some (
              new_genisis_banknote_block cc.banknote_chain_pledger_number
                state.pledger_state_roots);
      } in
      ((b, state), rw (is_gh.encodes bh) refl, (refl, refl, refl))

  add_genisis_block-current :
      (db : D.Database) (b : Block)
      → Returns (add_genisis_block T D gh gb gt sha256 memory_database open_database db b) λ r.
        (r.0 ≡ b)
        × (get_newest_block_hash D gh gb r.1 ≡ some b.hash)
        × (get_block D gh gb r.1 b.hash ≡ ok (some b))
  unfolding add_genisis_block
  add_genisis_block-current db b =
      let (db', stored, (newest, found, _, _)) =
        store_block_sync-reads D lib gh gb is_gh is_gb db b in
      ((b, db'), rw (stored, newest, found) refl, (refl, newest, found))

  -- On a store without a newest hash a node makes the genesis block and stores it: the block with
  -- number 0 and no transactions that it has as current is the one that the store holds as newest.
  -- A node that starts again on that store has the same current block, but no state of the
  -- banknote ledgers.
  pub new_block_chain-restart :
      (cc : Config) (db : D.Database) (triedb : T.Database)
      → get_newest_block_hash D gh gb db ≡ none
      → T.root_hash (T.new_empty triedb) < 2 ^ 256
      → Returns
          (new_block_chain T D gh gb gt sha256 memory_database open_database cc db triedb)
          λ c.
            (c.current_block.header.number ≡ 0)
            × (c.current_block.body ≡ [])
            × Returns
                (new_block_chain T D gh gb gt sha256 memory_database open_database cc c.store
                  triedb)
                λ again.
                  (again.current_block ≡ c.current_block)
                  × (again.banknote_state ≡ none)
                  × (again.store ≡ c.store)
  unfolding new_block_chain genisis_chain
  new_block_chain-restart cc db triedb absent small =
      let ((b, state), made, (number, body, root)) = new_genisis_block-made cc triedb in
      let ((current, db'), added, (same, newest, found)) = add_genisis_block-current db b in
      let root_eq : bytes_to_hash b.header.state_root ≡ T.root_hash (T.new_empty triedb) =
        ap bytes_to_hash root ∙ bytes_to_hash-hash_bytes (T.root_hash (T.new_empty triedb)) small in
      let opens : T.new_trie (bytes_to_hash b.header.state_root) triedb
          ≡ some (T.new_empty triedb) =
        ap (λ z. T.new_trie z triedb) root_eq ∙ lawful.empty_opens triedb in
      let (again, run, (current', no_state, store)) =
        found_chain-current cc db' triedb b (T.new_empty triedb) newest found opens in
      (
        record {
          current_block = current;
          triedb = triedb;
          chain_config = cc;
          banknote_state = some state;
          store = db';
          pending_writes = [];
          processed_tx_count = 0;
        },
        rw (new_block_chain, absent, genisis_chain, made, added) refl,
        (
          ap (λ z. z.header.number) same ∙ number,
          ap (λ z. z.body) same ∙ body,
          (again, run, (current' ∙ sym same, no_state, store)),
        ),
      )
