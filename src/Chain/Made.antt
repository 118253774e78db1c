-- ===== src/Chain/Made.antt =====
-- chain/blockchain.go: what a call that returned has made of the chain.
use banknote_chain.Base.{
  ℕ, ◌≡◌, sym, ap, ◌∙◌, List, [], ◌∷◌, ◌++◌, some, Bool-cases, inl, inr, ◌==◌,
}
use banknote_chain.Base.Go.{Hash, Address, Bytes, Gob, TrieLib}
use banknote_chain.Base.Int.{ℤ}
use banknote_chain.Base.Outcome.{Outcome, ok, log_panic, nil_dereference, require, ◌>>=◌, >>=-eq-ok}
use banknote_chain.Account.{AccountState}
use banknote_chain.Block.{hash_bytes}
use banknote_chain.Chain.{
  BlockChain, bytes_to_hash, process_txs_loop, process_some_txs, process_txs, keep_block,
  replay_block, add_block, header_hash, get_tx_tree_root, update_all, generate_block_for_leader,
  zero_header,
}
use banknote_chain.Config.{NodeMode, leader, peer, other_node_mode}
use banknote_chain.Ledger.{commit_trie}
use banknote_chain.Processor.Classify.{process_banknote_txs, replayed}
use banknote_chain.Processor.Peripheral.{Phases}
use banknote_chain.Processor.StateTrie.{ModifySet}
use banknote_chain.State.{LedgerDir}
use banknote_chain.Storage.{BlockHeader, Block, KeyValueLib, store_block}
use banknote_chain.Transaction.{Transaction}
use banknote_chain.Tx.{BanknoteTx}

pub first_of_ok {ℓ κ} :
    {A : Type ℓ} {B : Type κ} {a a' : A} {b b' : B}
    → ◌≡◌ {A = Outcome (A × B)} (ok (a, b)) (ok (a', b'))
    → a ≡ a'
first_of_ok h = cc

pub second_of_ok {ℓ κ} :
    {A : Type ℓ} {B : Type κ} {a a' : A} {b b' : B}
    → ◌≡◌ {A = Outcome (A × B)} (ok (a, b)) (ok (a', b'))
    → b ≡ b'
second_of_ok h = cc

module _ {T : TrieLib} {D : KeyValueLib} (g : Gob AccountState) where
  -- `ProcessTxs` leaves the configuration alone.
  process_txs-config :
      (c c' : BlockChain T D) (txs : List Transaction) (rt : Hash)
      → process_txs T D g c txs ≡ ok (c', rt)
      → c'.chain_config ≡ c.chain_config
  unfolding process_txs process_some_txs
  process_txs-config c c' [] rt h = cc
  process_txs-config c c' (tx ∷ txs) rt h =
      let root = bytes_to_hash c.current_block.header.state_root in
      let (st, _, h₁) = >>=-eq-ok (require log_panic (T.new_trie root c.triedb)) _ h in
      let (p, _, h₂) =
        >>=-eq-ok
          (process_txs_loop T D g c.chain_config.init_balance
            (record { st = st; modified_account_map = []; cnt = 0 }) (tx ∷ txs))
          _ h₁ in
      elim (Bool-cases (p.cnt == 0)) [
        | inl idle ↦ let h₃ = rw idle at h₂ in sym (ap (λ z. z.chain_config) (first_of_ok h₃))
        | inr worked ↦
            let h₃ = rw worked at h₂ in
            let ((rt', db), _, h₄) = >>=-eq-ok (commit_trie T p.st c.triedb) _ h₃ in
            sym (ap (λ z. z.chain_config) (first_of_ok h₄))
      ]

module _ (T : TrieLib) (D : KeyValueLib) (gh : Gob BlockHeader) (gb : Gob Block)
    (gt : Gob Transaction) (sha256 : Bytes → Bytes) (memory_database : T.Database)
    (open_database : LedgerDir → T.Database) where
  keep_block-current :
      (c c' : BlockChain T D) (b : Block)
      → keep_block T D gh gb gt sha256 memory_database open_database c b ≡ ok c'
      → (c'.current_block ≡ b) × (c'.chain_config ≡ c.chain_config)
  unfolding keep_block
  keep_block-current c c' b h =
      let (db, _, h₁) = >>=-eq-ok (store_block D gh gb c.store b) _ h in
      let e : (record c {
        store = db;
        current_block = b;
        pending_writes = c.pending_writes ++ b ∷ [];
      })
          ≡ c' =
        cc in
      (sym (ap (λ z. z.current_block) e), sym (ap (λ z. z.chain_config) e))

  module _ (g : Gob AccountState) (range_order : ModifySet → List (Address × ℤ))
      (schedule : Phases → Phases) (keccak256 : Bytes → Hash) (turns : List ℕ) where
    replay_block-config :
        (c c' : BlockChain T D) (b : Block)
        → replay_block T D gh gb gt sha256 memory_database open_database g range_order schedule
            keccak256 turns c b
          ≡ ok c'
        → c'.chain_config ≡ c.chain_config
    unfolding replay_block
    replay_block-config c c' b h =
        let ((c₁, rt), paid, h₁) = >>=-eq-ok (process_txs T D g c b.body) _ h in
        let (bb, _, h₂) = >>=-eq-ok (require nil_dereference b.banknote_block) _ h₁ in
        let (state, _, h₃) = >>=-eq-ok (require nil_dereference c₁.banknote_state) _ h₂ in
        let ((bb', state'), _, h₄) =
          >>=-eq-ok
            (process_banknote_txs T g range_order schedule keccak256 turns (replayed bb) state
              c₁.chain_config b.header.number)
            _ h₃ in
        let e : record c₁ { banknote_state = some state' } ≡ c' = cc in
        sym (ap (λ z. z.chain_config) e) ∙ process_txs-config g c c₁ b.body rt paid

    replayed_and_kept :
        (c c' : BlockChain T D) (b : Block)
        → (replay_block T D gh gb gt sha256 memory_database open_database g range_order schedule
              keccak256 turns c b
            >>= λ d. keep_block T D gh gb gt sha256 memory_database open_database d b)
          ≡ ok c'
        → (c'.current_block ≡ b) × (c'.chain_config ≡ c.chain_config)
    replayed_and_kept c c' b h =
        let (c₁, again, h₁) =
          >>=-eq-ok
            (replay_block T D gh gb gt sha256 memory_database open_database g range_order schedule
              keccak256 turns c b)
            _ h in
        let (current, config) = keep_block-current c₁ c' b h₁ in
        (current, config ∙ replay_block-config c c₁ b again)

    added :
        (m : NodeMode) (c c' : BlockChain T D) (b : Block)
        → (elim m as (λ _. Outcome (BlockChain T D)) [
          | leader ↦ keep_block T D gh gb gt sha256 memory_database open_database c b
          | _ ↦
              replay_block T D gh gb gt sha256 memory_database open_database g range_order schedule
                keccak256 turns c b
              >>= λ d. keep_block T D gh gb gt sha256 memory_database open_database d b
        ])
          ≡ ok c'
        → (c'.current_block ≡ b) × (c'.chain_config ≡ c.chain_config)
    added leader c c' b h = keep_block-current c c' b h
    added peer c c' b h = replayed_and_kept c c' b h
    added other_node_mode c c' b h = replayed_and_kept c c' b h

    -- On either kind of node.
    pub add_block-current :
        (c c' : BlockChain T D) (b : Block)
        → add_block T D gh gb gt sha256 memory_database open_database g range_order schedule
            keccak256 turns c b
          ≡ ok c'
        → (c'.current_block ≡ b) × (c'.chain_config ≡ c.chain_config)
    unfolding add_block
    add_block-current c c' b h = added c.chain_config.node_mode c c' b h

    -- A block with no transactions between accounts.
    pub generate_block_for_leader-makes :
        (fixed_time : ℕ) (c c' : BlockChain T D) (txs : List BanknoteTx) (number : ℕ) (b : Block)
        → generate_block_for_leader T D gh gb gt sha256 memory_database open_database g range_order
            schedule keccak256 turns fixed_time c [] txs number
          ≡ ok (b, c')
        → (b.header.number ≡ number)
          × (b.header.parent_block_hash ≡ c.current_block.hash)
          × (c'.current_block ≡ c.current_block)
          × (c'.chain_config ≡ c.chain_config)
    unfolding generate_block_for_leader process_txs get_tx_tree_root update_all
    generate_block_for_leader-makes fixed_time c c' txs number b h =
        let root = bytes_to_hash c.current_block.header.state_root in
        let bh : BlockHeader =
          record (zero_header T D gh gb gt sha256 memory_database open_database) {
            parent_block_hash = c.current_block.hash;
            number = number;
            time = fixed_time;
            state_root = hash_bytes root;
            tx_root = hash_bytes (T.root_hash (T.new_empty memory_database));
            miner = c.chain_config.node_id;
          } in
        let (hash, _, h₁) =
          >>=-eq-ok (header_hash T D gh gb gt sha256 memory_database open_database bh) _ h in
        let (state, _, h₂) = >>=-eq-ok (require nil_dereference c.banknote_state) _ h₁ in
        let ((bb, state'), _, h₃) =
          >>=-eq-ok
            (process_banknote_txs T g range_order schedule keccak256 turns txs state c.chain_config
              number)
            _ h₂ in
        let made : record { header = bh; body = []; hash = hash; banknote_block = some bb } ≡ b =
          first_of_ok h₃ in
        let left : record c { banknote_state = some state' } ≡ c' = second_of_ok h₃ in
        (
          sym (ap (λ z. z.header.number) made),
          sym (ap (λ z. z.header.parent_block_hash) made),
          sym (ap (λ z. z.current_block) left),
          sym (ap (λ z. z.chain_config) left),
        )
