-- ===== src/Examples/Chain.antt =====
-- A node's chain at concrete inputs.
use banknote_chain.Base.{◌≡◌, refl, [], ◌∷◌, none, some, arith}
use banknote_chain.Base.Go.{Bytes}
use banknote_chain.Base.Int.{pos}
use banknote_chain.Base.Outcome.{ok, panic, log_panic, Returns}
use banknote_chain.Chain.{bytes_to_hash, BlockChain, process_txs, new_block_chain, keep_block}
use banknote_chain.Chain.Restart.{keep_block-restart, new_block_chain-restart}
use banknote_chain.Chain.Transactions.{process_txs-refines}
use banknote_chain.Examples.Codec.Instances.{
  account_gob, account_gob-IsGob, header_gob, block_gob, transaction_gob, header_gob-IsGob,
  block_gob-IsGob,
}
use banknote_chain.Examples.Ledgers.Inputs.{
  two_ledgers, start, start_trie, start_accounts, start_trie-Reads,
}
use banknote_chain.Examples.Stores.{log_lib, log_lib-IsKeyValueLib, block, tx}
use banknote_chain.Examples.Trie.{MapTrie, map_lib, map_lib-IsTrieLib}
use banknote_chain.Ledger.Spec.{Payment, settle_all}
use banknote_chain.Ledger.View.{Reads}
use banknote_chain.Storage.{Block, get_block, get_newest_block_hash, put_block}

abbrev pub rootless : Block
rootless = record block { header = record block.header { state_root = [] } }

abbrev pub chain : BlockChain map_lib log_lib
chain = record {
  current_block = rootless;
  triedb = [];
  chain_config = two_ledgers;
  banknote_state = some start;
  store = [];
  pending_writes = [];
  processed_tx_count = 0;
}

pub rootless_opens : map_lib.new_trie (bytes_to_hash []) [] ≡ some start_trie
unfolding bytes_to_hash
rootless_opens = refl

abbrev pub payment : Payment
payment = record { source = 1; target = 2; amount = pos 5 }

process_txs-refines_example :
    Returns (process_txs map_lib log_lib account_gob chain (tx 1 ∷ [])) λ r.
      ((w : MapTrie) × (map_lib.new_trie r.1 r.0.triedb ≡ some w)
        × Reads map_lib account_gob (pos 100) w (settle_all start_accounts (payment ∷ [])))
      × (r.0.current_block ≡ rootless)
      × (r.0.store ≡ [])
      × (r.0.banknote_state ≡ some start)
      × (r.0.chain_config ≡ two_ledgers)
process_txs-refines_example =
    process_txs-refines map_lib-IsTrieLib account_gob-IsGob log_lib chain start_accounts start_trie
      (tx 1 ∷ []) (payment ∷ []) rootless_opens start_trie-Reads (refl, refl, refl, tt)

abbrev pub digest : Bytes → Bytes
digest bs = 8 ∷ []

rootless_missing : get_block log_lib header_gob block_gob [] (9 ∷ []) ≡ ok none
unfolding get_block
rootless_missing = refl

keep_block-restart_example :
    Returns
      (keep_block map_lib log_lib header_gob block_gob transaction_gob digest []
        (λ _. [])
        chain
        rootless)
      λ c'.
        (c'.current_block ≡ rootless)
        × (new_block_chain map_lib log_lib header_gob block_gob transaction_gob digest []
              (λ _. [])
              two_ledgers
              c'.store
              c'.triedb
            ≡ panic log_panic)
        × Returns (put_block log_lib header_gob block_gob c'.store rootless) λ db.
          Returns
            (new_block_chain map_lib log_lib header_gob block_gob transaction_gob digest []
              (λ _. [])
              two_ledgers
              db
              c'.triedb)
            λ again. (again.current_block ≡ rootless) × (again.banknote_state ≡ none)
keep_block-restart_example =
    keep_block-restart map_lib map_lib-IsTrieLib log_lib log_lib-IsKeyValueLib header_gob block_gob
      transaction_gob header_gob-IsGob block_gob-IsGob digest [] (λ _. []) two_ledgers chain
      rootless start_trie rootless_missing rootless_opens

nothing_newest : get_newest_block_hash log_lib header_gob block_gob [] ≡ none
unfolding get_newest_block_hash
nothing_newest = refl

new_block_chain-restart_example :
    Returns
      (new_block_chain map_lib log_lib header_gob block_gob transaction_gob digest []
        (λ _. [])
        two_ledgers
        []
        [])
      λ c.
        (c.current_block.header.number ≡ 0)
        × (c.current_block.body ≡ [])
        × Returns
            (new_block_chain map_lib log_lib header_gob block_gob transaction_gob digest []
              (λ _. [])
              two_ledgers
              c.store
              [])
            λ again.
              (again.current_block ≡ c.current_block)
              × (again.banknote_state ≡ none)
              × (again.store ≡ c.store)
new_block_chain-restart_example =
    new_block_chain-restart map_lib map_lib-IsTrieLib log_lib log_lib-IsKeyValueLib header_gob
      block_gob transaction_gob header_gob-IsGob block_gob-IsGob digest [] (λ _. []) two_ledgers []
      [] nothing_newest (omega arith)
