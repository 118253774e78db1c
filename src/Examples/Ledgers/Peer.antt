-- ===== src/Examples/Ledgers/Peer.antt =====
-- A block that a peer of the small chain adds.
use banknote_chain.Base.{some, [], ◌∷◌}
use banknote_chain.Block.{BanknoteBlock}
use banknote_chain.Chain.{BlockChain}
use banknote_chain.Config.{peer}
use banknote_chain.Examples.Chain.{chain}
use banknote_chain.Examples.Ledgers.Inputs.{two_ledgers, paid, noted}
use banknote_chain.Examples.Stores.{log_lib, block}
use banknote_chain.Examples.Trie.{map_lib}
use banknote_chain.Storage.{Block}

abbrev lists : BanknoteBlock
lists = record {
  block_number = 1;
  banknote_block_hash = 0;
  tx_hash = 0;
  cledger_state_root = 0;
  pledger_state_roots = 0 ∷ 0 ∷ [];
  c_ledger = paid;
  p_ledgers = noted ∷ [] ∷ [];
  banknote_tx_count = 6;
}

abbrev sent_block : Block
sent_block = record block { banknote_block = some lists }

abbrev follower : BlockChain map_lib log_lib
follower = record chain { chain_config = record two_ledgers { node_mode = peer } }
