-- ===== src/Examples/Delivery.antt =====
-- A block of a leader on its way to a peer.
use banknote_chain.Base.{ℕ, ◌%◌, ◌≡◌, refl, ap, [], ◌∷◌, ◌++◌, none, some, true, ◌==◌, leb}
use banknote_chain.Base.Go.{u64_mod}
use banknote_chain.Base.Outcome.{ok, Returns}
use banknote_chain.Chain.{BlockChain, add_block, keep_block}
use banknote_chain.Chain.Made.{generate_block_for_leader-makes}
use banknote_chain.Examples.Codec.Instances.{
  account_gob, header_gob, header_gob-IsGob, block_gob, block_gob-IsGob, transaction_gob,
}
use banknote_chain.Examples.Chain.{chain, digest}
use banknote_chain.Examples.Ledgers.Inputs.{two_ledgers}
use banknote_chain.Examples.Nodes.{Runs, leader_turn, with_block, first_block, run, no_txs}
use banknote_chain.Examples.Stores.{log_lib, log_lib-IsKeyValueLib}
use banknote_chain.Examples.Trie.{map_lib}
use banknote_chain.Node.{
  Node, send, add, next, turn, send_block, add_first, take_block, propose_block, publish, propose,
}
use banknote_chain.Program.{receive_all}
use banknote_chain.Program.Delivery.{Arrived, incoming, sent_flags, receive_all-delivers}
use banknote_chain.Storage.{Block, store_block}
use banknote_chain.Storage.Laws.{store_block-reads_late}

abbrev made_block : Block
made_block = first_block.0.0

abbrev with_sent : Node map_lib log_lib ℕ
with_sent = record with_block {
  to_be_added_blocks = made_block ∷ [];
  in_hand = none;
  stopped = leb (with_block.chain.chain_config.exp_block_number % u64_mod) 2;
}

sends : leader_turn send with_block ≡ some (ok with_sent)
unfolding turn send_block
sends = refl

stores :
    Returns
      (store_block log_lib header_gob block_gob with_sent.chain.store made_block)
      (λ _. Unit {0})
stores =
    let (db, run, _) =
      store_block-reads_late log_lib log_lib-IsKeyValueLib header_gob block_gob header_gob-IsGob
        block_gob-IsGob with_sent.chain.store made_block in
    (db, run, tt)

leads : with_sent.chain.chain_config ≡ two_ledgers
leads =
    (generate_block_for_leader-makes map_lib log_lib header_gob block_gob transaction_gob digest []
      (λ _. []) account_gob (λ m. m) (λ p. p) (λ _. 8) (1 ∷ 0 ∷ []) 0 chain first_block.0.1 [] 2
      made_block (first_block.1)).3

abbrev kept : BlockChain map_lib log_lib
kept = record (with_sent.chain) {
  store = stores.0;
  current_block = made_block;
  pending_writes = with_sent.chain.pending_writes ++ made_block ∷ [];
}

keeps :
    add_block map_lib log_lib header_gob block_gob transaction_gob digest []
      (λ _. [])
      account_gob
      (λ m. m)
      (λ p. p)
      (λ _. 8)
      (1 ∷ 0 ∷ [])
      with_sent.chain
      made_block
    ≡ ok kept
unfolding add_block keep_block
keeps = rw (add_block, ap (λ c. c.node_mode) leads, stores.1) refl

abbrev with_added : Node map_lib log_lib ℕ
with_added = record with_sent {
  chain = record kept { current_block = propose 5 made_block };
  to_be_added_blocks = [];
  added = made_block ∷ [];
  messages = block_gob-IsGob.stream (propose 5 made_block) ∷ [];
}

adds : leader_turn (add (λ p. p) (1 ∷ 0 ∷ []) (some 5) true) with_sent ≡ some (ok with_added)
unfolding turn add_first take_block propose_block publish
adds = rw (keeps, block_gob-IsGob.encodes (propose 5 made_block)) refl

ran : Runs with_added
ran = next (add (λ p. p) (1 ∷ 0 ∷ []) (some 5) true) (next send run sends) adds

receive_all-delivers_example :
    Returns (receive_all ◌==◌ block_gob 1 (incoming 0 with_added.messages (8 ∷ [])) []) λ qs.
      Arrived
        (sent_flags ◌==◌ map_lib log_lib ℕ header_gob block_gob transaction_gob block_gob-IsGob
          digest []
          (λ _. [])
          account_gob
          (λ m. m)
          (λ _. 8)
          no_txs
          0
          ran)
        qs
        (made_block ∷ [])
receive_all-delivers_example =
    receive_all-delivers ◌==◌ map_lib log_lib ℕ header_gob block_gob transaction_gob block_gob-IsGob
      digest [] (λ _. []) account_gob (λ m. m) (λ _. 8) no_txs 0 chain 0 with_added 1 0 (8 ∷ []) ran
      refl refl
