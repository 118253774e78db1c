-- ===== src/Examples/Nodes.antt =====
-- The goroutines of a leader at concrete inputs.
use banknote_chain.Base.{
  true, keep, ℕ, ◌+◌, ◌≤◌, ◌<◌, ◌≡◌, refl, List, [], ◌∷◌, Option, none, some, false, ◌⊎◌, arith,
  length,
}
use banknote_chain.Base.Outcome.{Outcome, ok, Returns}
use banknote_chain.Base.Go.{increment}
use banknote_chain.Chain.{generate_block_for_leader}
use banknote_chain.Chain.Leader.{generate_block_for_leader-refines}
use banknote_chain.Examples.Chain.{chain, digest, rootless_opens}
use banknote_chain.Examples.Codec.Instances.{
  account_gob, account_gob-IsGob, header_gob, header_gob-IsGob, block_gob, transaction_gob,
  transaction_gob-IsGob,
}
use banknote_chain.Examples.Ledgers.Inputs.{
  two_ledgers, start, start_trie, start_accounts, start_trie-Reads, no_notes-Holds,
}
use banknote_chain.Examples.Ledgers.Process.{all_read, whole_map-IsRange}
use banknote_chain.Examples.Stores.{log_lib}
use banknote_chain.Examples.Trie.{map_lib, map_lib-IsTrieLib}
use banknote_chain.Generator.{banknote_rounds}
use banknote_chain.Node.{
  read_batch, generate_block, start_block, Node, Turn, read, generate, Reaches, here, next, turn,
  start_node,
}
use banknote_chain.Node.Ends.{Reaches-ends, run_length, made}
use banknote_chain.Node.Numbers.{IsNumbered, Reaches-IsNumbered, generate-stale, waiting}
use banknote_chain.Processor.Classify.Refinement.{HaveAllAmounts, phases_of}
use banknote_chain.Processor.Classify.Laws.{applied}
use banknote_chain.Processor.Peripheral.{fill_channels, fits}
use banknote_chain.Storage.{Block}
use banknote_chain.Tx.{BanknoteTx}

-- The reader of an empty dataset.
abbrev pub no_txs : ℕ → Outcome (List BanknoteTx × ℕ)
no_txs n = ok ([], n)

abbrev pub leader_turn : Turn → Node map_lib log_lib ℕ → Option (Outcome (Node map_lib log_lib ℕ))
leader_turn =
    turn map_lib log_lib ℕ header_gob block_gob transaction_gob digest [] (λ _. []) account_gob
      (λ m. m) (λ _. 8) no_txs 0

abbrev pub Runs : Node map_lib log_lib ℕ → Type 0
Runs =
    Reaches map_lib log_lib ℕ header_gob block_gob transaction_gob digest [] (λ _. []) account_gob
      (λ m. m) (λ _. 8) no_txs 0 (start_node map_lib log_lib ℕ chain 0)

abbrev first : Node map_lib log_lib ℕ
first = start_node map_lib log_lib ℕ chain 0

abbrev pub with_batch : Node map_lib log_lib ℕ
with_batch = record first { to_be_processed = [] ∷ [] }

reads : leader_turn read first ≡ some (ok with_batch)
unfolding turn read_batch banknote_rounds
reads = refl

no_places : (i : ℕ) → i < 2 → fits two_ledgers (fill_channels (keep (applied 2 i) [])) ≡ true
unfolding fill_channels
no_places i h = refl

no_amounts : (i : ℕ) → i < 2 → HaveAllAmounts (phases_of (λ p. p) two_ledgers [] i)
unfolding fill_channels
no_amounts i h = (tt, tt, tt)

abbrev MadeBy : Node map_lib log_lib ℕ → Type 0
MadeBy s =
    Returns
      (generate_block_for_leader map_lib log_lib header_gob block_gob transaction_gob digest []
        (λ _. []) account_gob (λ m. m) (λ p. p) (λ _. 8) (1 ∷ 0 ∷ []) 0 s.chain [] []
        (increment s.now_blk_number))
      (λ _. Unit {0})

pub first_block : MadeBy first
first_block =
    let (r, run, _) =
      generate_block_for_leader-refines map_lib-IsTrieLib account_gob-IsGob log_lib header_gob
        block_gob transaction_gob header_gob-IsGob transaction_gob-IsGob digest [] (λ _. [])
        (λ m. m) whole_map-IsRange (λ p. p) (λ _. 8) (1 ∷ 0 ∷ []) 0 chain [] [] 2 start_accounts
        start_trie [] start start_accounts [] (λ i. start_accounts) (λ _. none) rootless_opens
        start_trie-Reads tt refl (omega arith) (omega arith)
        ([], start_trie, refl, refl, start_trie-Reads) tt all_read no_notes-Holds (λ h b e. cc)
        no_amounts no_places in
    (r, run, tt)

-- The node with that block in the generator's hand.
abbrev pub with_block : Node map_lib log_lib ℕ
with_block = record with_batch {
  chain = first_block.0.1;
  to_be_processed = [];
  now_blk_number = 2;
  in_hand = some first_block.0.0;
}

generates : leader_turn (generate (λ p. p) (1 ∷ 0 ∷ [])) with_batch ≡ some (ok with_block)
unfolding turn start_block generate_block
generates = rw (first_block.1) refl

pub run : Runs with_block
run = next (generate (λ p. p) (1 ∷ 0 ∷ [])) (next read here reads) generates

Reaches-IsNumbered_example : IsNumbered 1 with_block
Reaches-IsNumbered_example =
    Reaches-IsNumbered map_lib log_lib ℕ header_gob block_gob transaction_gob digest [] (λ _. [])
      account_gob (λ m. m) (λ _. 8) no_txs 0 chain 0 with_block run

Reaches-ends_example :
    (made with_block ≤ run_length 1 2)
    × ((with_block.stopped ≡ false) ⊎ (made with_block ≡ run_length 1 2))
Reaches-ends_example =
    Reaches-ends map_lib log_lib ℕ header_gob block_gob transaction_gob digest [] (λ _. [])
      account_gob (λ m. m) (λ _. 8) no_txs 0 chain 0 with_block (omega arith) (omega arith) run

generate-stale_example :
    (b : Block) × (with_block.in_hand ≡ some b)
    × (b.header.parent_block_hash ≡ with_batch.chain.current_block.hash)
    × (b.header.number
        ≡ with_batch.chain.current_block.header.number + length (waiting with_batch) + 1)
generate-stale_example =
    generate-stale map_lib log_lib ℕ header_gob block_gob transaction_gob digest [] (λ _. [])
      account_gob (λ m. m) (λ _. 8) no_txs 0 chain 0 with_batch with_block (λ p. p) (1 ∷ 0 ∷ [])
      (next read here reads) generates (omega arith)
