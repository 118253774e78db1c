-- ===== src/Node.antt =====
-- chain/block_generator.go: the goroutines of a node, which share its chain. `StartBlockGenerator`
-- runs a reader of transactions and the generator of blocks, and `StartBlockAdder` the adder.
pub mod Effects
pub mod Numbers
pub mod Ends
use banknote_chain.Base.{
  ℕ, ◌+◌, ◌%◌, List, [], ◌∷◌, ◌++◌, Option, none, some, Bool, true, false, length, leb,
  if◌then◌else◌, ◌≡◌,
}
use banknote_chain.Base.Int.{ℤ}
use banknote_chain.Base.Outcome.{Outcome, ok, log_panic, require, ◌>>=◌}
use banknote_chain.Base.Go.{Hash, Address, Bytes, Gob, TrieLib, u64_mod, increment}
use banknote_chain.Account.{AccountState}
use banknote_chain.Chain.{BlockChain, generate_block_for_leader, add_block}
use banknote_chain.Generator.{banknote_rounds}
use banknote_chain.Processor.Peripheral.{Phases}
use banknote_chain.Processor.StateTrie.{ModifySet}
use banknote_chain.State.{LedgerDir}
use banknote_chain.Storage.{encode_b, BlockHeader, Block, KeyValueLib}
use banknote_chain.Transaction.{Transaction}
use banknote_chain.Tx.{BanknoteTx}

-- The places of `TobeProcessedTxsChan` and of `ToBeAddedBlocks`.
abbrev pub batch_places : ℕ
batch_places = 2

abbrev pub block_places : ℕ
block_places = 100

-- `blk.Header.ProposedTime = time.Now()`
abbrev pub propose : ℕ → Block → Block
propose now b = record b { header = record b.header { proposed_time = now } }

-- `R` is the state of the dataset reader. A block that is generated is in the generator's hand until
-- the channel has a place for it. `added` are the blocks that the adder has taken so far, and
-- `messages` what it has broadcast.
module _ (T : TrieLib) (D : KeyValueLib) (R : Type 0) where
  pub record Node : Type 0 where
    pub chain : BlockChain T D
    pub reader : R
    pub to_be_processed : List (List BanknoteTx)
    pub now_blk_number : ℕ
    pub in_hand : Option Block
    pub stopped : Bool
    pub to_be_added_blocks : List Block
    pub added : List Block
    pub messages : List Bytes

-- What the scheduler picks: the goroutine whose turn it is, with what its environment gives. The
-- adder of a leader has a publisher and the time; the broadcast may fail, which is only logged.
pub data Turn : Type 0 where
  read : Turn
  generate : (Phases → Phases) → List ℕ → Turn
  send : Turn
  add : (Phases → Phases) → List ℕ → Option ℕ → Bool → Turn

module _ (T : TrieLib) (D : KeyValueLib) (R : Type 0) where
  -- The node when `StartBlockGenerator` and `StartBlockAdder` begin.
  abbrev pub start_node : BlockChain T D → R → Node T D R
  start_node c r = record {
    chain = c;
    reader = r;
    to_be_processed = [];
    now_blk_number = c.current_block.header.number;
    in_hand = none;
    stopped = false;
    to_be_added_blocks = [];
    added = [];
    messages = [];
  }

  -- `bc.ToBeAddedBlocks <- blk`, and the test for the last block. The goroutine waits (none) while
  -- the channel is full or there is nothing to send. With a limit on its cores the program ends some
  -- time after the last block, which is left out.
  unfoldable pub send_block : Node T D R → Option Block → Option (Outcome (Node T D R))
  send_block s none = none
  send_block s (some b) =
      if leb block_places (length s.to_be_added_blocks)
      then none
      else some (
          ok (record s {
            to_be_added_blocks = s.to_be_added_blocks ++ b ∷ [];
            in_hand = none;
            stopped = leb (s.chain.chain_config.exp_block_number % u64_mod) s.now_blk_number;
          }))

module _ (T : TrieLib) (D : KeyValueLib) (R : Type 0) (gh : Gob BlockHeader) (gb : Gob Block)
    (gt : Gob Transaction) (sha256 : Bytes → Bytes) (memory_database : T.Database)
    (open_database : LedgerDir → T.Database) (g : Gob AccountState)
    (range_order : ModifySet → List (Address × ℤ)) (keccak256 : Bytes → Hash)
    (read_item : R → Outcome (List BanknoteTx × R)) (fixed_time : ℕ) where
  -- One turn of the loop that reads a batch. `read_item` is what one round of it appends in the mode
  -- of the run: `random_round` in "scalability".
  unfoldable pub read_batch : Node T D R → Outcome (Node T D R)
  read_batch s = do
    (txs, r) ← banknote_rounds read_item s.chain.chain_config.tx_count_per_block s.reader
    ok (record s { reader = r; to_be_processed = s.to_be_processed ++ txs ∷ [] })

  -- A block is made of a batch, with no transactions between accounts.
  unfoldable pub generate_block :
      (Phases → Phases)
      → List ℕ
      → List BanknoteTx
      → List (List BanknoteTx)
      → Node T D R
      → Outcome (Node T D R)
  generate_block schedule turns txs rest s = do
    let number = increment s.now_blk_number
    (b, c) ←
        generate_block_for_leader T D gh gb gt sha256 memory_database open_database g range_order
          schedule keccak256 turns fixed_time s.chain [] txs number
    ok (record s { chain = c; to_be_processed = rest; now_blk_number = number; in_hand = some b })

  unfoldable pub publish : Block → Bool → List Bytes → Outcome (List Bytes)
  publish b delivered messages = do
    message ← encode_b gb b
    ok (if delivered then messages ++ message ∷ [] else messages)

  -- The time is set in the block that is the current one by then. What `StoreBlock` has yet to write
  -- stays as it was.
  unfoldable pub propose_block :
      Option ℕ → Bool → Block → BlockChain T D → List Bytes → Outcome (BlockChain T D × List Bytes)
  propose_block none delivered b c messages = ok (c, messages)
  propose_block (some now) delivered b c messages =
      publish (propose now b) delivered messages >>= λ ms.
      ok (record c { current_block = propose now b }, ms)

  unfoldable pub take_block :
      (Phases → Phases)
      → List ℕ
      → Option ℕ
      → Bool
      → Block
      → List Block
      → Node T D R
      → Outcome (Node T D R)
  take_block schedule turns publisher delivered b rest s = do
    c ←
        add_block T D gh gb gt sha256 memory_database open_database g range_order schedule keccak256
          turns s.chain b
    (c', messages) ← propose_block publisher delivered b c s.messages
    ok (record s {
      chain = c';
      to_be_added_blocks = rest;
      added = s.added ++ b ∷ [];
      messages = messages;
    })

  -- The generator waits for a batch; it does not start on one before it has sent the last block.
  unfoldable pub start_block :
      (Phases → Phases)
      → List ℕ
      → Node T D R
      → Bool
      → Option Block
      → List (List BanknoteTx)
      → Option (Outcome (Node T D R))
  start_block schedule turns s false none (txs ∷ rest) =
      some (generate_block schedule turns txs rest s)
  start_block schedule turns s stopped in_hand batches = none

  unfoldable pub add_first :
      (Phases → Phases)
      → List ℕ
      → Option ℕ
      → Bool
      → Node T D R
      → List Block
      → Option (Outcome (Node T D R))
  add_first schedule turns publisher delivered s [] = none
  add_first schedule turns publisher delivered s (b ∷ rest) =
      some (take_block schedule turns publisher delivered b rest s)

  -- One turn; none where the goroutine has to wait.
  unfoldable pub turn : Turn → Node T D R → Option (Outcome (Node T D R))
  turn read s = if leb batch_places (length s.to_be_processed) then none else some (read_batch s)
  turn (generate schedule turns) s =
      start_block schedule turns s s.stopped s.in_hand s.to_be_processed
  turn send s = send_block T D R s s.in_hand
  turn (add schedule turns publisher delivered) s =
      add_first schedule turns publisher delivered s s.to_be_added_blocks

  -- What any scheduler brings about, as long as no goroutine faults.
  pub data Reaches (s : Node T D R) : Node T D R → Type 0 where
    here : Reaches s s
    next : {t u : Node T D R} (x : Turn) → Reaches s t → turn x t ≡ some (ok u) → Reaches s u
