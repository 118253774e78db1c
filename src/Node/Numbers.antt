-- ===== src/Node/Numbers.antt =====
-- The numbers of the blocks that a leader makes and adds.
use mathlib.Core.List.{append-nil}
use banknote_chain.Base.{
  Bool, ℕ, ◌+◌, ◌<◌, ◌^◌, ◌≡◌, refl, sym, ap, ◌∙◌, subst, List, [], ◌∷◌, ◌++◌, Option, none, some,
  length, arith,
}
use banknote_chain.Base.Int.{ℤ}
use banknote_chain.Base.Outcome.{Outcome, ok}
use banknote_chain.Base.Go.{Hash, Address, Bytes, Gob, TrieLib, increment}
use banknote_chain.Account.{AccountState}
use banknote_chain.Chain.{BlockChain}
use banknote_chain.Node.{Node, generate, Reaches, here, next, turn, start_node}
use banknote_chain.Node.Effects.{
  Effect, has_read, has_generated, has_sent, has_added, turn-Effect, generate-makes,
}
use banknote_chain.Processor.Peripheral.{Phases}
use banknote_chain.Processor.StateTrie.{ModifySet}
use banknote_chain.State.{LedgerDir}
use banknote_chain.Storage.{BlockHeader, Block, KeyValueLib}
use banknote_chain.Transaction.{Transaction}
use banknote_chain.Tx.{BanknoteTx}

abbrev pub hand : Option Block → List Block
hand none = []
hand (some b) = b ∷ []

-- The numbers of the blocks go on from `k`, one by one, to `n`.
abbrev pub Counts : ℕ → List Block → ℕ → Type 0
Counts k [] n = k ≡ n
Counts k (b ∷ bs) n = (b.header.number ≡ increment k) × Counts (increment k) bs n

Counts-snoc :
    (k n : ℕ) (bs : List Block) (b : Block)
    → Counts k bs n
    → b.header.number ≡ increment n
    → Counts k (bs ++ b ∷ []) (increment n)
Counts-snoc k n [] b h e = (e ∙ ap increment (sym h), ap increment h)
Counts-snoc k n (x ∷ xs) b h e = (h.0, Counts-snoc (increment k) n xs b h.1 e)

-- With no overflow the numbers rise by as much as there are blocks.
Counts-length :
    (k n : ℕ) (bs : List Block) → Counts k bs n → k + length bs < 2 ^ 64 → n ≡ k + length bs
Counts-length k n [] h small = omega arith
Counts-length k n (b ∷ bs) h small =
    let one : increment k ≡ k + 1 = omega arith in
    omega (arith, Counts-length (increment k) n bs h.1)

module _ {T : TrieLib} {D : KeyValueLib} {R : Type 0} where
  -- What was made and is not yet added.
  abbrev pub waiting : Node T D R → List Block
  waiting s = s.to_be_added_blocks ++ hand s.in_hand

  -- The chain has grown from number `k` block by block, and what waits goes on from it.
  pub record IsNumbered (k : ℕ) (s : Node T D R) : Type 0 where
    pub grown : Counts k s.added s.chain.current_block.header.number
    pub goes_on : Counts s.chain.current_block.header.number (waiting s) s.now_blk_number

  Effect-IsNumbered :
      {k : ℕ} {gb : Gob Block} {s t : Node T D R} {ds : List Bool}
      → Effect gb s ds t
      → IsNumbered k s
      → IsNumbered k t
  Effect-IsNumbered (has_read r batches) v = record { grown = v.grown; goes_on = v.goes_on }
  Effect-IsNumbered {k} {gb} {s} (has_generated b c rest live free number parent current config) v =
      let same : c.current_block.header.number ≡ s.chain.current_block.header.number =
        ap (λ z. z.header.number) current in
      let queue : Counts s.chain.current_block.header.number s.to_be_added_blocks s.now_blk_number =
        subst (λ l. Counts s.chain.current_block.header.number l s.now_blk_number)
          (append-nil s.to_be_added_blocks)
          (subst
            (λ o.
              Counts s.chain.current_block.header.number (s.to_be_added_blocks ++ hand o)
                s.now_blk_number)
            free v.goes_on) in
      record {
        grown = subst (Counts k s.added) (sym same) v.grown;
        goes_on =
            subst (λ z. Counts z (s.to_be_added_blocks ++ b ∷ []) (increment s.now_blk_number))
              (sym same) (Counts-snoc _ s.now_blk_number s.to_be_added_blocks b queue number);
      }
  Effect-IsNumbered {k} {gb} {s} (has_sent b held) v = record {
    grown = v.grown;
    goes_on =
        subst (λ l. Counts s.chain.current_block.header.number l s.now_blk_number)
          (sym (append-nil (s.to_be_added_blocks ++ b ∷ [])))
          (subst
            (λ o.
              Counts s.chain.current_block.header.number (s.to_be_added_blocks ++ hand o)
                s.now_blk_number)
            held v.goes_on);
  }
  Effect-IsNumbered {k} {gb} {s} (has_added b rest c ms sent queued number hash config told) v =
      let cur = s.chain.current_block.header.number in
      let later : Counts cur ((b ∷ rest) ++ hand s.in_hand) s.now_blk_number =
        subst (λ l. Counts cur (l ++ hand s.in_hand) s.now_blk_number) queued v.goes_on in
      let up : increment cur ≡ c.current_block.header.number = sym later.0 ∙ sym number in
      record {
        grown =
            subst (Counts k (s.added ++ b ∷ [])) up (Counts-snoc k cur s.added b v.grown later.0);
        goes_on = subst (λ z. Counts z (rest ++ hand s.in_hand) s.now_blk_number) up later.1;
      }

-- The blocks that are made and not yet added, and those that are.
module _ (T : TrieLib) (D : KeyValueLib) (R : Type 0) (gh : Gob BlockHeader) (gb : Gob Block)
    (gt : Gob Transaction) (sha256 : Bytes → Bytes) (memory_database : T.Database)
    (open_database : LedgerDir → T.Database) (g : Gob AccountState)
    (range_order : ModifySet → List (Address × ℤ)) (keccak256 : Bytes → Hash)
    (read_item : R → Outcome (List BanknoteTx × R)) (fixed_time : ℕ) where
  -- However the turns of the reader, the generator and the adder follow on one another from the
  -- start of a node, the blocks that were added have the numbers after the first current block's, one
  -- by one and modulo 2^64, the current block has the last of them, and the blocks that wait in
  -- the channel and in the generator's hand go on from there: none is lost, repeated or overtaken.
  pub Reaches-IsNumbered :
      (c : BlockChain T D) (r : R) (s : Node T D R)
      → Reaches T D R gh gb gt sha256 memory_database open_database g range_order keccak256
          read_item fixed_time
          (start_node T D R c r)
          s
      → IsNumbered c.current_block.header.number s
  Reaches-IsNumbered c r s here = record { grown = refl; goes_on = refl }
  Reaches-IsNumbered c r s (next {t} x before h) =
      Effect-IsNumbered
        (turn-Effect T D R gh gb gt sha256 memory_database open_database g range_order keccak256
          read_item fixed_time x t s h)
        (Reaches-IsNumbered c r t before)

  -- A block that is generated while others wait has the hash of the current block as its parent, but
  -- a number that is greater than the current block's by one more than there are blocks that
  -- wait. This holds as long as no number reaches 2^64.
  pub generate-stale :
      (c : BlockChain T D) (r : R) (s t : Node T D R) (schedule : Phases → Phases) (turns : List ℕ)
      → Reaches T D R gh gb gt sha256 memory_database open_database g range_order keccak256
          read_item fixed_time
          (start_node T D R c r)
          s
      → turn T D R gh gb gt sha256 memory_database open_database g range_order keccak256 read_item
          fixed_time
          (generate schedule turns)
          s
        ≡ some (ok t)
      → s.chain.current_block.header.number + length (waiting s) + 1 < 2 ^ 64
      → (b : Block) × (t.in_hand ≡ some b)
        × (b.header.parent_block_hash ≡ s.chain.current_block.hash)
        × (b.header.number ≡ s.chain.current_block.header.number + length (waiting s) + 1)
  generate-stale c r s t schedule turns run h small =
      let (b, _, _, after, _, _, number, parent, _, _) =
        generate-makes T D R gh gb gt sha256 memory_database open_database g range_order keccak256
          read_item fixed_time schedule turns s t h in
      let v = Reaches-IsNumbered c r s run in
      (
        b,
        sym (ap (λ z. z.in_hand) after),
        parent,
        omega (
          arith,
          number,
          Counts-length s.chain.current_block.header.number s.now_blk_number (waiting s) v.goes_on,
        ),
      )
