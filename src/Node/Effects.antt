-- ===== src/Node/Effects.antt =====
-- What a turn of a goroutine that returned has changed.
use banknote_chain.Base.{
  ℕ, ◌%◌, ◌≡◌, refl, sym, ap, ◌∙◌, List, [], ◌∷◌, ◌++◌, Option, none, some, Bool, true, false,
  length, leb, subst, Bool-cases, inl, inr,
}
use banknote_chain.Base.Int.{ℤ}
use banknote_chain.Base.Outcome.{Outcome, ok, log_panic, require, require-eq-ok, >>=-eq-ok}
use banknote_chain.Base.Go.{Hash, Address, Bytes, Gob, TrieLib, u64_mod, increment}
use banknote_chain.Account.{AccountState}
use banknote_chain.Chain.{BlockChain, generate_block_for_leader, add_block}
use banknote_chain.Chain.Made.{
  first_of_ok, second_of_ok, add_block-current, generate_block_for_leader-makes,
}
use banknote_chain.Generator.{banknote_rounds}
use banknote_chain.Node.{
  Node, Turn, read, generate, send, add, propose, batch_places, block_places, send_block,
  read_batch, generate_block, publish, propose_block, take_block, start_block, add_first, turn,
}
use banknote_chain.Processor.Peripheral.{Phases}
use banknote_chain.Processor.StateTrie.{ModifySet}
use banknote_chain.State.{LedgerDir}
use banknote_chain.Storage.{BlockHeader, Block, KeyValueLib}
use banknote_chain.Transaction.{Transaction}
use banknote_chain.Tx.{BanknoteTx}

-- Whether the adder's turn broadcast its block: there is a publisher, whose call did not fail.
abbrev pub was_sent : Option ℕ → Bool → Bool
was_sent none delivered = false
was_sent (some now) delivered = delivered

-- That of each block which a turn adds.
abbrev pub broadcasts : Turn → List Bool
broadcasts read = []
broadcasts (generate schedule turns) = []
broadcasts send = []
broadcasts (add schedule turns publisher delivered) = was_sent publisher delivered ∷ []

-- The adder broadcast the block with the time of its proposal, or nothing.
abbrev pub Told : Gob Block → Bool → Block → List Bytes → List Bytes → Type 0
Told gb true b old ms =
    (now : ℕ) × (m : Bytes) × (gb.gob_encode (propose now b) ≡ some m) × (ms ≡ old ++ m ∷ [])
Told gb false b old ms = ms ≡ old

module _ {T : TrieLib} {D : KeyValueLib} {R : Type 0} (gb : Gob Block) where
  pub data Effect (s : Node T D R) : List Bool → Node T D R → Type 0 where
    has_read :
        (r : R) (batches : List (List BanknoteTx))
        → Effect s [] (record s { reader = r; to_be_processed = batches })
    has_generated :
        (b : Block) (c : BlockChain T D) (rest : List (List BanknoteTx))
        → s.stopped ≡ false
        → s.in_hand ≡ none
        → b.header.number ≡ increment s.now_blk_number
        → b.header.parent_block_hash ≡ s.chain.current_block.hash
        → c.current_block ≡ s.chain.current_block
        → c.chain_config ≡ s.chain.chain_config
        → Effect s [] (record s {
          chain = c;
          to_be_processed = rest;
          now_blk_number = increment s.now_blk_number;
          in_hand = some b;
        })
    has_sent :
        (b : Block)
        → s.in_hand ≡ some b
        → Effect s [] (record s {
          to_be_added_blocks = s.to_be_added_blocks ++ b ∷ [];
          in_hand = none;
          stopped = leb (s.chain.chain_config.exp_block_number % u64_mod) s.now_blk_number;
        })
    has_added :
        (b : Block) (rest : List Block) (c : BlockChain T D) (ms : List Bytes) (told : Bool)
        → s.to_be_added_blocks ≡ b ∷ rest
        → c.current_block.header.number ≡ b.header.number
        → c.current_block.hash ≡ b.hash
        → c.chain_config ≡ s.chain.chain_config
        → Told gb told b s.messages ms
        → Effect s (told ∷ []) (record s {
          chain = c;
          to_be_added_blocks = rest;
          added = s.added ++ b ∷ [];
          messages = ms;
        })

some_ok {ℓ} :
    {A : Type ℓ} {m : Outcome A} {a : A}
    → ◌≡◌ {A = Option (Outcome A)} (some m) (some (ok a))
    → m ≡ ok a
some_ok h = cc

some_eq {ℓ} : {A : Type ℓ} {a b : A} → ◌≡◌ {A = Option A} (some a) (some b) → a ≡ b
some_eq h = cc

ok_of {ℓ} : {A : Type ℓ} {a b : A} → ◌≡◌ {A = Outcome A} (ok a) (ok b) → a ≡ b
ok_of h = cc

module _ (T : TrieLib) (D : KeyValueLib) (R : Type 0) (gh : Gob BlockHeader) (gb : Gob Block)
    (gt : Gob Transaction) (sha256 : Bytes → Bytes) (memory_database : T.Database)
    (open_database : LedgerDir → T.Database) (g : Gob AccountState)
    (range_order : ModifySet → List (Address × ℤ)) (keccak256 : Bytes → Hash)
    (read_item : R → Outcome (List BanknoteTx × R)) (fixed_time : ℕ) where
  -- The node after a block `b` is generated, which leaves the chain `c` and the batches `rest`.
  abbrev pub generated : Node T D R → Block → BlockChain T D → List (List BanknoteTx) → Node T D R
  generated s b c rest = record s {
    chain = c;
    to_be_processed = rest;
    now_blk_number = increment s.now_blk_number;
    in_hand = some b;
  }

  -- What is known of them.
  abbrev pub Generates : Node T D R → Node T D R → Type 0
  Generates s t =
      (b : Block) × (c : BlockChain T D) × (rest : List (List BanknoteTx)) × (generated s b c rest
        ≡ t)
      × (s.stopped ≡ false)
      × (s.in_hand ≡ none)
      × (b.header.number ≡ increment s.now_blk_number)
      × (b.header.parent_block_hash ≡ s.chain.current_block.hash)
      × (c.current_block ≡ s.chain.current_block)
      × (c.chain_config ≡ s.chain.chain_config)

  generate_block-makes :
      (schedule : Phases → Phases) (turns : List ℕ) (txs : List BanknoteTx)
      (rest : List (List BanknoteTx)) (s t : Node T D R)
      → s.stopped ≡ false
      → s.in_hand ≡ none
      → generate_block T D R gh gb gt sha256 memory_database open_database g range_order keccak256
          read_item fixed_time schedule turns txs rest s
        ≡ ok t
      → Generates s t
  unfolding generate_block
  generate_block-makes schedule turns txs rest s t live free h =
      let number = increment s.now_blk_number in
      let ((b, c), made, h₁) =
        >>=-eq-ok
          (generate_block_for_leader T D gh gb gt sha256 memory_database open_database g range_order
            schedule keccak256 turns fixed_time s.chain [] txs number)
          _ h in
      let (numbered, parent, current, config) =
        generate_block_for_leader-makes T D gh gb gt sha256 memory_database open_database g
          range_order schedule keccak256 turns fixed_time s.chain c txs number b made in
      (b, c, rest, ok_of h₁, live, free, numbered, parent, current, config)

  start_block-makes :
      (schedule : Phases → Phases) (turns : List ℕ) (s t : Node T D R) (stopped : Bool)
      (in_hand : Option Block) (batches : List (List BanknoteTx))
      → s.stopped ≡ stopped
      → s.in_hand ≡ in_hand
      → start_block T D R gh gb gt sha256 memory_database open_database g range_order keccak256
          read_item fixed_time schedule turns s stopped in_hand batches
        ≡ some (ok t)
      → Generates s t
  unfolding start_block
  start_block-makes schedule turns s t false none (txs ∷ rest) e f h =
      generate_block-makes schedule turns txs rest s t e f (some_ok h)
  start_block-makes schedule turns s t false none [] e f h = absurd (cc)
  start_block-makes schedule turns s t false (some b) batches e f h = absurd (cc)
  start_block-makes schedule turns s t true in_hand batches e f h = absurd (cc)

  pub generate-makes :
      (schedule : Phases → Phases) (turns : List ℕ) (s t : Node T D R)
      → turn T D R gh gb gt sha256 memory_database open_database g range_order keccak256 read_item
          fixed_time
          (generate schedule turns)
          s
        ≡ some (ok t)
      → Generates s t
  unfolding turn
  generate-makes schedule turns s t h =
      start_block-makes schedule turns s t s.stopped s.in_hand s.to_be_processed refl refl h

  publish-Told :
      (now : ℕ) (b : Block) (delivered : Bool) (messages ms : List Bytes)
      → publish T D R gh gb gt sha256 memory_database open_database g range_order keccak256
          read_item fixed_time
          (propose now b)
          delivered
          messages
        ≡ ok ms
      → Told gb delivered b messages ms
  unfolding publish
  publish-Told now b true messages ms h =
      let (m, encoded, h₁) = >>=-eq-ok (require log_panic (gb.gob_encode (propose now b))) _ h in
      (now, m, require-eq-ok log_panic (gb.gob_encode (propose now b)) encoded, sym (ok_of h₁))
  publish-Told now b false messages ms h =
      let (m, encoded, h₁) = >>=-eq-ok (require log_panic (gb.gob_encode (propose now b))) _ h in
      sym (ok_of h₁)

  propose_block-keeps :
      (publisher : Option ℕ) (delivered : Bool) (b : Block) (c c' : BlockChain T D)
      (messages ms : List Bytes)
      → c.current_block ≡ b
      → propose_block T D R gh gb gt sha256 memory_database open_database g range_order keccak256
          read_item fixed_time publisher delivered b c messages
        ≡ ok (c', ms)
      → (c'.current_block.header.number ≡ b.header.number)
        × (c'.current_block.hash ≡ b.hash)
        × (c'.chain_config ≡ c.chain_config)
        × Told gb (was_sent publisher delivered) b messages ms
  unfolding propose_block publish
  propose_block-keeps none delivered b c c' messages ms current h =
      let e : c ≡ c' = first_of_ok h in
      (
        sym (ap (λ z. z.current_block.header.number) e) ∙ ap (λ z. z.header.number) current,
        sym (ap (λ z. z.current_block.hash) e) ∙ ap (λ z. z.hash) current,
        sym (ap (λ z. z.chain_config) e),
        sym (second_of_ok h),
      )
  propose_block-keeps (some now) delivered b c c' messages ms current h =
      let (ms', told, h₁) =
        >>=-eq-ok
          (publish T D R gh gb gt sha256 memory_database open_database g range_order keccak256
            read_item fixed_time (propose now b) delivered messages)
          _ h in
      let same : ms' ≡ ms = second_of_ok h₁ in
      let e : record c { current_block = propose now b } ≡ c' = first_of_ok h₁ in
      (
        sym (ap (λ z. z.current_block.header.number) e),
        sym (ap (λ z. z.current_block.hash) e),
        sym (ap (λ z. z.chain_config) e),
        subst (Told gb delivered b messages) same (publish-Told now b delivered messages ms' told),
      )

  take_block-Effect :
      (schedule : Phases → Phases) (turns : List ℕ) (publisher : Option ℕ) (delivered : Bool)
      (b : Block) (rest : List Block) (s t : Node T D R)
      → s.to_be_added_blocks ≡ b ∷ rest
      → take_block T D R gh gb gt sha256 memory_database open_database g range_order keccak256
          read_item fixed_time schedule turns publisher delivered b rest s
        ≡ ok t
      → Effect gb s (was_sent publisher delivered ∷ []) t
  unfolding take_block
  take_block-Effect schedule turns publisher delivered b rest s t queued h =
      let (c, kept, h₁) =
        >>=-eq-ok
          (add_block T D gh gb gt sha256 memory_database open_database g range_order schedule
            keccak256 turns s.chain b)
          _ h in
      let (current, config) =
        add_block-current T D gh gb gt sha256 memory_database open_database g range_order schedule
          keccak256 turns s.chain c b kept in
      let ((c', ms), told, h₂) =
        >>=-eq-ok
          (propose_block T D R gh gb gt sha256 memory_database open_database g range_order keccak256
            read_item fixed_time publisher delivered b c s.messages)
          _ h₁ in
      let (number, hash, config', messaged) =
        propose_block-keeps publisher delivered b c c' s.messages ms current told in
      subst (Effect gb s (was_sent publisher delivered ∷ [])) (ok_of h₂) (
        has_added b rest c' ms (was_sent publisher delivered) queued number hash (config' ∙ config)
          messaged)

  send_block-Effect :
      (s t : Node T D R) (in_hand : Option Block)
      → s.in_hand ≡ in_hand
      → send_block T D R s in_hand ≡ some (ok t)
      → Effect gb s [] t
  unfolding send_block
  send_block-Effect s t none e h = absurd (cc)
  send_block-Effect s t (some b) e h =
      elim (Bool-cases (leb block_places (length s.to_be_added_blocks))) [
        | inl full ↦ let h' : none ≡ some (ok t) = rw full at h in absurd (cc)
        | inr room ↦
            let h' = rw room at h in subst (Effect gb s []) (ok_of (some_eq h')) (has_sent b e)
      ]

  add_first-Effect :
      (schedule : Phases → Phases) (turns : List ℕ) (publisher : Option ℕ) (delivered : Bool)
      (s t : Node T D R) (blocks : List Block)
      → s.to_be_added_blocks ≡ blocks
      → add_first T D R gh gb gt sha256 memory_database open_database g range_order keccak256
          read_item fixed_time schedule turns publisher delivered s blocks
        ≡ some (ok t)
      → Effect gb s (was_sent publisher delivered ∷ []) t
  unfolding add_first
  add_first-Effect schedule turns publisher delivered s t [] e h = absurd (cc)
  add_first-Effect schedule turns publisher delivered s t (b ∷ rest) e h =
      take_block-Effect schedule turns publisher delivered b rest s t e (some_ok h)

  pub turn-Effect :
      (x : Turn) (s t : Node T D R)
      → turn T D R gh gb gt sha256 memory_database open_database g range_order keccak256 read_item
          fixed_time x s
        ≡ some (ok t)
      → Effect gb s (broadcasts x) t
  unfolding turn read_batch
  turn-Effect read s t h = elim (Bool-cases (leb batch_places (length s.to_be_processed))) [
    | inl full ↦ let h' : none ≡ some (ok t) = rw full at h in absurd (cc)
    | inr room ↦
        let h' = rw room at h in
        let ((txs, r), _, h₁) =
          >>=-eq-ok (banknote_rounds read_item s.chain.chain_config.tx_count_per_block s.reader) _
            (some_ok h') in
        subst (Effect gb s []) (ok_of h₁) (has_read r (s.to_be_processed ++ txs ∷ []))
  ]
  turn-Effect (generate schedule turns) s t h =
      let (b, c, rest, after, live, free, number, parent, current, config) =
        generate-makes schedule turns s t h in
      subst (Effect gb s []) after (has_generated b c rest live free number parent current config)
  turn-Effect send s t h = send_block-Effect s t s.in_hand refl h
  turn-Effect (add schedule turns publisher delivered) s t h =
      add_first-Effect schedule turns publisher delivered s t s.to_be_added_blocks refl h
