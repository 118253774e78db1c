-- ===== src/Node/Ends.antt =====
-- The generator stops after the number of blocks that is configured.
use banknote_chain.Base.{
  ℕ, ◌+◌, ◌-◌, ◌≤◌, ◌<◌, ◌^◌, ◌%◌, ◌≡◌, refl, sym, ap, ◌∙◌, subst, List, [], ◌∷◌, ◌++◌, Option,
  none, some, Bool, true, false, length, length-append, leb, Bool-cases, inl, inr, ◌⊎◌,
  if◌then◌else◌, arith,
}
use banknote_chain.Base.Int.{ℤ}
use banknote_chain.Base.Outcome.{Outcome}
use banknote_chain.Base.Go.{Hash, Address, Bytes, Gob, TrieLib, u64_mod, increment}
use banknote_chain.Account.{AccountState}
use banknote_chain.Chain.{BlockChain}
use banknote_chain.Config.{Config}
use banknote_chain.Node.{Node, Reaches, here, next, start_node}
use banknote_chain.Node.Effects.{Effect, has_read, has_generated, has_sent, has_added, turn-Effect}
use banknote_chain.Node.Numbers.{hand}
use banknote_chain.Processor.StateTrie.{ModifySet}
use banknote_chain.State.{LedgerDir}
use banknote_chain.Storage.{BlockHeader, Block, KeyValueLib}
use banknote_chain.Transaction.{Transaction}
use banknote_chain.Tx.{BanknoteTx}

-- A run from block `k` on makes blocks up to number `last`, and one at least.
abbrev pub run_length : ℕ → ℕ → ℕ
run_length k last = if leb last (k + 1) then 1 else last - k

-- Where the generator stands with the flag, the hand, the last number and what is made.
abbrev Stands : ℕ → ℕ → Bool → Option Block → ℕ → ℕ → Type 0
Stands k last true none now n = n ≡ run_length k last
Stands k last true (some b) now n = ⊥
Stands k last false none now n = (n ≡ 0) ⊎ ((0 < n) × (now < last))
Stands k last false (some b) now n = (0 < n) × (n ≤ run_length k last)

generates :
    (k last now n : ℕ) (b : Block) (stopped : Bool) (o : Option Block)
    → last < 2 ^ 64
    → k + 1 < 2 ^ 64
    → stopped ≡ false
    → o ≡ none
    → now ≡ k + n
    → Stands k last stopped o now n
    → (increment now ≡ k + (n + 1)) × Stands k last stopped (some b) (increment now) (n + 1)
generates k last now n b true o small room e f c h = absurd (cc)
generates k last now n b false (some x) small room e f c h = absurd (cc)
generates k last now n b false none small room e f c (inl z) = ground arith
generates k last now n b false none small room e f c (inr h) = ground arith

sends :
    (k last now n : ℕ) (b : Block) (stopped : Bool) (o : Option Block)
    → last < 2 ^ 64
    → o ≡ some b
    → now ≡ k + n
    → Stands k last stopped o now n
    → Stands k last (leb (last % u64_mod) now) none now n
sends k last now n b true none small e c h = absurd (cc)
sends k last now n b true (some x) small e c h = absurd h
sends k last now n b false none small e c h = absurd (cc)
sends k last now n b false (some x) small e c h = elim (Bool-cases (leb (last % u64_mod) now)) [
  | inl over ↦ rw over (ground arith)
  | inr more ↦ rw more (inr (ground arith))
]

-- What the invariant says of the number of blocks.
Stands-le :
    (k last now n : ℕ) (stopped : Bool) (o : Option Block)
    → now ≡ k + n
    → Stands k last stopped o now n
    → (n ≤ run_length k last) × ((stopped ≡ false) ⊎ (n ≡ run_length k last))
Stands-le k last now n true none c h = ground arith
Stands-le k last now n true (some b) c h = absurd h
Stands-le k last now n false none c (inl z) = (ground arith, inl refl)
Stands-le k last now n false none c (inr h) = (ground arith, inl refl)
Stands-le k last now n false (some b) c h = (h.1, inl refl)

module _ {T : TrieLib} {D : KeyValueLib} {R : Type 0} where
  abbrev pub made : Node T D R → ℕ
  made s = length s.added + length s.to_be_added_blocks + length (hand s.in_hand)

  record IsBounded (k : ℕ) (config : Config) (s : Node T D R) : Type 0 where
    same : s.chain.chain_config ≡ config
    counted : s.now_blk_number ≡ k + made s
    stands : Stands k config.exp_block_number s.stopped s.in_hand s.now_blk_number (made s)

  Effect-IsBounded :
      {k : ℕ} {config : Config} {gb : Gob Block} {s t : Node T D R} {ds : List Bool}
      → config.exp_block_number < 2 ^ 64
      → k + 1 < 2 ^ 64
      → Effect gb s ds t
      → IsBounded k config s
      → IsBounded k config t
  Effect-IsBounded small room (has_read r batches) v = record {
    same = v.same;
    counted = v.counted;
    stands = v.stands;
  }
  Effect-IsBounded {k} {config} {gb} {s} small room
        (has_generated b c rest live free number parent current same) v =
      let (now, after) =
        generates k config.exp_block_number s.now_blk_number (made s) b s.stopped s.in_hand small
          room live free v.counted v.stands in
      let one : made s + 1 ≡ length s.added + length s.to_be_added_blocks + 1 =
        ap (λ o. length s.added + length s.to_be_added_blocks + length (hand o) + 1) free
        ∙ omega arith in
      record {
        same = same ∙ v.same;
        counted = now ∙ ap (λ n. k + n) one;
        stands =
            subst (Stands k config.exp_block_number s.stopped (some b) (increment s.now_blk_number))
              one after;
      }
  Effect-IsBounded {k} {config} {gb} {s} small room (has_sent b held) v =
      let one : made s ≡ length s.added + length (s.to_be_added_blocks ++ b ∷ []) + 0 =
        ap (λ o. length s.added + length s.to_be_added_blocks + length (hand o)) held
        ∙ omega (arith, length-append s.to_be_added_blocks (b ∷ [])) in
      record {
        same = v.same;
        counted = v.counted ∙ ap (λ n. k + n) one;
        stands =
            subst
              (λ e.
                Stands k config.exp_block_number (leb (e % u64_mod) s.now_blk_number) none
                  s.now_blk_number (length s.added + length (s.to_be_added_blocks ++ b ∷ []) + 0))
              (ap (λ z. z.exp_block_number) (sym v.same))
              (subst
                (Stands k config.exp_block_number
                  (leb (config.exp_block_number % u64_mod) s.now_blk_number) none s.now_blk_number)
                one
                (sends k config.exp_block_number s.now_blk_number (made s) b s.stopped s.in_hand
                  small held v.counted v.stands));
      }
  Effect-IsBounded {k} {config} {gb} {s} small room
        (has_added b rest c ms sent queued number hash same told) v =
      let one : made s ≡ length (s.added ++ b ∷ []) + length rest + length (hand s.in_hand) =
        ap (λ l. length s.added + length l + length (hand s.in_hand)) queued
        ∙ omega (arith, length-append s.added (b ∷ [])) in
      record {
        same = same ∙ v.same;
        counted = v.counted ∙ ap (λ n. k + n) one;
        stands =
            subst (Stands k config.exp_block_number s.stopped s.in_hand s.now_blk_number) one
              v.stands;
      }

module _ (T : TrieLib) (D : KeyValueLib) (R : Type 0) (gh : Gob BlockHeader) (gb : Gob Block)
    (gt : Gob Transaction) (sha256 : Bytes → Bytes) (memory_database : T.Database)
    (open_database : LedgerDir → T.Database) (g : Gob AccountState)
    (range_order : ModifySet → List (Address × ℤ)) (keccak256 : Bytes → Hash)
    (read_item : R → Outcome (List BanknoteTx × R)) (fixed_time : ℕ) where
  Reaches-IsBounded :
      (c : BlockChain T D) (r : R) (s : Node T D R)
      → c.chain_config.exp_block_number < 2 ^ 64
      → c.current_block.header.number + 1 < 2 ^ 64
      → Reaches T D R gh gb gt sha256 memory_database open_database g range_order keccak256
          read_item fixed_time
          (start_node T D R c r)
          s
      → IsBounded c.current_block.header.number c.chain_config s
  Reaches-IsBounded c r s small room here = record {
    same = refl;
    counted = omega arith;
    stands = inl refl;
  }
  Reaches-IsBounded c r s small room (next {t} x before h) =
      Effect-IsBounded small room
        (turn-Effect T D R gh gb gt sha256 memory_database open_database g range_order keccak256
          read_item fixed_time x t s h)
        (Reaches-IsBounded c r t small room before)

  -- With a number of blocks and a first number below 2^64, in every run from the start of a node
  -- the generator makes no more blocks than it takes to get to the configured number, or one if that
  -- is already reached; it is stopped only when it has made exactly so many.
  pub Reaches-ends :
      (c : BlockChain T D) (r : R) (s : Node T D R)
      → c.chain_config.exp_block_number < 2 ^ 64
      → c.current_block.header.number + 1 < 2 ^ 64
      → Reaches T D R gh gb gt sha256 memory_database open_database g range_order keccak256
          read_item fixed_time
          (start_node T D R c r)
          s
      → (made s ≤ run_length c.current_block.header.number c.chain_config.exp_block_number)
        × ((s.stopped ≡ false)
            ⊎ (made s ≡ run_length c.current_block.header.number c.chain_config.exp_block_number))
  Reaches-ends c r s small room run =
      let v = Reaches-IsBounded c r s small room run in
      Stands-le c.current_block.header.number c.chain_config.exp_block_number s.now_blk_number
        (made s) s.stopped s.in_hand v.counted v.stands
