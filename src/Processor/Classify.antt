-- ===== src/Processor/Classify.antt =====
-- chain/banknote_processor.go, `ProcessBanknoteTxs`: the transactions of a block are told apart, the
-- ledgers apply them, and a block is made of what they leave.
pub mod Laws
pub mod Replay
pub mod Orders
pub mod Agreement
pub mod Refinement
use banknote_chain.Base.{
  ℕ, zero, suc, List, [], ◌∷◌, ◌++◌, Bool, true, false, get_elem?, set, replicate, map, bit_xor,
  ◌==◌, if◌then◌else◌,
}
use banknote_chain.Base.Int.{ℤ}
use banknote_chain.Base.Outcome.{Outcome, ok, index_out_of_range, require, ◌>>=◌}
use banknote_chain.Base.Go.{Hash, Address, Bytes, Gob, TrieLib}
use banknote_chain.Account.{AccountState}
use banknote_chain.Banknote.{get_ledger_hash_by_id}
use banknote_chain.Block.{BanknoteBlock, be_bytes, new_banknote_block}
use banknote_chain.Config.{Config}
use banknote_chain.Processor.Concurrent.{run_ledgers}
use banknote_chain.Processor.CoreLedger.{process_core_ledger_tx}
use banknote_chain.Processor.Peripheral.{Phases, is_br}
use banknote_chain.Processor.StateTrie.{ModifySet}
use banknote_chain.State.{BanknoteChainState}
use banknote_chain.Tx.{BanknoteTx, nt}
use banknote_chain.Tx.Sort.{sort_banknote_txs}

-- `NormalTxs`, `BanknoteTxsBlockPerLedger` and `BanknoteTxsActionsPerLedger`
pub record Classified : Type 0 where
  pub normal_txs : List BanknoteTx
  pub block_per_ledger : List (List BanknoteTx)
  pub actions_per_ledger : List (List BanknoteTx)

-- `ledgers[i] = append(ledgers[i], tx)`
abbrev pub append_at : List (List BanknoteTx) → ℕ → BanknoteTx → Outcome (List (List BanknoteTx))
append_at ls i tx =
    require index_out_of_range (get_elem? ls i) >>= λ l. ok (set ls i (l ++ tx ∷ []))

abbrev pub is_nt : BanknoteTx → Bool
is_nt tx = elim tx.banknote_tx_type [ nt ↦ true | _ ↦ false ]

-- The part of the loop's body that a transaction of a peripheral ledger runs.
unfoldable pub classify_peripheral : ℕ → Classified → BanknoteTx → Outcome Classified
classify_peripheral n c tx = do
  ledger_id ← get_ledger_hash_by_id n tx.tx_hash
  actions ← append_at c.actions_per_ledger ledger_id tx
  blocks ← if is_br tx then ok c.block_per_ledger else append_at c.block_per_ledger ledger_id tx
  ok (record c { block_per_ledger = blocks; actions_per_ledger = actions })

unfoldable pub classify_tx : ℕ → Classified → BanknoteTx → Outcome Classified
classify_tx n c tx =
    if is_nt tx
    then ok (record c { normal_txs = c.normal_txs ++ tx ∷ [] })
    else classify_peripheral n c tx

unfoldable pub classify_loop : ℕ → Classified → List BanknoteTx → Outcome Classified
classify_loop n c [] = ok c
classify_loop n c (tx ∷ txs) = classify_tx n c tx >>= λ c'. classify_loop n c' txs

unfoldable pub classify : ℕ → List BanknoteTx → Outcome Classified
classify n txs =
    classify_loop n
      (record {
        normal_txs = [];
        block_per_ledger = replicate n [];
        actions_per_ledger = replicate n [];
      })
      txs

-- `txHashsSUM[i]`
unfoldable pub xor_hashes : List BanknoteTx → ℕ → ℕ
xor_hashes [] sum = sum
xor_hashes (tx ∷ txs) sum = xor_hashes txs (bit_xor sum tx.tx_hash)

-- `txHashSUM`
unfoldable pub xor_ledgers : List (List BanknoteTx) → ℕ → ℕ
xor_ledgers [] sum = sum
xor_ledgers (l ∷ ls) sum = xor_ledgers ls (bit_xor sum (xor_hashes l 0))

-- `big.Int.Bytes` has no leading zeros; the sum is that of 32-byte hashes.
unfoldable pub without_leading_zeros : Bytes → Bytes
without_leading_zeros [] = []
without_leading_zeros (b ∷ bs) =
    let rest = without_leading_zeros bs in if b == 0 then rest else b ∷ bs

unfoldable pub all_tx_hash : (Bytes → Hash) → List (List BanknoteTx) → Hash
all_tx_hash keccak256 ledgers =
    keccak256 (without_leading_zeros (be_bytes 32 (xor_ledgers ledgers 0)))

-- The block at the end, from the state that the ledgers leave.
unfoldable pub seal_block :
    (keccak256 : Bytes → Hash) → ℕ → ℕ → Classified → Hash → List Hash → Outcome BanknoteBlock
seal_block keccak256 n block_number c croot proots =
    new_banknote_block keccak256 n (map sort_banknote_txs c.block_per_ledger) c.normal_txs
      block_number (all_tx_hash keccak256 c.block_per_ledger) croot proots

-- The list of all transactions that a peer takes from a block in `AddBlock`.
unfoldable pub concat : List (List BanknoteTx) → List BanknoteTx
concat [] = []
concat (l ∷ ls) = l ++ concat ls

unfoldable pub replayed : BanknoteBlock → List BanknoteTx
replayed b = b.c_ledger ++ concat b.p_ledgers

module _ (T : TrieLib) (g : Gob AccountState) (range_order : ModifySet → List (Address × ℤ))
    (schedule : Phases → Phases) where
  -- `turns` is the order of the ledgers' work on the pool, of which nothing shows in the core ledger.
  -- The lists are hashed as the loop left them.
  unfoldable pub process_banknote_txs :
      (Bytes → Hash)
      → List ℕ
      → List BanknoteTx
      → BanknoteChainState T
      → Config
      → ℕ
      → Outcome (BanknoteBlock × BanknoteChainState T)
  process_banknote_txs keccak256 turns txs s cc block_number = do
    let n = cc.banknote_chain_pledger_number
    c ← classify n txs
    r ← process_core_ledger_tx T g c.normal_txs s cc
    s' ← run_ledgers T g range_order schedule turns c.actions_per_ledger r.state cc
    b ← seal_block keccak256 n block_number c s'.cledger_state_root s'.pledger_state_roots
    ok (b, s')
