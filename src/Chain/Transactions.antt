-- ===== src/Chain/Transactions.antt =====
-- chain/blockchain.go, `ProcessTxs`: transactions between accounts, as payments.
use banknote_chain.Base.{◌+◌, ◌%◌, ◌≤◌, ◌≡◌, refl, List, [], ◌∷◌, length, some, arith, ◌==◌, false}
use banknote_chain.Base.Go.{Gob, IsGob, TrieLib, IsTrieLib, Updated, unchanged, u64_mod}
use banknote_chain.Base.Int.{ℤ}
use banknote_chain.Base.Outcome.{ok, Returns}
use banknote_chain.Account.{AccountState}
use banknote_chain.Chain.{
  bytes_to_hash, BlockChain, Progress, advance, process_txs_loop, process_some_txs, process_txs,
}
use banknote_chain.Ledger.{pay}
use banknote_chain.Ledger.Payment.{pay-Reads}
use banknote_chain.Ledger.Spec.{Payment, settle, settle_all}
use banknote_chain.Ledger.View.{Accounts, Reads, Reads-congr, Updated-trans, commit_trie-opens}
use banknote_chain.Storage.{KeyValueLib}
use banknote_chain.Transaction.{Transaction}

-- The transactions have amounts, and are these payments.
abbrev pub PaysFor : List Transaction → List Payment → Type 0
PaysFor [] [] = Unit
PaysFor (tx ∷ txs) (p ∷ ps) =
    (tx.sender ≡ p.source) × (tx.recipient ≡ p.target) × (tx.value ≡ some p.amount) × PaysFor txs ps
PaysFor _ _ = ⊥

module _ {T : TrieLib} {g : Gob AccountState} (lawful : IsTrieLib T) (codec : IsGob g)
    (D : KeyValueLib) where
  process_txs_loop-Reads :
      (init_balance : ℤ) (f : Accounts) (txs : List Transaction) (ps : List Payment)
      (p : Progress T D)
      → PaysFor txs ps
      → Reads T g init_balance p.st f
      → Returns (process_txs_loop T D g init_balance p txs) λ q.
        Updated T p.st q.st
        × Reads T g init_balance q.st (settle_all f ps)
        × (length txs + p.cnt ≤ q.cnt)
  unfolding process_txs_loop settle_all
  process_txs_loop-Reads b f [] [] p h reads = (p, refl, (unchanged, reads, omega arith))
  process_txs_loop-Reads b f [] (_ ∷ _) p h reads = absurd h
  process_txs_loop-Reads b f (_ ∷ _) [] p h reads = absurd h
  process_txs_loop-Reads b f (tx ∷ txs) (y ∷ ps) p (from, to, amount, rest) reads =
      let (st', run, (u, reads')) = pay-Reads b lawful codec p.st f y reads in
      let paid : pay T g b p.st tx.sender tx.recipient tx.value ≡ ok st' =
        rw (from, to, amount) run in
      let (q, run', (u', reads'', count)) =
        process_txs_loop-Reads b (settle f y) txs ps (advance T D g p tx st') rest reads' in
      (q, rw paid run', (Updated-trans b lawful codec u u', reads'', omega arith))

  -- With an amount in every transaction and a trie at the root in the current block's header,
  -- `ProcessTxs` does not fault. The root that it returns opens in the node's database with the
  -- payments settled in order, and the current block, the store, the ledgers
  -- and the configuration are not touched.
  pub process_txs-refines :
      (c : BlockChain T D) (f : Accounts) (t : T.Trie) (txs : List Transaction) (ps : List Payment)
      → T.new_trie (bytes_to_hash c.current_block.header.state_root) c.triedb ≡ some t
      → Reads T g c.chain_config.init_balance t f
      → PaysFor txs ps
      → Returns (process_txs T D g c txs) λ r.
        ((w : T.Trie) × (T.new_trie r.1 r.0.triedb ≡ some w)
          × Reads T g c.chain_config.init_balance w (settle_all f ps))
        × (r.0.current_block ≡ c.current_block)
        × (r.0.store ≡ c.store)
        × (r.0.banknote_state ≡ c.banknote_state)
        × (r.0.chain_config ≡ c.chain_config)
  unfolding process_txs process_some_txs settle_all
  process_txs-refines c f t [] [] opens reads h = (
    (c, bytes_to_hash c.current_block.header.state_root),
    refl,
    ((t, opens, reads), refl, refl, refl, refl),
  )
  process_txs-refines c f t [] (_ ∷ _) opens reads h = absurd h
  process_txs-refines c f t (_ ∷ _) [] opens reads h = absurd h
  process_txs-refines c f t (tx ∷ txs) (y ∷ ps) opens reads h =
      let b = c.chain_config.init_balance in
      let root = bytes_to_hash c.current_block.header.state_root in
      let (q, run, (by, reads', count)) =
        process_txs_loop-Reads b f (tx ∷ txs) (y ∷ ps)
          (record { st = t; modified_account_map = []; cnt = 0 }) h reads in
      let ((rt, db'), done, (w, opens', same)) =
        commit_trie-opens lawful root c.triedb t q.st opens by in
      let worked : (q.cnt == 0) ≡ false = ground arith in
      (
        (
          record c {
            triedb = db';
            processed_tx_count = (c.processed_tx_count + length (tx ∷ txs)) % u64_mod;
          },
          rt,
        ),
        rw (opens, run, worked, done) refl,
        ((w, opens', Reads-congr b lawful codec q.st w _ same reads'), refl, refl, refl, refl),
      )
