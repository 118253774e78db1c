-- ===== src/Processor/CoreLedger/Refinement.antt =====
-- `ProcessCoreLedgerTx` refines the settling of its payments on the accounts of the core ledger.
use banknote_chain.Base.{
  ℕ, ◌+◌, ◌≡◌, refl, List, [], ◌∷◌, some, arith, get_elem?, set, length, ◌==◌, false, suc,
  get_elem?-set_ne,
}
use banknote_chain.Base.Int.{ℤ, ◌+ℤ◌}
use banknote_chain.Base.Outcome.{ok, Returns}
use banknote_chain.Base.Go.{Address, Gob, IsGob, TrieLib, IsTrieLib, Updated, unchanged}
use banknote_chain.Account.{AccountState}
use banknote_chain.Config.{Config}
use banknote_chain.Ledger.{pay}
use banknote_chain.Ledger.View.{Accounts, Reads, Updated-trans, Reads-congr, commit_trie-opens}
use banknote_chain.Ledger.Spec.{
  Payment, settle, settle_all, minted, total, Covers, total-settle_all,
}
use banknote_chain.Ledger.Payment.{pay-Reads}
use banknote_chain.Processor.CoreLedger.{
  Progress, advance, core_ledger_loop, process_core_ledger_tx,
}
use banknote_chain.State.{BanknoteChainState}
use banknote_chain.Tx.{BanknoteTx}

-- The payments that transactions with an amount ask for.
abbrev pub Pays : List BanknoteTx → List Payment → Type 0
Pays [] [] = Unit
Pays (tx ∷ txs) (p ∷ ps) =
    (tx.from ≡ p.source) × (tx.to ≡ p.target) × (tx.amount ≡ some p.amount) × Pays txs ps
Pays _ _ = ⊥

-- The core ledger of `s` opens, and its accounts are `f`.
abbrev pub CoreReads :
    (T : TrieLib) → Gob AccountState → ℤ → BanknoteChainState T → Accounts → Type 0
CoreReads T g init_balance s f =
    (db : T.Database) × (t : T.Trie) × (get_elem? s.triedbs 0 ≡ some db)
    × (T.new_trie s.cledger_state_root db ≡ some t)
    × Reads T g init_balance t f

set_head {ℓ} :
    {A : Type ℓ} (xs : List A) (a b : A)
    → get_elem? xs 0 ≡ some a
    → get_elem? (set xs 0 b) 0 ≡ some b
set_head [] a b h = cc
set_head (x ∷ xs) a b h = refl

module _ {T : TrieLib} {g : Gob AccountState} (lawful : IsTrieLib T) (codec : IsGob g) where
  core_ledger_loop-Reads :
      (init_balance : ℤ) (f : Accounts) (txs : List BanknoteTx) (ps : List Payment)
      (p : Progress T g)
      → Pays txs ps
      → Reads T g init_balance p.st f
      → Returns (core_ledger_loop T g init_balance p txs) λ q.
        Updated T p.st q.st
        × Reads T g init_balance q.st (settle_all f ps)
        × (q.cnt ≡ p.cnt + length txs)
  unfolding core_ledger_loop settle_all
  core_ledger_loop-Reads b f [] [] p h reads = (p, refl, (unchanged, reads, omega arith))
  core_ledger_loop-Reads b f [] (_ ∷ _) p h reads = absurd h
  core_ledger_loop-Reads b f (_ ∷ _) [] p h reads = absurd h
  core_ledger_loop-Reads b f (tx ∷ txs) (y ∷ ps) p (from, to, amount, rest) reads =
      let (st', run, (u, reads')) = pay-Reads b lawful codec p.st f y reads in
      let paid : pay T g b p.st tx.from tx.to tx.amount ≡ ok st' = rw (from, to, amount) run in
      let (q, run', (u', reads'', count)) =
        core_ledger_loop-Reads b (settle f y) txs ps (advance T g p tx st') rest reads' in
      (q, rw paid run', (Updated-trans b lawful codec u u', reads'', omega arith))

  -- On a core ledger that opens, with an amount in every transaction, the call does not fault. The
  -- ledger that it leaves opens again, with the payments settled in order on its accounts, and
  -- the peripheral ledgers and the pool are not touched.
  pub process_core_ledger_tx-refines :
      (s : BanknoteChainState T) (config : Config) (f : Accounts) (txs : List BanknoteTx)
      (ps : List Payment)
      → CoreReads T g config.init_balance s f
      → Pays txs ps
      → Returns (process_core_ledger_tx T g txs s config) λ r.
        CoreReads T g config.init_balance r.state (settle_all f ps)
        × (r.state.pledger_state_roots ≡ s.pledger_state_roots)
        × (r.state.active_banknotes_pool ≡ s.active_banknotes_pool)
        × (r.root ≡ r.state.cledger_state_root)
        × ((j : ℕ) → get_elem? r.state.triedbs (suc j) ≡ get_elem? s.triedbs (suc j))
  unfolding process_core_ledger_tx settle_all core_ledger_loop
  process_core_ledger_tx-refines s config f [] [] (db, t, at, opens, reads) pays = (
    record { state = s; root = s.cledger_state_root; modified = 0 },
    rw (at, opens),
    ((db, t, at, opens, reads), refl, refl, refl, λ j. refl),
  )
  process_core_ledger_tx-refines s config f [] (_ ∷ _) (db, t, at, opens, reads) pays = absurd pays
  process_core_ledger_tx-refines s config f (_ ∷ _) [] (db, t, at, opens, reads) pays = absurd pays
  process_core_ledger_tx-refines s config f (tx ∷ txs) (y ∷ ps) (db, t, at, opens, reads) pays =
      let b = config.init_balance in
      let (q, run, (by, reads', count)) =
        core_ledger_loop-Reads b f (tx ∷ txs) (y ∷ ps)
          (record { st = t; modified_account_map = []; cnt = 0 }) pays reads in
      let ((rt, db'), done, (w, opens', same)) =
        commit_trie-opens lawful s.cledger_state_root db t q.st opens by in
      let worked : (q.cnt == 0) ≡ false = ground arith in
      (
        record {
          state = record s { cledger_state_root = rt; triedbs = set s.triedbs 0 db' };
          root = rt;
          modified = length q.modified_account_map;
        },
        rw (at, opens, run, worked, done),
        (
          (
            db',
            w,
            set_head s.triedbs db db' at,
            opens',
            Reads-congr b lawful codec q.st w _ same reads',
          ),
          refl,
          refl,
          refl,
          λ j. get_elem?-set_ne s.triedbs 0 (suc j) db' (λ e. absurd (omega arith)),
        ),
      )

  -- On accounts that cover its payments, a block of normal transactions changes the sum of the
  -- balances by exactly the amounts that are credited without a deduction: no more and no less.
  pub process_core_ledger_tx-total :
      (s : BanknoteChainState T) (config : Config) (f : Accounts) (txs : List BanknoteTx)
      (ps : List Payment) (xs : List Address)
      → CoreReads T g config.init_balance s f
      → Pays txs ps
      → Covers xs ps
      → Returns (process_core_ledger_tx T g txs s config) λ r.
        (f' : Accounts) × CoreReads T g config.init_balance r.state f'
        × (total xs f' ≡ total xs f +ℤ minted f ps)
  process_core_ledger_tx-total s config f txs ps xs reads pays covers =
      let (r, run, (after, _, _, _, _)) =
        process_core_ledger_tx-refines s config f txs ps reads pays in
      (r, run, (settle_all f ps, after, total-settle_all xs f ps covers))
