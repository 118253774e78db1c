-- ===== src/State/Genesis.antt =====
-- The state at the genesis of the chain, and where its ledgers are kept.
use banknote_chain.Base.{ℕ, zero, suc, ◌+◌, ◌<◌, ◌≡◌, refl, get_elem?, some, none, arith}
use banknote_chain.Base.Go.{Hash, Gob, TrieLib, IsTrieLib}
use banknote_chain.Base.Int.{ℤ}
use banknote_chain.Account.{AccountState}
use banknote_chain.Config.{Config}
use banknote_chain.Ledger.{new_account, load_account}
use banknote_chain.Ledger.View.{Accounts, Reads}
use banknote_chain.Pool.Refinement.{Holds, new_active_banknote_pool-Holds}
use banknote_chain.State.{
  BanknoteChainState, LedgerDir, genesis_dir, genesis_ledgers, databases, roots,
  new_banknote_chain_state_genisis,
}

-- Every account as it is before its first payment.
abbrev pub untouched : ℤ → Accounts
untouched init_balance a = new_account init_balance

-- Peripheral ledger `i` of `s` opens, and its accounts are `f`.
abbrev pub PeripheralReads :
    (T : TrieLib) → Gob AccountState → ℤ → ℕ → BanknoteChainState T → Accounts → Type 0
PeripheralReads T g init_balance i s f =
    (root : Hash) × (db : T.Database) × (t : T.Trie) × (get_elem? s.pledger_state_roots i
      ≡ some root)
    × (get_elem? s.triedbs (suc i) ≡ some db)
    × (T.new_trie root db ≡ some t)
    × Reads T g init_balance t f

module _ {T : TrieLib} (lawful : IsTrieLib T) (g : Gob AccountState)
    (open_database : LedgerDir → T.Database) where
  new_empty-Reads :
      (init_balance : ℤ) (db : T.Database)
      → Reads T g init_balance (T.new_empty db) (untouched init_balance)
  unfolding load_account
  new_empty-Reads init_balance db a = rw (lawful.get-empty db a, load_account) refl

  genesis_ledgers-open :
      (i n k : ℕ)
      → k < n
      → (db : T.Database) × (get_elem?
            (roots T open_database (genesis_ledgers T open_database i n))
            k
          ≡ some (T.root_hash (T.new_empty db)))
        × (get_elem? (databases T open_database (genesis_ledgers T open_database i n)) k ≡ some db)
  unfolding genesis_ledgers roots databases
  genesis_ledgers-open i zero k h = absurd (omega arith)
  genesis_ledgers-open i (suc n) zero h = (open_database (genesis_dir i), refl, refl)
  genesis_ledgers-open i (suc n) (suc k) h = genesis_ledgers-open (i + 1) n k (omega arith)

  -- With at least one peripheral ledger, in the genesis state the core ledger and every peripheral
  -- ledger open in their databases, every account has the configured balance and nonce 0 in each, and
  -- no banknote is active.
  pub new_banknote_chain_state_genisis-opens :
      (config : Config) (number : ℕ)
      → 0 < config.banknote_chain_pledger_number
      → let s = new_banknote_chain_state_genisis T open_database config number in
        ((db : T.Database) × (t : T.Trie) × (get_elem? s.triedbs 0 ≡ some db)
          × (T.new_trie s.cledger_state_root db ≡ some t)
          × Reads T g config.init_balance t (untouched config.init_balance))
        × ((i : ℕ)
            → i < config.banknote_chain_pledger_number
            → PeripheralReads T g config.init_balance i s (untouched config.init_balance))
        × Holds s.active_banknotes_pool (λ _. none)
  unfolding new_banknote_chain_state_genisis
  new_banknote_chain_state_genisis-opens config number p =
      let core = open_database (genesis_dir 0) in
      (
        (
          core,
          T.new_empty core,
          refl,
          lawful.empty_opens core,
          new_empty-Reads config.init_balance core,
        ),
        (λ i h.
            let (db, at_root, at_db) =
              genesis_ledgers-open 1 config.banknote_chain_pledger_number i h in
            (
              T.root_hash (T.new_empty db),
              db,
              T.new_empty db,
              at_root,
              at_db,
              lawful.empty_opens db,
              new_empty-Reads config.init_balance db,
            )),
        new_active_banknote_pool-Holds config.banknote_chain_pledger_number p,
      )
