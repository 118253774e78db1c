-- ===== src/Processor/CoreLedger.antt =====
-- chain/banknote_processor.go, `ProcessCoreLedgerTx`: the normal transactions.
pub mod Refinement
use banknote_chain.Base.{
  ℕ, ◌+◌, List, [], ◌∷◌, Option, none, some, ◌==◌, if◌then◌else◌, get_elem?, set, length,
}
use banknote_chain.Base.Int.{ℤ}
use banknote_chain.Base.Outcome.{Outcome, ok, index_out_of_range, log_panic, require, ◌>>=◌}
use banknote_chain.Base.Go.{Hash, Address, Gob, TrieLib}
use banknote_chain.Account.{AccountState}
use banknote_chain.Config.{Config}
use banknote_chain.Ledger.{pay, commit_trie, mark_modified}
use banknote_chain.State.{BanknoteChainState}
use banknote_chain.Tx.{BanknoteTx}

module _ (T : TrieLib) (g : Gob AccountState) where
  -- The variables of the loop.
  pub record Progress : Type 0 where
    pub st : T.Trie
    pub modified_account_map : List Address
    pub cnt : ℕ

  -- The marks and the count of a round that leaves the trie `st`.
  abbrev pub advance : Progress → BanknoteTx → T.Trie → Progress
  advance p tx st = record {
    st = st;
    modified_account_map = mark_modified tx.to (mark_modified tx.from p.modified_account_map);
    cnt = p.cnt + 1;
  }

  unfoldable pub core_ledger_loop : ℤ → Progress → List BanknoteTx → Outcome Progress
  core_ledger_loop init_balance p [] = ok p
  core_ledger_loop init_balance p (tx ∷ txs) =
      pay T g init_balance p.st tx.from tx.to tx.amount >>= λ st.
      core_ledger_loop init_balance (advance p tx st) txs

  -- What `ProcessCoreLedgerTx` returns, with the state that it leaves.
  pub record CoreResult : Type 0 where
    pub state : BanknoteChainState T
    pub root : Hash
    pub modified : ℕ

  unfoldable pub process_core_ledger_tx :
      List BanknoteTx → BanknoteChainState T → Config → Outcome CoreResult
  process_core_ledger_tx txs s cc = do
    db ← require index_out_of_range (get_elem? s.triedbs 0)
    st ← require log_panic (T.new_trie s.cledger_state_root db)
    p ←
        core_ledger_loop cc.init_balance (record { st = st; modified_account_map = []; cnt = 0 })
          txs
    let committed = do
      (rt, db') ← commit_trie T p.st db
      ok (record {
        state = record s { cledger_state_root = rt; triedbs = set s.triedbs 0 db' };
        root = rt;
        modified = length p.modified_account_map;
      })
    if p.cnt == 0
        then ok (record { state = s; root = s.cledger_state_root; modified = 0 })
        else committed
