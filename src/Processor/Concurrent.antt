-- ===== src/Processor/Concurrent.antt =====
-- chain/banknote_processor.go: the goroutines of the peripheral ledgers, which share one pool of
-- banknotes.
pub mod Turns
pub mod Runs
pub mod Ledgers
pub mod Refinement
use banknote_chain.Base.{
  ℕ, zero, suc, ◌+◌, ◌-◌, List, [], ◌∷◌, ◌++◌, map, Bool, true, false, ltb, if◌then◌else◌,
  get_elem?,
}
use banknote_chain.Base.Int.{ℤ}
use banknote_chain.Base.Outcome.{Outcome, ok, index_out_of_range, log_panic, require, ◌>>=◌}
use banknote_chain.Base.Go.{Address, Hash, Gob, TrieLib}
use banknote_chain.Account.{AccountState}
use banknote_chain.Config.{Config}
use banknote_chain.Pool.{ActiveBanknotePool, remove_banknote}
use banknote_chain.Processor.Peripheral.{
  Work, bg_tx, bs_tx, bt_tx, br_tx, each, recycle, Phases, take_channels,
}
use banknote_chain.Processor.StateTrie.{
  AccountModify, ModifySet, process_peripheral_ledger_tx_state_trie,
}
use banknote_chain.State.{BanknoteChainState}
use banknote_chain.Tx.{BanknoteTx}

-- One transaction in the body of a worker's loop, in the first three phases.
pub data Task : Type 0 where
  generation splitting moving : BanknoteTx → Task

unfoldable pub body : Config → Task → Work → Outcome Work
body cc (generation tx) w = bg_tx cc w tx
body cc (splitting tx) w = bs_tx cc w tx
body cc (moving tx) w = bt_tx cc w tx

-- What a ledger has yet to do, and what it has sent and noted. Each phase is over before the next
-- begins.
pub record LedgerRun : Type 0 where
  pub tasks : List Task
  pub recyclings : List BanknoteTx
  pub account_modifies : List AccountModify
  pub to_be_recycled : List Hash

abbrev pub start_run : Phases → LedgerRun
start_run p = record {
  tasks = map generation p.bg_txs ++ (map splitting p.bs_txs ++ map moving p.bt_txs);
  recyclings = p.br_txs;
  account_modifies = [];
  to_be_recycled = [];
}

abbrev pub work_of : LedgerRun → ActiveBanknotePool → Work
work_of l bp = record {
  pool = bp;
  account_modifies = l.account_modifies;
  to_be_recycled = l.to_be_recycled;
}

abbrev pub after_work :
    LedgerRun → List Task → List BanknoteTx → Work → LedgerRun × ActiveBanknotePool
after_work l tasks recyclings w = (
  record {
    tasks = tasks;
    recyclings = recyclings;
    account_modifies = w.account_modifies;
    to_be_recycled = w.to_be_recycled;
  },
  w.pool,
)

-- A worker of the ledger has a turn, or, from the last phase on, the loop that removes the noted
-- banknotes. Nothing happens where it has nothing to do yet.
unfoldable pub work_next :
    Config
    → LedgerRun
    → List Task
    → List BanknoteTx
    → ActiveBanknotePool
    → Outcome (LedgerRun × ActiveBanknotePool)
work_next cc l (t ∷ ts) rs bp = body cc t (work_of l bp) >>= λ w. ok (after_work l ts rs w)
work_next cc l [] (tx ∷ rs) bp = br_tx (work_of l bp) tx >>= λ w. ok (after_work l [] rs w)
work_next cc l [] [] bp = ok (l, bp)

unfoldable pub drain_next :
    LedgerRun
    → List Task
    → List Hash
    → ActiveBanknotePool
    → Outcome (LedgerRun × ActiveBanknotePool)
drain_next l [] (h ∷ hs) bp =
    remove_banknote bp h >>= λ bp'. ok (record l { to_be_recycled = hs }, bp')
drain_next l [] [] bp = ok (l, bp)
drain_next l (t ∷ ts) noted bp = ok (l, bp)

unfoldable pub step :
    Config → Bool → LedgerRun → ActiveBanknotePool → Outcome (LedgerRun × ActiveBanknotePool)
step cc true l bp = work_next cc l l.tasks l.recyclings bp
step cc false l bp = drain_next l l.tasks l.to_be_recycled bp

-- A turn of ledger `i`.
unfoldable pub turn_at :
    Config
    → Bool
    → List LedgerRun
    → ℕ
    → ActiveBanknotePool
    → Outcome (List LedgerRun × ActiveBanknotePool)
turn_at cc worker [] i bp = ok ([], bp)
turn_at cc worker (l ∷ ls) zero bp = step cc worker l bp >>= λ (l', bp'). ok (l' ∷ ls, bp')
turn_at cc worker (l ∷ ls) (suc i) bp =
    turn_at cc worker ls i bp >>= λ (ls', bp'). ok (l ∷ ls', bp')

-- The turns of the ledgers in any order: a number below the count of ledgers is a turn of that
-- ledger's workers, and `n` more is one of its loop over the noted banknotes.
unfoldable pub run_turns :
    Config
    → List ℕ
    → List LedgerRun
    → ActiveBanknotePool
    → Outcome (List LedgerRun × ActiveBanknotePool)
run_turns cc [] ls bp = ok (ls, bp)
run_turns cc (k ∷ ks) ls bp =
    let n = cc.banknote_chain_pledger_number in
    turn_at cc (ltb k n) ls (if ltb k n then k else k - n) bp >>= λ (ls', bp').
    run_turns cc ks ls' bp'

unfoldable pub do_tasks : Config → List Task → Work → Outcome Work
do_tasks cc [] w = ok w
do_tasks cc (t ∷ ts) w = body cc t w >>= do_tasks cc ts

-- What is left after those turns is done by one ledger after another. So every order of all turns is
-- that of some numbers.
unfoldable pub finish_run :
    Config → LedgerRun → ActiveBanknotePool → Outcome (List AccountModify × ActiveBanknotePool)
finish_run cc l bp = do
  w ← do_tasks cc l.tasks (work_of l bp)
  w' ← each br_tx l.recyclings w
  bp' ← recycle w'.to_be_recycled w'.pool
  ok (w'.account_modifies, bp')

unfoldable pub finish_all :
    Config
    → List LedgerRun
    → ActiveBanknotePool
    → Outcome (List (List AccountModify) × ActiveBanknotePool)
finish_all cc [] bp = ok ([], bp)
finish_all cc (l ∷ ls) bp = do
  (records, bp₁) ← finish_run cc l bp
  (later, bp₂) ← finish_all cc ls bp₁
  ok (records ∷ later, bp₂)

unfoldable pub take_all :
    Config → (Phases → Phases) → List (List BanknoteTx) → Outcome (List Phases)
take_all cc schedule [] = ok []
take_all cc schedule (txs ∷ ledgers) = do
  p ← take_channels cc schedule txs
  ps ← take_all cc schedule ledgers
  ok (p ∷ ps)

module _ (T : TrieLib) (g : Gob AccountState) (range_order : ModifySet → List (Address × ℤ)) where
  -- The state tries. Each has its own root and database, and no use of the pool, so their order does
  -- not matter.
  unfoldable pub write_ledgers :
      ℕ → List (List AccountModify) → BanknoteChainState T → Config → Outcome (BanknoteChainState T)
  write_ledgers i [] s cc = ok s
  write_ledgers i (records ∷ later) s cc = do
    root ← require index_out_of_range (get_elem? s.pledger_state_roots i)
    db ← require index_out_of_range (get_elem? s.triedbs (suc i))
    st ← require log_panic (T.new_trie root db)
    s' ← process_peripheral_ledger_tx_state_trie T g range_order i st db records s cc
    write_ledgers (suc i) later s' cc

  -- `turns` are the numbers of the turns.
  unfoldable pub run_ledgers :
      (Phases → Phases)
      → List ℕ
      → List (List BanknoteTx)
      → BanknoteChainState T
      → Config
      → Outcome (BanknoteChainState T)
  run_ledgers schedule turns ledgers s cc = do
    ps ← take_all cc schedule ledgers
    (ls, bp) ← run_turns cc turns (map start_run ps) s.active_banknotes_pool
    (records, bp') ← finish_all cc ls bp
    write_ledgers 0 records (record s { active_banknotes_pool = bp' }) cc
