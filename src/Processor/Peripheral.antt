-- ===== src/Processor/Peripheral.antt =====
-- chain/banknote_processor.go, `ProcessPeripheralLedgerTx`: a peripheral ledger applies its
-- transactions in four phases, each by a group of workers that share a channel.
pub mod Notes
pub mod Steps
pub mod Refinement
pub mod Recycling
pub mod Whole
pub mod Channels
use banknote_chain.Base.{
  ℕ, suc, List, [], ◌∷◌, ◌++◌, Bool, true, false, Option, none, some, ◌==◌, if◌then◌else◌,
  get_elem?, length, leb, ◌&&◌, keep, ◌/◌, ◌*◌,
}
use banknote_chain.Base.Int.{ℤ, pos, leb_ℤ}
use banknote_chain.Base.Outcome.{
  Outcome, ok, panic, nil_dereference, index_out_of_range, log_panic, blocked, require, ◌>>=◌,
}
use banknote_chain.Base.Go.{Hash, Address, Gob, TrieLib}
use banknote_chain.Account.{AccountState}
use banknote_chain.Banknote.{Banknote, new_banknote}
use banknote_chain.Config.{Config}
use banknote_chain.Pool.{
  ActiveBanknotePool, add_banknote, set_banknote, remove_banknote, get_banknote,
}
use banknote_chain.Processor.StateTrie.{
  AccountModify, ModifySet, process_peripheral_ledger_tx_state_trie,
}
use banknote_chain.State.{BanknoteChainState}
use banknote_chain.Tx.{BanknoteTx, BanknoteTxType, bg, bt, br, bs, nt}

-- What the workers share: the pool, what has gone down the channel to the state trie, and
-- `toBeRecycledBSSourceBanknotesChan`.
pub record Work : Type 0 where
  pub pool : ActiveBanknotePool
  pub account_modifies : List AccountModify
  pub to_be_recycled : List Hash

-- One transaction in the body of a worker's loop, by phase. A transaction is taken off its channel
-- by one worker, and the body is run as one step.
unfoldable pub bg_tx : Config → Work → BanknoteTx → Outcome Work
bg_tx cc w tx = do
  b ← new_banknote tx.banknote_hash tx.amount tx.from cc
  pool ← add_banknote w.pool b
  ok (record w {
    pool = pool;
    account_modifies =
        w.account_modifies ++ record { from = tx.from; to = 0; amount = tx.amount } ∷ [];
  })

-- The first half of a split: the source is removed, or noted if it is not there.
unfoldable pub bs_source : Work → BanknoteTx → Outcome Work
bs_source w tx = get_banknote w.pool tx.banknote_hash >>= λ found. elim found [
  | none ↦ ok (record w { to_be_recycled = w.to_be_recycled ++ tx.banknote_hash ∷ [] })
  | some b ↦ remove_banknote w.pool b.banknote_hash >>= λ pool. ok (record w { pool = pool })
]

unfoldable pub bs_tx : Config → Work → BanknoteTx → Outcome Work
bs_tx cc w tx = do
  w' ← bs_source w tx
  b₁ ← new_banknote tx.banknote_hash1_new_for_split tx.amount1_new_for_split tx.from cc
  b₂ ← new_banknote tx.banknote_hash2_new_for_split tx.amount2_new_for_split tx.to cc
  pool₁ ← add_banknote w'.pool b₁
  pool₂ ← add_banknote pool₁ b₂
  ok (record w' { pool = pool₂ })

-- `amountToCompare`
abbrev pub init_banknote_amount : ℤ
init_banknote_amount = pos 100_000_000

-- `tx.Amount.Cmp(amountToCompare) == 0`
abbrev pub is_init_banknote : ℤ → Bool
is_init_banknote v = leb_ℤ v init_banknote_amount && leb_ℤ init_banknote_amount v

-- A banknote that is not active is made if the amount is that of an initial banknote; otherwise
-- the transaction is passed over.
unfoldable pub bt_tx : Config → Work → BanknoteTx → Outcome Work
bt_tx cc w tx = get_banknote w.pool tx.banknote_hash >>= λ found. elim found [
  | some b ↦
      set_banknote w.pool (record b { owner = tx.to }) >>= λ pool. ok (record w { pool = pool })
  | none ↦ require nil_dereference tx.amount >>= λ v.
      let made = do
        b ← new_banknote tx.banknote_hash tx.amount tx.to cc
        pool₁ ← add_banknote w.pool b
        pool₂ ← set_banknote pool₁ (record b { owner = tx.to })
        ok (record w { pool = pool₂ })
      in if is_init_banknote v then made else ok w
]

unfoldable pub br_tx : Work → BanknoteTx → Outcome Work
br_tx w tx =
    let sent = record w {
      account_modifies =
          w.account_modifies ++ record { from = 0; to = tx.to; amount = tx.amount } ∷ [];
    } in
    get_banknote w.pool tx.banknote_hash >>= λ found. elim found [
      | none ↦ ok sent
      | some b ↦ remove_banknote w.pool b.banknote_hash >>= λ pool. ok (record sent { pool = pool })
    ]

unfoldable pub each : (Work → BanknoteTx → Outcome Work) → List BanknoteTx → Work → Outcome Work
each body [] w = ok w
each body (tx ∷ txs) w = body w tx >>= each body txs

-- The loop over the noted hashes, which runs beside the workers of the last phase.
unfoldable pub recycle : List Hash → ActiveBanknotePool → Outcome ActiveBanknotePool
recycle [] bp = ok bp
recycle (h ∷ hs) bp = remove_banknote bp h >>= recycle hs

-- The transactions of each phase, in the order in which workers take them.
pub record Phases : Type 0 where
  pub bg_txs : List BanknoteTx
  pub bs_txs : List BanknoteTx
  pub bt_txs : List BanknoteTx
  pub br_txs : List BanknoteTx

abbrev pub is_bg : BanknoteTx → Bool
is_bg tx = elim tx.banknote_tx_type [ bg ↦ true | _ ↦ false ]

abbrev pub is_bt : BanknoteTx → Bool
is_bt tx = elim tx.banknote_tx_type [ bt ↦ true | _ ↦ false ]

abbrev pub is_br : BanknoteTx → Bool
is_br tx = elim tx.banknote_tx_type [ br ↦ true | _ ↦ false ]

abbrev pub is_bs : BanknoteTx → Bool
is_bs tx = elim tx.banknote_tx_type [ bs ↦ true | _ ↦ false ]

-- The goroutine that fills the channels, each of which keeps the order of the block.
unfoldable pub fill_channels : List BanknoteTx → Phases
fill_channels txs = record {
  bg_txs = keep is_bg txs;
  bs_txs = keep is_bs txs;
  bt_txs = keep is_bt txs;
  br_txs = keep is_br txs;
}

-- What the filling goroutine and the workers come to. Until the filling goroutine has sent the last
-- transaction no channel is closed and the workers empty the first channel alone, so that it waits
-- for ever where another channel has more transactions than places. A split notes at most one
-- hash, and the channel for these has as many places.
abbrev pub fits : Config → Phases → Bool
fits cc p =
    leb (length p.bs_txs) cc.pledger_inner_chan_size
    && (leb (length p.bt_txs) cc.pledger_inner_chan_size
        && leb (length p.br_txs) cc.pledger_inner_chan_size)

unfoldable pub take_channels : Config → (Phases → Phases) → List BanknoteTx → Outcome Phases
take_channels cc schedule txs =
    if fits cc (fill_channels txs) then ok (schedule (fill_channels txs)) else panic blocked

-- The four phases, with a wait for all workers between one and the next.
unfoldable pub run_phases : Config → Phases → ActiveBanknotePool → Outcome Work
run_phases cc p bp = do
  w₁ ← each (bg_tx cc) p.bg_txs (record { pool = bp; account_modifies = []; to_be_recycled = [] })
  w₂ ← each (bs_tx cc) p.bs_txs w₁
  w₃ ← each (bt_tx cc) p.bt_txs w₂
  w₄ ← each br_tx p.br_txs w₃
  pool ← recycle w₄.to_be_recycled w₄.pool
  ok (record w₄ { pool = pool })

-- `WorkNumberPerPLedger`: at least one worker, and then twice as many. There is a ledger, so the
-- division does not fault.
unfoldable pub work_number_per_pledger : ℕ → Config → ℕ
work_number_per_pledger num_cpu cc =
    let n = cc.banknote_chain_pledger_number in
    let share = (if cc.core_limit == 0 then num_cpu else cc.core_limit) / n in
    (if share == 0 then 1 else share) * 2

-- A ledger on a pool that no other one works on. `schedule` is the order in which the workers of each
-- phase take the transactions.
module _ (T : TrieLib) (g : Gob AccountState) (range_order : ModifySet → List (Address × ℤ))
    (schedule : Phases → Phases) where
  -- The state trie takes the records in the order in which the workers sent them.
  unfoldable pub process_peripheral_ledger_tx :
      ℕ → List BanknoteTx → BanknoteChainState T → Config → Outcome (BanknoteChainState T)
  process_peripheral_ledger_tx ledger_id txs s cc = do
    root ← require index_out_of_range (get_elem? s.pledger_state_roots ledger_id)
    db ← require index_out_of_range (get_elem? s.triedbs (suc ledger_id))
    st ← require log_panic (T.new_trie root db)
    p ← take_channels cc schedule txs
    w ← run_phases cc p s.active_banknotes_pool
    process_peripheral_ledger_tx_state_trie T g range_order ledger_id st db w.account_modifies
        (record s { active_banknotes_pool = w.pool }) cc
