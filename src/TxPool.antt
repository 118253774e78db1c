-- ===== src/TxPool.antt =====
-- txPool/txpool.go: a bounded queue of transactions. Producers wait while it is full, and consumers
-- pack what stands at its head.
pub mod Steps
pub mod Packing
use banknote_chain.Base.{
  ℕ, zero, suc, ◌+◌, List, [], ◌∷◌, ◌++◌, Option, none, some, length, take, drop, ltb, leb, ◌==◌,
  if◌then◌else◌,
}
use banknote_chain.Base.Outcome.{Outcome, ok, panic, log_panic}
use banknote_chain.Transaction.{Transaction}

pub record TxPool : Type 0 where
  pub tx_queue : List Transaction
  pub capacity : ℕ
  -- the producers that wait on `cond`
  pub waiting : ℕ

unfoldable pub new_tx_pool : ℕ → Outcome TxPool
new_tx_pool capacity =
    if capacity == 0
    then panic log_panic
    else ok (record { tx_queue = []; capacity = capacity; waiting = 0 })

-- `if tx.Time.IsZero() { tx.Time = time.Now() }`
unfoldable pub stamp : ℕ → Transaction → Transaction
stamp now tx = if tx.time == 0 then record tx { time = now } else tx

-- `cond.Wait()`
unfoldable pub wait : TxPool → TxPool
wait p = record p { waiting = p.waiting + 1 }

-- `cond.Broadcast()`, to which both ways of packing come if they have packed something.
abbrev pub broadcast_after : List Transaction → ℕ → ℕ
broadcast_after [] waiting = waiting
broadcast_after (tx ∷ txs) waiting = 0

-- One round of the loop in `AddTxs2Pool`, and the body of `AddTx2Pool`: `none` is the round that
-- waits, with the lock released.
unfoldable pub add_tx2_pool : ℕ → Transaction → TxPool → Option TxPool
add_tx2_pool now tx p =
    if leb p.capacity (length p.tx_queue)
    then none
    else some (record p { tx_queue = p.tx_queue ++ stamp now tx ∷ [] })

-- One round of the loop in `AddTxs2Pool_Head`.
unfoldable pub add_tx2_pool_head : Transaction → TxPool → Option TxPool
add_tx2_pool_head tx p =
    if leb p.capacity (length p.tx_queue)
    then none
    else some (record p { tx_queue = tx ∷ p.tx_queue })

-- A call of `AddTxs2Pool` that no consumer interrupts: `none` if it comes to wait.
unfoldable pub add_txs2_pool : ℕ → List Transaction → TxPool → Option TxPool
add_txs2_pool now [] p = some p
add_txs2_pool now (tx ∷ txs) p = elim (add_tx2_pool now tx p) [
  | none ↦ none
  | some q ↦ add_txs2_pool now txs q
]

-- `AddTxs2Pool_Head` likewise: it goes from the last transaction to the first.
unfoldable pub add_txs2_pool_head : List Transaction → TxPool → Option TxPool
add_txs2_pool_head [] p = some p
add_txs2_pool_head (tx ∷ txs) p = elim (add_txs2_pool_head txs p) [
  | none ↦ none
  | some q ↦ add_tx2_pool_head tx q
]

-- The first `n` transactions, and the pool that is left, whose producers are woken.
abbrev pub split_off : ℕ → TxPool → List Transaction × TxPool
split_off n p = (
  take n p.tx_queue,
  record p {
    tx_queue = drop n p.tx_queue;
    waiting = broadcast_after (take n p.tx_queue) p.waiting;
  },
)

unfoldable pub pack_txs : ℕ → TxPool → List Transaction × TxPool
pack_txs max_txs p =
    let tx_num = if ltb (length p.tx_queue) max_txs then length p.tx_queue else max_txs in
    if tx_num == 0 then ([], p) else split_off tx_num p

-- `unsafe.Sizeof(*tx)` on a 64-bit machine: two addresses, an integer, a pointer, a hash, a
-- `time.Time` and a slice.
abbrev pub transaction_size : ℕ
transaction_size = 136

-- The loop's `txNum`, from the position `tx_idx` on. `max_bytes` is not negative.
unfoldable pub count_fitting : ℕ → List Transaction → (current_size tx_idx : ℕ) → ℕ
count_fitting max_bytes [] current_size tx_idx = tx_idx
count_fitting max_bytes (tx ∷ txs) current_size tx_idx =
    let rest = count_fitting max_bytes txs (current_size + transaction_size) (tx_idx + 1) in
    if ltb max_bytes (current_size + transaction_size) then tx_idx else rest

unfoldable pub pack_txs_with_bytes : ℕ → TxPool → List Transaction × TxPool
pack_txs_with_bytes max_bytes p =
    if length p.tx_queue == 0
    then ([], p)
    else let tx_num = count_fitting max_bytes p.tx_queue 0 0 in
      if tx_num == 0 then ([], p) else split_off tx_num p

unfoldable pub get_tx_queue_len : TxPool → ℕ
get_tx_queue_len p = length p.tx_queue
