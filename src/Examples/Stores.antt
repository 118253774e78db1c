-- ===== src/Examples/Stores.antt =====
-- The store and the transaction pool at concrete inputs.
use banknote_chain.Base.{
  ℕ, refl, Option, none, some, List, [], ◌∷◌, ◌≡◌, ◌≢◌, ◌≤◌, arith, Bool, true, false, ◌&&◌, ◌==◌,
  ==_refl, ==_iff, Bool-cases, inl, inr, if◌then◌else◌, ap, ap₂, sym, ◌∙◌,
}
use banknote_chain.Base.Go.{Bytes}
use banknote_chain.Base.Int.{pos}
use banknote_chain.Base.Outcome.{ok, Returns}
use banknote_chain.Examples.Codec.Instances.{
  header_gob, block_gob, header_gob-IsGob, block_gob-IsGob,
}
use banknote_chain.Storage.{
  Block, BlockHeader, KeyValueLib, IsKeyValueLib, store_block_sync, get_block, get_block_header,
  get_newest_block_hash,
}
use banknote_chain.Storage.Laws.{store_block_sync-reads}
use banknote_chain.Transaction.{Transaction}
use banknote_chain.TxPool.{TxPool, stamp, wait, add_tx2_pool, pack_txs, split_off}
use banknote_chain.TxPool.Packing.{pack_txs-takes}
use banknote_chain.TxPool.Steps.{
  System, add, pack, ◌⇒*◌, done, next, order, steps-fifo, steps-awake, wait_turn,
}

abbrev pub tx : ℕ → Transaction
tx n = record {
  sender = n;
  recipient = 2;
  nonce = 0;
  value = some (pos 5);
  tx_hash = n;
  time = 0;
  sig = [];
}

abbrev two_of : List Transaction → TxPool
two_of q = record { tx_queue = q; capacity = 2; waiting = 0 }

pack_txs-takes_example :
    pack_txs 1 (two_of (tx 1 ∷ tx 2 ∷ [])) ≡ split_off 1 (two_of (tx 1 ∷ tx 2 ∷ []))
pack_txs-takes_example = pack_txs-takes 1 (two_of (tx 1 ∷ tx 2 ∷ []))

-- The pool is full, one transaction is packed, and the third goes in.
abbrev before : System
before = record { pool = two_of (tx 1 ∷ tx 2 ∷ []); pending = tx 3 ∷ []; packed = [] }

abbrev after : System
after = record {
  pool = two_of (tx 2 ∷ record (tx 3) { time = 9 } ∷ []);
  pending = [];
  packed = tx 1 ∷ [];
}

went : before ⇒* after
unfolding add_tx2_pool pack_txs stamp
went = next (pack 1) (next (add 9 (tx 3) refl) done)

steps-fifo_example : (order after ≡ order before) × (2 ≤ 2)
steps-fifo_example = steps-fifo went (omega arith)

-- The producer finds the pool full.
abbrev stalled : System
stalled = record before { pool = record (two_of (tx 1 ∷ tx 2 ∷ [])) { waiting = 1 } }

stalls : before ⇒* stalled
unfolding add_tx2_pool wait
stalls = next (wait_turn 9 (tx 3) refl) done

steps-awake_example : 2 ≤ 2
steps-awake_example = steps-awake stalls (inl refl) (omega arith)

some_inj : {A : Type 0} {x y : A} → some x ≡ some y → x ≡ y
some_inj e = cc

-- A store as a list of writes, the newest first.
abbrev pub eq_bytes : Bytes → Bytes → Bool
eq_bytes [] [] = true
eq_bytes (x ∷ xs) (y ∷ ys) = (x == y) && eq_bytes xs ys
eq_bytes _ _ = false

abbrev pub stored : List (Bytes × Bytes) → Bytes → Option Bytes
stored [] k = none
stored (e ∷ es) k = if eq_bytes e.0 k then some e.1 else stored es k

eq_bytes_refl : (k : Bytes) → eq_bytes k k ≡ true
eq_bytes_refl [] = refl
eq_bytes_refl (x ∷ k) = rw (==_refl x) (eq_bytes_refl k)

eq_bytes-ne : (k j : Bytes) → k ≢ j → eq_bytes k j ≡ false
eq_bytes-ne [] [] n = absurd (n refl)
eq_bytes-ne [] (y ∷ j) n = refl
eq_bytes-ne (x ∷ k) [] n = refl
eq_bytes-ne (x ∷ k) (y ∷ j) n = elim (Bool-cases (x == y)) [
  | inl e ↦ rw e (eq_bytes-ne k j (λ e'. n (ap₂ ◌∷◌ ((==_iff x y).0 e) e')))
  | inr e ↦ rw e refl
]

abbrev pub log_lib : KeyValueLib
log_lib = record {
  Database = List (Bytes × Bytes);
  get = stored;
  put = λ db k v. some ((k, v) ∷ db);
}

pub log_lib-IsKeyValueLib : IsKeyValueLib log_lib
log_lib-IsKeyValueLib = record {
  puts = λ db k v e. cc;
  get-put_self =
      λ db db' k v e. ap (λ d. stored d k) (some_inj (sym e)) ∙ rw (eq_bytes_refl k) refl;
  get-put_ne =
      λ db db' k j v e n. ap (λ d. stored d j) (some_inj (sym e)) ∙ rw (eq_bytes-ne k j n) refl;
}

abbrev pub header : BlockHeader
header = record {
  parent_block_hash = 4 ∷ [];
  state_root = 5 ∷ [];
  tx_root = 6 ∷ [];
  number = 1;
  time = 3;
  miner = 0;
  total_tx_count = 1;
  proposed_time = 0;
  message_delay_time = pos 0;
}

abbrev pub block : Block
block = record { header = header; body = tx 1 ∷ []; hash = 9 ∷ []; banknote_block = none }

store_block_sync-reads_example :
    Returns (store_block_sync log_lib header_gob block_gob [] block) (λ db'.
      (get_newest_block_hash log_lib header_gob block_gob db' ≡ some (9 ∷ []))
      × (get_block log_lib header_gob block_gob db' (9 ∷ []) ≡ ok (some block))
      × (get_block_header log_lib header_gob block_gob db' (9 ∷ []) ≡ ok (some header))
      × ((h : Bytes)
          → (9 ∷ []) ≢ h
          → get_block log_lib header_gob block_gob db' h
            ≡ get_block log_lib header_gob block_gob [] h))
store_block_sync-reads_example =
    store_block_sync-reads log_lib log_lib-IsKeyValueLib header_gob block_gob header_gob-IsGob
      block_gob-IsGob [] block
