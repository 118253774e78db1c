-- ===== src/TxPool/Packing.antt =====
-- What is packed, and what is added.
use mathlib.Core.List.{append_assoc, append-nil}
use banknote_chain.Base.{
  ℕ, zero, suc, ◌+◌, ◌-◌, ◌/◌, ◌≤◌, ◌≡◌, refl, sym, ap, ap₂, ◌∙◌, List, [], ◌∷◌, ◌++◌, map, min,
  some, length, take, drop, length-append, false, ltb, leb, ◌==◌, ==_ne, if◌then◌else◌, arith,
  Bool-cases, inl, inr,
}
use banknote_chain.Transaction.{Transaction}
use banknote_chain.TxPool.{
  TxPool, stamp, add_tx2_pool, add_tx2_pool_head, add_txs2_pool, add_txs2_pool_head, split_off,
  broadcast_after, pack_txs, count_fitting, pack_txs_with_bytes, transaction_size,
}

take-drop_all :
    (n : ℕ) (xs : List Transaction) → length xs ≤ n → (take n xs ≡ xs) × (drop n xs ≡ [])
take-drop_all zero [] h = (refl, refl)
take-drop_all zero (x ∷ xs) h = absurd (omega arith)
take-drop_all (suc n) [] h = (refl, refl)
take-drop_all (suc n) (x ∷ xs) h =
    let (t, d) = take-drop_all n xs (omega arith) in (ap (λ r. x ∷ r) t, d)

split_off-guard : (n : ℕ) (p : TxPool) → (if n == 0 then ([], p) else split_off n p) ≡ split_off n p
split_off-guard zero p = refl
split_off-guard (suc n) p = rw (==_ne (suc n) 0 (omega arith)) refl

split_off-all :
    (n : ℕ) (p : TxPool)
    → length p.tx_queue ≤ n
    → split_off n p
      ≡ (p.tx_queue, record p { tx_queue = []; waiting = broadcast_after p.tx_queue p.waiting })
split_off-all n p h =
    let (t, d) = take-drop_all n p.tx_queue h in
    ap₂ (λ l r. (l, record p { tx_queue = r; waiting = broadcast_after l p.waiting })) t d

-- `PackTxs` takes the first `max_txs` transactions, or all of them if there are fewer, and leaves
-- the others in their order; the capacity stays, and if it takes any it wakes the producers.
pub pack_txs-takes : (max_txs : ℕ) (p : TxPool) → pack_txs max_txs p ≡ split_off max_txs p
unfolding pack_txs
pack_txs-takes max_txs p = elim (Bool-cases (ltb (length p.tx_queue) max_txs)) [
  | inl e ↦ rw e (
      split_off-guard (length p.tx_queue) p
      ∙ split_off-all (length p.tx_queue) p (omega arith)
      ∙ sym (split_off-all max_txs p (ground arith)))
  | inr e ↦ rw e (split_off-guard max_txs p)
]

split_off-min : (n : ℕ) (p : TxPool) → split_off (min (length p.tx_queue) n) p ≡ split_off n p
split_off-min n p = elim (Bool-cases (leb n (length p.tx_queue))) [
  | inl e ↦ let e' : min (length p.tx_queue) n ≡ n = ground arith in ap (λ z. split_off z p) e'
  | inr e ↦
      split_off-all (min (length p.tx_queue) n) p (ground arith)
      ∙ sym (split_off-all n p (ground arith))
]

count_fitting-eq :
    (max_bytes : ℕ) (txs : List Transaction) (current_size tx_idx : ℕ)
    → current_size ≤ max_bytes
    → count_fitting max_bytes txs current_size tx_idx
      ≡ tx_idx + min (length txs) ((max_bytes - current_size) / transaction_size)
unfolding count_fitting
count_fitting-eq max_bytes [] current_size tx_idx h = omega arith
count_fitting-eq max_bytes (tx ∷ txs) current_size tx_idx h =
    elim (Bool-cases (ltb max_bytes (current_size + transaction_size))) [
      | inl e ↦ rw e (ground arith)
      | inr e ↦
          let ih =
            count_fitting-eq max_bytes txs (current_size + transaction_size) (tx_idx + 1)
              (ground arith) in
          rw e (ih ∙ ground arith)
    ]

-- `PackTxsWithBytes` gives what `PackTxs` gives for the number of transactions of 136 bytes that
-- fit into `max_bytes`, which is rounded down.
pub pack_txs_with_bytes-eq :
    (max_bytes : ℕ) (p : TxPool)
    → pack_txs_with_bytes max_bytes p ≡ pack_txs (max_bytes / transaction_size) p
unfolding pack_txs_with_bytes
pack_txs_with_bytes-eq max_bytes p =
    let n = max_bytes / transaction_size in
    let count : count_fitting max_bytes p.tx_queue 0 0 ≡ min (length p.tx_queue) n =
      count_fitting-eq max_bytes p.tx_queue 0 0 (omega arith) ∙ omega arith in
    elim (Bool-cases (length p.tx_queue == 0)) [
      | inl e ↦ rw e (split_off-all 0 p (ground arith) ∙ sym (split_off-all n p (ground arith)))
      | inr e ↦ rw e (rw count (split_off-guard (min (length p.tx_queue) n) p ∙ split_off-min n p))
    ]
    ∙ sym (pack_txs-takes n p)

pub add_tx2_pool-room :
    (now : ℕ) (tx : Transaction) (p : TxPool)
    → suc (length p.tx_queue) ≤ p.capacity
    → add_tx2_pool now tx p ≡ some (record p { tx_queue = p.tx_queue ++ stamp now tx ∷ [] })
unfolding add_tx2_pool
add_tx2_pool-room now tx p h =
    let room : leb p.capacity (length p.tx_queue) ≡ false = ground arith in rw room refl

-- A call of `AddTxs2Pool` for which there is room does not wait: it puts the transactions behind the
-- others in their order, each with its time set.
pub add_txs2_pool-appends :
    (now : ℕ) (txs : List Transaction) (p : TxPool)
    → length p.tx_queue + length txs ≤ p.capacity
    → add_txs2_pool now txs p ≡ some (record p { tx_queue = p.tx_queue ++ map (stamp now) txs })
unfolding add_txs2_pool
add_txs2_pool-appends now [] p h =
    ap (λ q. some (record p { tx_queue = q })) (sym (append-nil p.tx_queue))
add_txs2_pool-appends now (tx ∷ txs) p h =
    let q : TxPool = record p { tx_queue = p.tx_queue ++ stamp now tx ∷ [] } in
    rw (add_txs2_pool, add_tx2_pool-room now tx p (omega arith))
      (add_txs2_pool-appends now txs q (omega (arith, length-append p.tx_queue (stamp now tx ∷ [])))
        ∙ ap (λ l. some (record p { tx_queue = l }))
            (append_assoc p.tx_queue (stamp now tx ∷ []) (map (stamp now) txs)))

-- A call of `AddTxs2Pool_Head` for which there is room does not wait: it puts the transactions in
-- front of the others, in the order in which they were given.
pub add_txs2_pool_head-prepends :
    (txs : List Transaction) (p : TxPool)
    → length p.tx_queue + length txs ≤ p.capacity
    → add_txs2_pool_head txs p ≡ some (record p { tx_queue = txs ++ p.tx_queue })
unfolding add_txs2_pool_head add_tx2_pool_head
add_txs2_pool_head-prepends [] p h = refl
add_txs2_pool_head-prepends (tx ∷ txs) p h =
    let room : leb p.capacity (length (txs ++ p.tx_queue)) ≡ false =
      let len = length-append txs p.tx_queue in ground arith in
    rw (add_txs2_pool_head-prepends txs p (omega arith)) (rw room refl)
