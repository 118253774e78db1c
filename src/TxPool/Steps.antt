-- ===== src/TxPool/Steps.antt =====
-- A producer in `AddTxs2Pool` and the consumers of the pool, in every interleaving.
use mathlib.Core.List.{append_assoc}
use banknote_chain.Base.{
  ℕ, zero, suc, ◌⊎◌, ◌≤◌, ◌<◌, ◌≡◌, refl, sym, ap, subst, ◌∙◌, List, [], ◌∷◌, ◌++◌, ◌/◌, map, some,
  none, length, take, drop, take-append-drop, length-drop, length-append, leb, ◌==◌, arith,
  Bool-cases, inl, inr,
}
use banknote_chain.Transaction.{Transaction}
use banknote_chain.TxPool.{
  TxPool, stamp, wait, broadcast_after, add_tx2_pool, split_off, pack_txs, pack_txs_with_bytes,
  transaction_size,
}
use banknote_chain.TxPool.Packing.{pack_txs-takes, pack_txs_with_bytes-eq}

-- The pool, what the producer has yet to add, and what consumers have packed so far.
pub record System : Type 0 where
  pub pool : TxPool
  pub pending : List Transaction
  pub packed : List Transaction

-- A step is one turn with the lock held. A producer that finds the pool full waits, and its turn
-- comes again, on a broadcast or not.
pub data Step : System → System → Type 0 where
  add :
      {p q : TxPool} {pending packed : List Transaction} (now : ℕ) (tx : Transaction)
      → add_tx2_pool now tx p ≡ some q
      → Step
          (record { pool = p; pending = tx ∷ pending; packed = packed })
          (record { pool = q; pending = pending; packed = packed })
  wait_turn :
      {p : TxPool} {pending packed : List Transaction} (now : ℕ) (tx : Transaction)
      → add_tx2_pool now tx p ≡ none
      → Step
          (record { pool = p; pending = tx ∷ pending; packed = packed })
          (record { pool = wait p; pending = tx ∷ pending; packed = packed })
  pack :
      {p : TxPool} {pending packed : List Transaction} (max_txs : ℕ)
      → Step
          (record { pool = p; pending = pending; packed = packed })
          (record {
            pool = (pack_txs max_txs p).1;
            pending = pending;
            packed = packed ++ (pack_txs max_txs p).0;
          })
  pack_bytes :
      {p : TxPool} {pending packed : List Transaction} (max_bytes : ℕ)
      → Step
          (record { pool = p; pending = pending; packed = packed })
          (record {
            pool = (pack_txs_with_bytes max_bytes p).1;
            pending = pending;
            packed = packed ++ (pack_txs_with_bytes max_bytes p).0;
          })

infix 50 ◌⇒*◌
pub data ◌⇒*◌ : System → System → Type 0 where
  done : {s : System} → s ⇒* s
  next : {s t u : System} → Step s t → t ⇒* u → s ⇒* u

-- A transaction without its time, which the pool sets.
abbrev pub untimed : Transaction → Transaction
untimed tx = record tx { time = 0 }

abbrev pub order : System → List Transaction
order s = map untimed s.packed ++ (map untimed s.pool.tx_queue ++ map untimed s.pending)

map-untimed-append :
    (xs ys : List Transaction) → map untimed (xs ++ ys) ≡ map untimed xs ++ map untimed ys
map-untimed-append [] ys = refl
map-untimed-append (x ∷ xs) ys = ap (λ r. untimed x ∷ r) (map-untimed-append xs ys)

untimed-stamp : (now : ℕ) (tx : Transaction) → untimed (stamp now tx) ≡ untimed tx
unfolding stamp
untimed-stamp now tx = elim (Bool-cases (tx.time == 0)) [ inl e ↦ rw e refl | inr e ↦ rw e refl ]

-- A turn that adds finds room, and puts the transaction at the end.
add_tx2_pool-some :
    (now : ℕ) (tx : Transaction) (p q : TxPool)
    → add_tx2_pool now tx p ≡ some q
    → (length p.tx_queue < p.capacity)
      × (q ≡ record p { tx_queue = p.tx_queue ++ stamp now tx ∷ [] })
unfolding add_tx2_pool
add_tx2_pool-some now tx p q h = elim (Bool-cases (leb p.capacity (length p.tx_queue))) [
  | inl e ↦ let h' : none ≡ some q = rw e at h in cc
  | inr e ↦
      let h' : some (record p { tx_queue = p.tx_queue ++ stamp now tx ∷ [] }) ≡ some q =
        rw e at h in
      (ground arith, cc)
]

-- A turn that waits finds the pool full.
add_tx2_pool-none :
    (now : ℕ) (tx : Transaction) (p : TxPool)
    → add_tx2_pool now tx p ≡ none
    → p.capacity ≤ length p.tx_queue
unfolding add_tx2_pool
add_tx2_pool-none now tx p h = elim (Bool-cases (leb p.capacity (length p.tx_queue))) [
  | inl e ↦ ground arith
  | inr e ↦
      let h' : some (record p { tx_queue = p.tx_queue ++ stamp now tx ∷ [] }) ≡ none = rw e at h in
      absurd cc
]

pack-order :
    (n : ℕ) (p : TxPool) (packed pending : List Transaction)
    → (order (record {
      pool = (split_off n p).1;
      pending = pending;
      packed = packed ++ (split_off n p).0;
    })
        ≡ order (record { pool = p; pending = pending; packed = packed }))
      × (length (drop n p.tx_queue) ≤ length p.tx_queue)
pack-order n p packed pending =
    let joined : map untimed (packed ++ take n p.tx_queue) ++ map untimed (drop n p.tx_queue)
        ≡ map untimed packed ++ map untimed p.tx_queue =
      ap (λ r. r ++ map untimed (drop n p.tx_queue)) (map-untimed-append packed (take n p.tx_queue))
      ∙ append_assoc (map untimed packed) (map untimed (take n p.tx_queue))
          (map untimed (drop n p.tx_queue))
      ∙ ap (λ r. map untimed packed ++ r)
          (sym (map-untimed-append (take n p.tx_queue) (drop n p.tx_queue))
            ∙ ap (map untimed) (take-append-drop n p.tx_queue)) in
    (
      sym (
            append_assoc (map untimed (packed ++ take n p.tx_queue))
              (map untimed (drop n p.tx_queue)) (map untimed pending))
          ∙ ap (λ r. r ++ map untimed pending) joined
          ∙ append_assoc (map untimed packed) (map untimed p.tx_queue) (map untimed pending),
      omega (arith, length-drop n p.tx_queue),
    )

abbrev Bounded : System → Type 0
Bounded s = length s.pool.tx_queue ≤ s.pool.capacity

Step-order : {s t : System} → Step s t → Bounded s → (order t ≡ order s) × Bounded t
unfolding wait
Step-order (add {p = p} {q = q} {pending = pending} {packed = packed} now tx h) b =
    let (room, q_eq) = add_tx2_pool-some now tx p q h in
    (
      ap (λ z. map untimed packed ++ (map untimed z.tx_queue ++ map untimed pending)) q_eq
          ∙ ap (λ r. map untimed packed ++ r)
              (ap (λ r. r ++ map untimed pending)
                  (map-untimed-append p.tx_queue (stamp now tx ∷ []))
                ∙ append_assoc (map untimed p.tx_queue) (untimed (stamp now tx) ∷ [])
                    (map untimed pending)
                ∙ ap (λ z. map untimed p.tx_queue ++ (z ∷ map untimed pending))
                    (untimed-stamp now tx)),
      subst (λ z. length z.tx_queue ≤ z.capacity) (sym q_eq)
          (omega (arith, length-append p.tx_queue (stamp now tx ∷ []))),
    )
Step-order (wait_turn {p = p} now tx h) b = (refl, b)
Step-order (pack {p = p} {pending = pending} {packed = packed} n) b =
    let (same, shorter) = pack-order n p packed pending in
    rw (pack_txs-takes n p) (same, omega arith)
Step-order (pack_bytes {p = p} {pending = pending} {packed = packed} m) b =
    let (same, shorter) = pack-order (m / transaction_size) p packed pending in
    rw (pack_txs_with_bytes-eq m p ∙ pack_txs-takes (m / transaction_size) p) (same, omega arith)

-- Whatever the turns of the producer and the consumers, no transaction is lost, doubled or
-- overtaken: those packed, those in the pool and those to come make up the same list, but for the
-- times that the pool sets; and a pool within its capacity stays within it.
pub steps-fifo :
    {s t : System}
    → s ⇒* t
    → length s.pool.tx_queue ≤ s.pool.capacity
    → (order t ≡ order s) × (length t.pool.tx_queue ≤ t.pool.capacity)
steps-fifo done b = (refl, b)
steps-fifo (next first rest) b =
    let (o₁, b₁) = Step-order first b in let (o₂, b₂) = steps-fifo rest b₁ in (o₂ ∙ o₁, b₂)

-- No producer waits, or the pool is full.
abbrev pub IsAwake : TxPool → Type 0
IsAwake p = (p.waiting ≡ 0) ⊎ (p.capacity ≤ length p.tx_queue)

split_off-IsAwake : (n : ℕ) (p : TxPool) → IsAwake p → IsAwake (split_off n p).1
split_off-IsAwake n p h = go n p.tx_queue h
  where
    go :
        (n : ℕ) (q : List Transaction)
        → (p.waiting ≡ 0) ⊎ (p.capacity ≤ length q)
        → (broadcast_after (take n q) p.waiting ≡ 0) ⊎ (p.capacity ≤ length (drop n q))
    go zero q h = h
    go (suc n) [] h = h
    go (suc n) (tx ∷ txs) h = inl refl

Step-IsAwake : {s t : System} → Step s t → IsAwake s.pool → IsAwake t.pool
unfolding wait
Step-IsAwake (add {p = p} {q = q} now tx h) b =
    let (room, e) = add_tx2_pool-some now tx p q h in
    elim b [ inl idle ↦ inl (ap (λ z. z.waiting) e ∙ idle) | inr full ↦ absurd (omega arith) ]
Step-IsAwake (wait_turn {p = p} now tx full) b = inr (add_tx2_pool-none now tx p full)
Step-IsAwake (pack {p = p} n) b = rw (pack_txs-takes n p) (split_off-IsAwake n p b)
Step-IsAwake (pack_bytes {p = p} m) b =
    rw (pack_txs_with_bytes-eq m p ∙ pack_txs-takes (m / transaction_size) p)
      (split_off-IsAwake (m / transaction_size) p b)

-- No wake-up is lost: in every interleaving of the producer and the consumers, from a pool that is
-- full or for whose room no producer waits, a producer waits only while the pool is full.
pub steps-awake :
    {s t : System}
    → s ⇒* t
    → IsAwake s.pool
    → 0 < t.pool.waiting
    → t.pool.capacity ≤ length t.pool.tx_queue
steps-awake done (inl idle) w = absurd (omega arith)
steps-awake done (inr full) w = full
steps-awake (next first rest) b w = steps-awake rest (Step-IsAwake first b) w
