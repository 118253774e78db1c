-- ===== src/Processor/Classify/Laws.antt =====
-- What each list of a classified block holds.
use mathlib.Core.List.{append_assoc, append-nil}
use banknote_chain.Base.{
  ℕ, ◌<◌, ◌≡◌, ◌≢◌, refl, sym, ap, ◌∙◌, List, [], ◌∷◌, ◌++◌, Bool, true, false, not, ◌&&◌,
  get_elem?, get_elem?-some, set, replicate, length, keep, keep-append, length-set,
  length-replicate, get_elem?-set_self, get_elem?-set_ne, get_elem?-replicate, ◌==◌, ==_iff, some,
  inl, inr, Bool-cases, arith,
}
use banknote_chain.Base.Outcome.{Returns}
use banknote_chain.Banknote.{ledger_of, get_ledger_hash_by_id-eq, ledger_of-lt}
use banknote_chain.Processor.Classify.{
  Classified, append_at, is_nt, classify_peripheral, classify_tx, classify_loop, classify,
}
use banknote_chain.Processor.Peripheral.{is_br}
use banknote_chain.Tx.{BanknoteTx}

-- A transaction that ledger `i` of `n` applies, and one that it lists in the block.
abbrev pub applied : ℕ → ℕ → BanknoteTx → Bool
applied n i tx = not (is_nt tx) && (ledger_of n tx.tx_hash == i)

abbrev pub listed : ℕ → ℕ → BanknoteTx → Bool
listed n i tx = not (is_br tx) && applied n i tx

-- Each list of `ls` is followed in `ls'` by its own transactions of `txs`.
abbrev pub Added :
    (ℕ → BanknoteTx → Bool)
    → List (List BanknoteTx)
    → List (List BanknoteTx)
    → List BanknoteTx
    → Type 0
Added q ls ls' txs =
    (length ls' ≡ length ls)
    × ((i : ℕ) (l : List BanknoteTx)
        → get_elem? ls i ≡ some l
        → get_elem? ls' i ≡ some (l ++ keep (q i) txs))

module _ (q : ℕ → BanknoteTx → Bool) where
  Added-none :
      (ls : List (List BanknoteTx)) (tx : BanknoteTx)
      → ((i : ℕ) → q i tx ≡ false)
      → Added q ls ls (tx ∷ [])
  Added-none ls tx h = (refl, λ i l e. rw (h i) (e ∙ ap some (sym (append-nil l))))

  Added-nil : (ls : List (List BanknoteTx)) → Added q ls ls []
  Added-nil ls = (refl, λ i l e. e ∙ ap some (sym (append-nil l)))

  Added-trans :
      (ls ls' ls'' : List (List BanknoteTx)) (tx : BanknoteTx) (txs : List BanknoteTx)
      → Added q ls ls' (tx ∷ [])
      → Added q ls' ls'' txs
      → Added q ls ls'' (tx ∷ txs)
  Added-trans ls ls' ls'' tx txs (h, a) (h', a') = (
    h' ∙ h,
    λ i l e.
        a' i (l ++ keep (q i) (tx ∷ [])) (a i l e)
        ∙ ap some (
            append_assoc l (keep (q i) (tx ∷ [])) (keep (q i) txs)
            ∙ ap (λ r. l ++ r) (sym (keep-append (q i) (tx ∷ []) txs))),
  )

  set-adds :
      (ls : List (List BanknoteTx)) (k : ℕ) (tx : BanknoteTx) (l : List BanknoteTx)
      → k < length ls
      → get_elem? ls k ≡ some l
      → ((i : ℕ) → q i tx ≡ (k == i))
      → (i : ℕ) (m : List BanknoteTx) → get_elem? ls i ≡ some m
      → get_elem? (set ls k (l ++ tx ∷ [])) i ≡ some (m ++ keep (q i) (tx ∷ []))
  set-adds ls k tx l h l_eq e i m m_eq = elim (Bool-cases (k == i)) [
    | inl same ↦
        let k_eq : k ≡ i = (==_iff k i).0 same in
        let l_m : some l ≡ some m = sym l_eq ∙ ap (get_elem? ls) k_eq ∙ m_eq in
        rw (e i ∙ same) (
          ap (get_elem? (set ls k (l ++ tx ∷ []))) (sym k_eq)
          ∙ get_elem?-set_self ls k (l ++ tx ∷ []) h
          ∙ cc)
    | inr other ↦
        let k_ne : k ≢ i = ground arith in
        rw (e i ∙ other)
          (get_elem?-set_ne ls k i (l ++ tx ∷ []) k_ne ∙ m_eq ∙ ap some (sym (append-nil m)))
  ]

  append_at-Added :
      (ls : List (List BanknoteTx)) (k : ℕ) (tx : BanknoteTx)
      → k < length ls
      → ((i : ℕ) → q i tx ≡ (k == i))
      → Returns (append_at ls k tx) (λ ls'. Added q ls ls' (tx ∷ []))
  append_at-Added ls k tx h e =
      let (l, l_eq) = get_elem?-some ls k h in
      (
        set ls k (l ++ tx ∷ []),
        rw l_eq refl,
        (length-set ls k (l ++ tx ∷ []), set-adds ls k tx l h l_eq e),
      )

and-false : (b : Bool) → (b && false) ≡ false
and-false true = refl
and-false false = refl

-- What `txs` add to `c`.
abbrev Sorted : ℕ → Classified → Classified → List BanknoteTx → Type 0
Sorted n c c' txs =
    (c'.normal_txs ≡ c.normal_txs ++ keep is_nt txs)
    × Added (listed n) c.block_per_ledger c'.block_per_ledger txs
    × Added (applied n) c.actions_per_ledger c'.actions_per_ledger txs

classify_peripheral-sorts :
    (n : ℕ) (c : Classified) (tx : BanknoteTx)
    → 0 < n
    → length c.block_per_ledger ≡ n
    → length c.actions_per_ledger ≡ n
    → is_nt tx ≡ false
    → Returns (classify_peripheral n c tx) (λ c'. Sorted n c c' (tx ∷ []))
unfolding classify_peripheral
classify_peripheral-sorts n c tx p bl al e =
    let k = ledger_of n tx.tx_hash in
    let k_lt = ledger_of-lt n tx.tx_hash p in
    let (actions, run, a) =
      append_at-Added (applied n) c.actions_per_ledger k tx (omega arith) (λ i. rw e refl) in
    elim (Bool-cases (is_br tx)) [
      | inl recycled ↦
          let c' : Classified = record c { actions_per_ledger = actions } in
          (
            c',
            rw (get_ledger_hash_by_id-eq n tx.tx_hash p) (rw run (rw recycled refl)),
            (
              rw e (sym (append-nil c.normal_txs)),
              Added-none (listed n) c.block_per_ledger tx (λ i. rw recycled refl),
              a,
            ),
          )
      | inr other ↦
          let (blocks, run', b) =
            append_at-Added (listed n) c.block_per_ledger k tx (omega arith)
              (λ i. rw other (rw e refl)) in
          let c' : Classified = record c {
            block_per_ledger = blocks;
            actions_per_ledger = actions;
          } in
          (
            c',
            rw (get_ledger_hash_by_id-eq n tx.tx_hash p) (rw run (rw other (rw run' refl))),
            (rw e (sym (append-nil c.normal_txs)), b, a),
          )
    ]

classify_tx-sorts :
    (n : ℕ) (c : Classified) (tx : BanknoteTx)
    → 0 < n
    → length c.block_per_ledger ≡ n
    → length c.actions_per_ledger ≡ n
    → Returns (classify_tx n c tx) (λ c'. Sorted n c c' (tx ∷ []))
unfolding classify_tx
classify_tx-sorts n c tx p bl al = elim (Bool-cases (is_nt tx)) [
  | inl e ↦
      let c' : Classified = record c { normal_txs = c.normal_txs ++ tx ∷ [] } in
      (
        c',
        rw e refl,
        (
          rw e refl,
          Added-none (listed n) c.block_per_ledger tx (λ i. rw e (and-false (not (is_br tx)))),
          Added-none (applied n) c.actions_per_ledger tx (λ i. rw e refl),
        ),
      )
  | inr e ↦ let (c', run, s) = classify_peripheral-sorts n c tx p bl al e in (c', rw e run, s)
]

classify_loop-sorts :
    (n : ℕ) (c : Classified) (txs : List BanknoteTx)
    → 0 < n
    → length c.block_per_ledger ≡ n
    → length c.actions_per_ledger ≡ n
    → Returns (classify_loop n c txs) (λ c'. Sorted n c c' txs)
unfolding classify_loop
classify_loop-sorts n c [] p bl al = (
  c,
  refl,
  (
    sym (append-nil c.normal_txs),
    Added-nil (listed n) c.block_per_ledger,
    Added-nil (applied n) c.actions_per_ledger,
  ),
)
classify_loop-sorts n c (tx ∷ txs) p bl al =
    let (c₁, run₁, (nt₁, b₁, a₁)) = classify_tx-sorts n c tx p bl al in
    let (c₂, run₂, (nt₂, b₂, a₂)) = classify_loop-sorts n c₁ txs p (b₁.0 ∙ bl) (a₁.0 ∙ al) in
    (
      c₂,
      rw run₁ run₂,
      (
        nt₂
            ∙ ap (λ l. l ++ keep is_nt txs) nt₁
            ∙ append_assoc c.normal_txs (keep is_nt (tx ∷ [])) (keep is_nt txs)
            ∙ ap (λ r. c.normal_txs ++ r) (sym (keep-append is_nt (tx ∷ []) txs)),
        Added-trans (listed n) c.block_per_ledger c₁.block_per_ledger c₂.block_per_ledger tx txs b₁
            b₂,
        Added-trans (applied n) c.actions_per_ledger c₁.actions_per_ledger c₂.actions_per_ledger tx
            txs a₁ a₂,
      ),
    )

-- With at least one ledger the classification returns. The normal transactions are those of type
-- NT. Ledger `i` applies the other transactions whose hash belongs to it, and lists those of them
-- that are not of type BR. All keep the order in which they came, and there is a list for
-- each ledger.
pub classify-sorts :
    (n : ℕ) (txs : List BanknoteTx)
    → 0 < n
    → Returns (classify n txs) (λ c.
      (c.normal_txs ≡ keep is_nt txs)
      × (length c.block_per_ledger ≡ n)
      × (length c.actions_per_ledger ≡ n)
      × ((i : ℕ)
          → i < n
          → (get_elem? c.block_per_ledger i ≡ some (keep (listed n i) txs))
            × (get_elem? c.actions_per_ledger i ≡ some (keep (applied n i) txs))))
unfolding classify
classify-sorts n txs p =
    let start : Classified = record {
      normal_txs = [];
      block_per_ledger = replicate n [];
      actions_per_ledger = replicate n [];
    } in
    let (c, run, (normal, b, a)) =
      classify_loop-sorts n start txs p (length-replicate n []) (length-replicate n []) in
    (
      c,
      run,
      (
        normal,
        b.0 ∙ length-replicate n [],
        a.0 ∙ length-replicate n [],
        λ i h. (b.1 i [] (get_elem?-replicate n i [] h), a.1 i [] (get_elem?-replicate n i [] h)),
      ),
    )
