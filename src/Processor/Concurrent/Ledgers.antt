-- ===== src/Processor/Concurrent/Ledgers.antt =====
-- The state tries of all ledgers of a block, and their work as a whole.
use banknote_chain.Base.{
  some, ℕ, zero, suc, ◌<◌, ◌+◌, ◌≡◌, ◌≢◌, refl, sym, ap, ◌∙◌, subst, List, [], ◌∷◌, map, All,
  get_elem?, length, ◌==◌, ==_iff, ltb, lt→ltb, false, Bool-cases, inl, inr, if◌then◌else◌, arith,
}
use banknote_chain.Base.Go.{Address, Gob, IsGob, TrieLib, IsTrieLib}
use banknote_chain.Base.Int.{ℤ}
use banknote_chain.Base.Outcome.{Returns}
use banknote_chain.Account.{AccountState}
use banknote_chain.Config.{Config}
use banknote_chain.Ledger.View.{Accounts}
use banknote_chain.Processor.Concurrent.{write_ledgers}
use banknote_chain.Processor.StateTrie.{AccountModify, ModifySet}
use banknote_chain.Processor.StateTrie.Netting.{HaveAmounts}
use banknote_chain.Processor.StateTrie.Refinement.{
  IsRange, OthersKept, netted, process_peripheral_ledger_tx_state_trie-refines,
}
use banknote_chain.State.{BanknoteChainState}
use banknote_chain.State.Genesis.{PeripheralReads}

-- `m` numbers in a row.
abbrev pub from : ℕ → ℕ → List ℕ
from i zero = []
from i (suc m) = i ∷ from (suc i) m

pub get_elem?-map_from :
    {A : Type 0} (h : ℕ → A) (m i j : ℕ) → j < m → get_elem? (map h (from i m)) j ≡ some (h (i + j))
get_elem?-map_from h zero i j lt = absurd (omega arith)
get_elem?-map_from h (suc m) i zero lt = ap (λ k. some (h k)) (omega arith)
get_elem?-map_from h (suc m) i (suc j) lt =
    get_elem?-map_from h m (suc i) j (omega arith) ∙ ap (λ k. some (h k)) (omega arith)

pub length-map_from : {A : Type 0} (h : ℕ → A) (m i : ℕ) → length (map h (from i m)) ≡ m
length-map_from h zero i = refl
length-map_from h (suc m) i = ap suc (length-map_from h m (suc i))

pub All-map_from :
    {A : Type 0} (P : A → Type 0) (h : ℕ → A) (n m i : ℕ)
    → i + m ≡ n
    → ((j : ℕ) → j < n → P (h j))
    → All P (map h (from i m))
All-map_from P h n zero i e k = tt
All-map_from P h n (suc m) i e k = (k i (omega arith), All-map_from P h n m (suc i) (omega arith) k)

pub map-map :
    {A B C : Type 0} (k : B → C) (h : A → B) (xs : List A)
    → map k (map h xs) ≡ map (λ x. k (h x)) xs
map-map k h [] = refl
map-map k h (x ∷ xs) = ap (λ r. k (h x) ∷ r) (map-map k h xs)

-- The accounts of each peripheral ledger.
abbrev pub Books : Type 0
Books = ℕ → Accounts

-- The accounts when the ledgers below `i` are written.
abbrev written : (ℕ → List AccountModify) → Books → ℕ → Books
written rs f i j = if ltb j i then netted (f j) (rs j) else f j

written_below :
    (rs : ℕ → List AccountModify) (f : Books) (i j : ℕ)
    → j < i
    → written rs f i j ≡ netted (f j) (rs j)
written_below rs f i j h = rw (lt→ltb j i h) refl

written_above :
    (rs : ℕ → List AccountModify) (f : Books) (i j : ℕ) → ltb j i ≡ false → written rs f i j ≡ f j
written_above rs f i j h = rw h refl

written_other :
    (rs : ℕ → List AccountModify) (f : Books) (i j : ℕ)
    → i ≢ j
    → written rs f i j ≡ written rs f (suc i) j
written_other rs f i j h = let same : ltb j i ≡ ltb j (suc i) = ground arith in rw same refl

module _ {T : TrieLib} {g : Gob AccountState} (lawful : IsTrieLib T) (codec : IsGob g) where
  -- A ledger that another one's work left alone.
  PeripheralReads-kept :
      (b : ℤ) (i j : ℕ) (s s' : BanknoteChainState T) (f : Accounts)
      → i ≢ j
      → OthersKept T i s s'
      → PeripheralReads T g b j s f
      → PeripheralReads T g b j s' f
  PeripheralReads-kept b i j s s' f n (len, core, others)
        (root, db, t, at_root, at_db, opens, reads) =
      (root, db, t, (others j n).0 ∙ at_root, (others j n).1 ∙ at_db, opens, reads)

  module _ (range_order : ModifySet → List (Address × ℤ)) (range : IsRange range_order)
      (config : Config) (n : ℕ) (rs : ℕ → List AccountModify)
      (amounts : (i : ℕ) → i < n → HaveAmounts (rs i)) (f : Books) where
    abbrev ReadsFrom : ℕ → BanknoteChainState T → Type 0
    ReadsFrom i s = (j : ℕ) → j < n → PeripheralReads T g config.init_balance j s (written rs f i j)

    write_from-Reads :
        (m i : ℕ) (s : BanknoteChainState T)
        → i + m ≡ n
        → ReadsFrom i s
        → Returns (write_ledgers T g range_order i (map rs (from i m)) s config) λ s'.
          ReadsFrom n s'
          × (s'.cledger_state_root ≡ s.cledger_state_root)
          × (s'.active_banknotes_pool ≡ s.active_banknotes_pool)
          × (get_elem? s'.triedbs 0 ≡ get_elem? s.triedbs 0)
          × (length s'.pledger_state_roots ≡ length s.pledger_state_roots)
    unfolding write_ledgers
    write_from-Reads zero i s e reads =
        let whole : i ≡ n = omega arith in
        (s, refl, (subst (λ k. ReadsFrom k s) whole reads, refl, refl, refl, refl))
    write_from-Reads (suc m) i s e reads =
        let h : i < n = omega arith in
        let (root, db, t, at_root, at_db, opens, own) = reads i h in
        let (
          s₁,
          run,
          (root', db', t', at_root', at_db', opens', own', same_core, same_pool, others),
        ) =
          process_peripheral_ledger_tx_state_trie-refines lawful codec range_order range i root t db
            (rs i) s config (written rs f i i) opens own (amounts i h) at_root at_db in
        let here : netted (written rs f i i) (rs i) ≡ written rs f (suc i) i =
          ap (λ a. netted a (rs i)) (written_above rs f i i (ground arith))
          ∙ sym (written_below rs f (suc i) i (omega arith)) in
        let reads₁ : ReadsFrom (suc i) s₁ = λ j lt. elim (Bool-cases (i == j)) [
          | inl same ↦
              subst (λ k. PeripheralReads T g config.init_balance k s₁ (written rs f (suc i) k))
                ((==_iff i j).0 same)
                (subst (PeripheralReads T g config.init_balance i s₁) here
                  (root', db', t', at_root', at_db', opens', own'))
          | inr other ↦
              let apart : i ≢ j = ground arith in
              subst (PeripheralReads T g config.init_balance j s₁) (written_other rs f i j apart) (
                PeripheralReads-kept config.init_balance i j s s₁ (written rs f i j) apart others
                  (reads j lt))
        ] in
        let (s₂, run', (reads₂, core₂, pool₂, db₂, len₂)) =
          write_from-Reads m (suc i) s₁ (omega arith) reads₁ in
        (
          s₂,
          rw (at_root, at_db, opens, run) run',
          (reads₂, core₂ ∙ same_core, pool₂ ∙ same_pool, db₂ ∙ others.1, len₂ ∙ others.0),
        )

    pub write_ledgers-Reads :
        (s : BanknoteChainState T)
        → ((j : ℕ) → j < n → PeripheralReads T g config.init_balance j s (f j))
        → Returns (write_ledgers T g range_order 0 (map rs (from 0 n)) s config) λ s'.
          ((j : ℕ) → j < n → PeripheralReads T g config.init_balance j s' (netted (f j) (rs j)))
          × (s'.cledger_state_root ≡ s.cledger_state_root)
          × (s'.active_banknotes_pool ≡ s.active_banknotes_pool)
          × (get_elem? s'.triedbs 0 ≡ get_elem? s.triedbs 0)
          × (length s'.pledger_state_roots ≡ length s.pledger_state_roots)
    write_ledgers-Reads s reads =
        let (s', run, (reads', core, pool, dbs, len)) = write_from-Reads n 0 s (omega arith) (λ j h.
          subst (PeripheralReads T g config.init_balance j s)
            (sym (written_above rs f 0 j (ground arith))) (reads j h)) in
        (
          s',
          run,
          (
            λ j h.
                subst (PeripheralReads T g config.init_balance j s') (written_below rs f n j h)
                  (reads' j h),
            core,
            pool,
            dbs,
            len,
          ),
        )
