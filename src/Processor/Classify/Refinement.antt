-- ===== src/Processor/Classify/Refinement.antt =====
-- `ProcessBanknoteTxs` as a whole: every ledger applies its transactions, and the block shows them.
use banknote_chain.Base.{
  ℕ, zero, suc, ◌<◌, ◌≤◌, ◌≡◌, refl, true, sym, ap, ◌∙◌, subst, List, [], ◌∷◌, map, All, get_elem?,
  some, length, keep, arith,
}
use banknote_chain.Base.Go.{Hash, Address, Bytes, Gob, IsGob, TrieLib, IsTrieLib}
use banknote_chain.Base.Int.{ℤ}
use banknote_chain.Base.Outcome.{ok, Returns}
use banknote_chain.Account.{AccountState}
use banknote_chain.Config.{Config}
use banknote_chain.Ledger.Spec.{Payment, settle_all}
use banknote_chain.Ledger.View.{Accounts}
use banknote_chain.Pool.Refinement.{Notes, Holds}
use banknote_chain.Processor.Concurrent.{run_ledgers, take_all}
use banknote_chain.Processor.Concurrent.Ledgers.{
  from, get_elem?-map_from, length-map_from, All-map_from, map-map, write_ledgers-Reads,
}
pub use banknote_chain.Processor.Concurrent.Ledgers.{Books}
use banknote_chain.Processor.Concurrent.Refinement.{after_turns, ledgers-Holds, take_all-fits}
use banknote_chain.Processor.Classify.{process_banknote_txs, is_nt}
use banknote_chain.Processor.Classify.Laws.{applied, listed, classify-sorts}
use banknote_chain.Processor.Classify.Replay.{list_ext, length-map_sort, seal_block-lists}
use banknote_chain.Processor.CoreLedger.Refinement.{Pays, CoreReads, process_core_ledger_tx-refines}
use banknote_chain.Processor.Peripheral.{Phases, fill_channels, fits}
use banknote_chain.Processor.Peripheral.Notes.{Keyed}
use banknote_chain.Processor.Peripheral.Refinement.{HasAmount}
use banknote_chain.Processor.Peripheral.Whole.{sent, sent_amounts}
use banknote_chain.Processor.StateTrie.{ModifySet}
use banknote_chain.Processor.StateTrie.Refinement.{IsRange, netted}
use banknote_chain.State.{BanknoteChainState}
use banknote_chain.State.Genesis.{PeripheralReads}
use banknote_chain.Tx.{BanknoteTx}
use banknote_chain.Tx.Sort.{sort_banknote_txs}

abbrev pub HaveAllAmounts : Phases → Type 0
HaveAllAmounts p = All HasAmount p.bg_txs × All HasAmount p.bt_txs × All HasAmount p.br_txs

pub get_elem?-map_sort :
    (ls : List (List BanknoteTx)) (i : ℕ) (l : List BanknoteTx)
    → get_elem? ls i ≡ some l
    → get_elem? (map sort_banknote_txs ls) i ≡ some (sort_banknote_txs l)
get_elem?-map_sort [] i l e = cc
get_elem?-map_sort (x ∷ xs) zero l e =
    let same : x ≡ l = cc in ap (λ z. some (sort_banknote_txs z)) same
get_elem?-map_sort (x ∷ xs) (suc i) l e = get_elem?-map_sort xs i l e

-- Every peripheral ledger opens with its accounts.
abbrev pub AllRead :
    (T : TrieLib) → Gob AccountState → Config → BanknoteChainState T → Books → Type 0
AllRead T g config s f =
    (i : ℕ)
    → i < config.banknote_chain_pledger_number
    → PeripheralReads T g config.init_balance i s (f i)

-- The transactions of ledger `i`, in the order in which its workers take them.
abbrev pub phases_of : (Phases → Phases) → Config → List BanknoteTx → ℕ → Phases
phases_of schedule config txs i =
    schedule (fill_channels (keep (applied config.banknote_chain_pledger_number i) txs))

module _ {T : TrieLib} {g : Gob AccountState} (lawful : IsTrieLib T) (codec : IsGob g) where
  module _ (range_order : ModifySet → List (Address × ℤ)) (range : IsRange range_order)
      (schedule : Phases → Phases) (config : Config)
      (some_ledger : 0 < config.banknote_chain_pledger_number) (lists : ℕ → List BanknoteTx)
      (amounts : (i : ℕ)
        → i < config.banknote_chain_pledger_number
        → HaveAllAmounts (schedule (fill_channels (lists i))))
      (places : (i : ℕ)
        → i < config.banknote_chain_pledger_number
        → fits config (fill_channels (lists i)) ≡ true) where
    abbrev phases_at : ℕ → Phases
    phases_at i = schedule (fill_channels (lists i))

    run_ledgers-Reads :
        (turns : List ℕ) (s : BanknoteChainState T) (f : Books) (notes : Notes)
        → AllRead T g config s f
        → Holds s.active_banknotes_pool notes
        → Keyed notes
        → Returns
            (run_ledgers T g range_order schedule turns
              (map lists (from 0 config.banknote_chain_pledger_number))
              s
              config)
            λ s'.
              AllRead T g config s' (λ i. netted (f i) (sent (phases_at i)))
              × Holds s'.active_banknotes_pool (
                  after_turns config turns
                    (map phases_at (from 0 config.banknote_chain_pledger_number))
                    notes)
              × (s'.cledger_state_root ≡ s.cledger_state_root)
              × (get_elem? s'.triedbs 0 ≡ get_elem? s.triedbs 0)
              × (length s'.pledger_state_roots ≡ length s.pledger_state_roots)
    unfolding run_ledgers
    run_ledgers-Reads turns s f notes reads held keyed =
        let n = config.banknote_chain_pledger_number in
        let ps = map phases_at (from 0 n) in
        let taken : take_all config schedule (map lists (from 0 n)) ≡ ok ps =
          take_all-fits config schedule (map lists (from 0 n)) (
            All-map_from (λ txs. fits config (fill_channels txs) ≡ true) lists n n 0 (omega arith)
              places)
          ∙ ap ok (map-map (λ txs. schedule (fill_channels txs)) lists (from 0 n)) in
        let (r, run, ((records, bp), run', (same, held'))) =
          ledgers-Holds config some_ledger turns ps s.active_banknotes_pool notes
            (All-map_from (λ p. All HasAmount p.bt_txs) phases_at n n 0 (omega arith)
              (λ i h. (amounts i h).1))
            held keyed in
        let shown : map (λ i. sent (phases_at i)) (from 0 n) ≡ records =
          sym (same ∙ map-map sent phases_at (from 0 n)) in
        let s₁ : BanknoteChainState T = record s { active_banknotes_pool = bp } in
        let (s', run'', (reads', core, pool, db, len)) =
          write_ledgers-Reads lawful codec range_order range config n (λ i. sent (phases_at i))
            (λ i h.
              sent_amounts (phases_at i).bg_txs (phases_at i).br_txs (amounts i h).0
                (amounts i h).2)
            f s₁ reads in
        (
          s',
          rw (taken, run, run', ← shown) run'',
          (
            reads',
            subst (λ z. Holds z (after_turns config turns ps notes)) (sym pool) held',
            core,
            db,
            len,
          ),
        )

  pub process_banknote_txs-refines :
      (range_order : ModifySet → List (Address × ℤ))
      → IsRange range_order
      → (schedule : Phases → Phases) (keccak256 : Bytes → Hash) (turns : List ℕ)
        (txs : List BanknoteTx) (s : BanknoteChainState T) (config : Config) (number : ℕ)
        (f : Accounts) (ps : List Payment) (books : Books) (notes : Notes)
      → 0 < config.banknote_chain_pledger_number
      → config.banknote_chain_pledger_number ≤ length s.pledger_state_roots
      → CoreReads T g config.init_balance s f
      → Pays (keep is_nt txs) ps
      → AllRead T g config s books
      → Holds s.active_banknotes_pool notes
      → Keyed notes
      → ((i : ℕ)
          → i < config.banknote_chain_pledger_number
          → HaveAllAmounts (phases_of schedule config txs i))
      → ((i : ℕ)
          → i < config.banknote_chain_pledger_number
          → fits config (fill_channels (keep (applied config.banknote_chain_pledger_number i) txs))
            ≡ true)
      → Returns
          (process_banknote_txs T g range_order schedule keccak256 turns txs s config number)
          λ r.
            CoreReads T g config.init_balance r.1 (settle_all f ps)
            × AllRead T g config r.1
                (λ i. netted (books i) (sent (phases_of schedule config txs i)))
            × Holds r.1.active_banknotes_pool (
                after_turns config turns
                  (map
                    (phases_of schedule config txs)
                    (from 0 config.banknote_chain_pledger_number))
                  notes)
            × (r.0.c_ledger ≡ keep is_nt txs)
            × (length r.0.p_ledgers ≡ config.banknote_chain_pledger_number)
            × ((i : ℕ)
                → i < config.banknote_chain_pledger_number
                → get_elem? r.0.p_ledgers i
                  ≡ some (
                      sort_banknote_txs (keep (listed config.banknote_chain_pledger_number i) txs)))
  unfolding process_banknote_txs
  process_banknote_txs-refines range_order range schedule keccak256 turns txs s config number f ps
        books notes p roots core pays reads held keyed amounts places =
      let n = config.banknote_chain_pledger_number in
      let (c, sorted, (normal, bl, al, lists)) = classify-sorts n txs p in
      let (r, paid, (core', same_roots, same_pool, _, same_dbs)) =
        process_core_ledger_tx-refines lawful codec s config f c.normal_txs ps core
          (subst (λ l. Pays l ps) (sym normal) pays) in
      let reads' : AllRead T g config r.state books = λ i h.
        let (root, db, t, at_root, at_db, opens, rest) = reads i h in
        (
          root,
          db,
          t,
          ap (λ l. get_elem? l i) same_roots ∙ at_root,
          same_dbs i ∙ at_db,
          opens,
          rest,
        ) in
      let own : ℕ → List BanknoteTx = λ i. keep (applied n i) txs in
      let all_own : c.actions_per_ledger ≡ map own (from 0 n) =
        list_ext c.actions_per_ledger (map own (from 0 n)) (al ∙ sym (length-map_from own n 0))
          (λ i h.
            let lt : i < n = subst (λ k. i < k) (length-map_from own n 0) h in
            (lists i lt).1
            ∙ ap (λ k. some (own k)) (omega arith)
            ∙ sym (get_elem?-map_from own n 0 i lt)) in
      let (s', run, (reads₁, held₁, root₁, core₁, len₁)) =
        run_ledgers-Reads range_order range schedule config p own amounts places turns r.state books
          notes reads' (subst (λ bp. Holds bp notes) (sym same_pool) held) keyed in
      let ran : run_ledgers T g range_order schedule turns c.actions_per_ledger r.state config
          ≡ ok s' =
        ap (λ ls. run_ledgers T g range_order schedule turns ls r.state config) all_own ∙ run in
      let (b, sealed, (cl, pl)) =
        seal_block-lists keccak256 n number c s'.cledger_state_root s'.pledger_state_roots bl
          (subst (λ k. n ≤ k) (sym (len₁ ∙ ap length same_roots)) roots) in
      let (db, t, at_db, opens, accounts) = core' in
      (
        (b, s'),
        rw (sorted, paid, ran, sealed) refl,
        (
          (db, t, core₁ ∙ at_db, ap (λ z. T.new_trie z db) root₁ ∙ opens, accounts),
          reads₁,
          held₁,
          cl ∙ normal,
          ap length pl ∙ length-map_sort c.block_per_ledger ∙ bl,
          λ i h.
              ap (λ l. get_elem? l i) pl
              ∙ get_elem?-map_sort c.block_per_ledger i (keep (listed n i) txs) (lists i h).0,
        ),
      )
