-- ===== src/Processor/Peripheral/Whole.antt =====
-- `ProcessPeripheralLedgerTx` as a whole: the phases on the pool, and then the state trie.
use banknote_chain.Base.{true, ℕ, ◌<◌, ◌≡◌, sym, subst, List, [], ◌∷◌, ◌++◌, map, All}
use banknote_chain.Base.Go.{Address, Gob, IsGob, TrieLib, IsTrieLib}
use banknote_chain.Base.Int.{ℤ}
use banknote_chain.Base.Outcome.{Returns}
use banknote_chain.Account.{AccountState}
use banknote_chain.Config.{Config}
use banknote_chain.Ledger.View.{Accounts, Reads}
use banknote_chain.Pool.Refinement.{Notes, Holds}
use banknote_chain.Processor.Peripheral.{
  Phases, fill_channels, fits, take_channels, process_peripheral_ledger_tx,
}
use banknote_chain.Processor.Peripheral.Notes.{Keyed, after_phases}
use banknote_chain.Processor.Peripheral.Refinement.{HasAmount, run_phases-refines}
use banknote_chain.Processor.Peripheral.Steps.{bg_record, br_record}
use banknote_chain.Processor.StateTrie.{AccountModify, ModifySet}
use banknote_chain.Processor.StateTrie.Netting.{HaveAmounts}
use banknote_chain.Processor.StateTrie.Refinement.{
  IsRange, OthersKept, netted, process_peripheral_ledger_tx_state_trie-refines,
}
use banknote_chain.State.{BanknoteChainState}
use banknote_chain.State.Genesis.{PeripheralReads}
use banknote_chain.Tx.{BanknoteTx}

-- What the phases send to the state trie: the payer of each banknote that is made, and the payee of
-- each that is recycled.
abbrev pub sent : Phases → List AccountModify
sent p = map bg_record p.bg_txs ++ map br_record p.br_txs

br_amounts : (txs : List BanknoteTx) → All HasAmount txs → HaveAmounts (map br_record txs)
br_amounts [] h = tt
br_amounts (tx ∷ txs) h = (h.0, br_amounts txs h.1)

pub sent_amounts :
    (xs ys : List BanknoteTx)
    → All HasAmount xs
    → All HasAmount ys
    → HaveAmounts (map bg_record xs ++ map br_record ys)
sent_amounts [] ys h k = br_amounts ys k
sent_amounts (tx ∷ xs) ys h k = (h.0, sent_amounts xs ys h.1 k)

module _ {T : TrieLib} {g : Gob AccountState} (lawful : IsTrieLib T) (codec : IsGob g) where
  -- On a ledger that opens, with an amount in every transaction that makes, moves or recycles a
  -- banknote, with at least as many places in a channel as the ledger has transactions of the types
  -- BS, BT and BR each, and while no other ledger works on the pool, the call does not fault, whatever the order in which the workers take the transactions
  -- of a phase and in which Go visits the map of changes. Then the ledger opens with the net changes
  -- of its makings and recyclings on its accounts, the pool holds what the four phases leave, and the
  -- core ledger and the other peripheral ledgers are as before.
  pub process_peripheral_ledger_tx-refines :
      (range_order : ModifySet → List (Address × ℤ))
      → IsRange range_order
      → (schedule : Phases → Phases) (i : ℕ) (txs : List BanknoteTx) (s : BanknoteChainState T)
        (config : Config) (f : Accounts) (notes : Notes)
      → 0 < config.banknote_chain_pledger_number
      → PeripheralReads T g config.init_balance i s f
      → Holds s.active_banknotes_pool notes
      → Keyed notes
      → All HasAmount (schedule (fill_channels txs)).bg_txs
      → All HasAmount (schedule (fill_channels txs)).bt_txs
      → All HasAmount (schedule (fill_channels txs)).br_txs
      → fits config (fill_channels txs) ≡ true
      → Returns (process_peripheral_ledger_tx T g range_order schedule i txs s config) λ s'.
        PeripheralReads T g config.init_balance i s'
          (netted f (sent (schedule (fill_channels txs))))
        × Holds s'.active_banknotes_pool (after_phases config (schedule (fill_channels txs)) notes)
        × (s'.cledger_state_root ≡ s.cledger_state_root)
        × OthersKept T i s s'
  unfolding process_peripheral_ledger_tx take_channels
  process_peripheral_ledger_tx-refines range_order range schedule i txs s config f notes n
        (root, db, t, at_root, at_db, opens, reads) held keyed bg_amounts bt_amounts
        recycled_amounts places =
      let p = schedule (fill_channels txs) in
      let (w, run, (holds, records)) =
        run_phases-refines config n p s.active_banknotes_pool notes bt_amounts held keyed in
      let amounts : HaveAmounts w.account_modifies =
        subst HaveAmounts (sym records)
          (sent_amounts p.bg_txs p.br_txs bg_amounts recycled_amounts) in
      let s₁ : BanknoteChainState T = record s { active_banknotes_pool = w.pool } in
      let (
        s',
        run',
        (root', db', t', at_root', at_db', opens', reads', same_core, same_pool, others),
      ) =
        process_peripheral_ledger_tx_state_trie-refines lawful codec range_order range i root t db
          w.account_modifies s₁ config f opens reads amounts at_root at_db in
      (
        s',
        rw (at_root, at_db, opens, places, run) run',
        (
          (
            root',
            db',
            t',
            at_root',
            at_db',
            opens',
            subst (λ rs. Reads T g config.init_balance t' (netted f rs)) records reads',
          ),
          subst (λ bp. Holds bp (after_phases config p notes)) (sym same_pool) holds,
          same_core,
          others,
        ),
      )
