-- ===== src/Examples/Ledgers/Accounts.antt =====
-- The account ledgers at concrete inputs.
use banknote_chain.Base.{
  ℕ, refl, false, true, some, List, [], ◌∷◌, ◌≡◌, inl, inr, arith, get_elem?, suc, ◌⊎◌,
}
use banknote_chain.Base.Int.{pos, ◌+ℤ◌, ◌<ℤ◌, ◌≤ℤ◌}
use banknote_chain.Base.Outcome.{Returns}
use banknote_chain.Account.{deduct}
use banknote_chain.Account.Laws.{deduct_guard}
use banknote_chain.Examples.Codec.Instances.{account_gob, account_gob-IsGob}
use banknote_chain.Examples.Trie.{MapTrie, Entries, map_lib, map_lib-IsTrieLib}
use banknote_chain.Examples.Ledgers.Inputs.{
  two_ledgers, start, start_trie, start_accounts, start_trie-Reads, paid,
}
use banknote_chain.Ledger.{new_account}
use banknote_chain.Ledger.Spec.{Payment, settle_all, minted, total, Covers}
use banknote_chain.Ledger.View.{Accounts, Reads}
use banknote_chain.Processor.CoreLedger.{process_core_ledger_tx}
use banknote_chain.Processor.CoreLedger.Refinement.{
  CoreReads, process_core_ledger_tx-refines, process_core_ledger_tx-total,
}
use banknote_chain.Processor.StateTrie.{
  AccountModify, find, collect, process_peripheral_ledger_tx_state_trie,
}
use banknote_chain.Processor.StateTrie.Netting.{Distinct, shifted, touched, net, collect-net}
use banknote_chain.Processor.StateTrie.Refinement.{
  IsRange, OthersKept, netted, process_peripheral_ledger_tx_state_trie-refines,
}

abbrev payments : List Payment
payments =
    record { source = 1; target = 2; amount = pos 30 }
    ∷ record { source = 2; target = 3; amount = pos 500 }
    ∷ []

start-CoreReads : CoreReads map_lib account_gob (pos 100) start start_accounts
start-CoreReads = ([], start_trie, refl, refl, start_trie-Reads)

process_core_ledger_tx-refines_example :
    Returns (process_core_ledger_tx map_lib account_gob paid start two_ledgers) λ r.
      CoreReads map_lib account_gob (pos 100) r.state (settle_all start_accounts payments)
      × (r.state.pledger_state_roots ≡ start.pledger_state_roots)
      × (r.state.active_banknotes_pool ≡ start.active_banknotes_pool)
      × (r.root ≡ r.state.cledger_state_root)
      × ((j : ℕ) → get_elem? r.state.triedbs (suc j) ≡ get_elem? start.triedbs (suc j))
process_core_ledger_tx-refines_example =
    process_core_ledger_tx-refines map_lib-IsTrieLib account_gob-IsGob start two_ledgers
      start_accounts paid payments start-CoreReads (refl, refl, refl, (refl, refl, refl, tt))

counted : Covers (1 ∷ 2 ∷ 3 ∷ []) payments
counted = (
  inl (refl, (omega arith, (omega arith, tt))),
  inr (omega arith, inl (refl, (omega arith, tt))),
  (
    inr (omega arith, inl (refl, (omega arith, tt))),
    inr (omega arith, inr (omega arith, inl (refl, tt))),
    tt,
  ),
)

process_core_ledger_tx-total_example :
    Returns (process_core_ledger_tx map_lib account_gob paid start two_ledgers) λ r.
      (f' : Accounts) × CoreReads map_lib account_gob (pos 100) r.state f'
      × (total (1 ∷ 2 ∷ 3 ∷ []) f'
          ≡ total (1 ∷ 2 ∷ 3 ∷ []) start_accounts +ℤ minted start_accounts payments)
process_core_ledger_tx-total_example =
    process_core_ledger_tx-total map_lib-IsTrieLib account_gob-IsGob start two_ledgers
      start_accounts paid payments (1 ∷ 2 ∷ 3 ∷ []) start-CoreReads
      (refl, refl, refl, (refl, refl, refl, tt)) counted

-- Two records, of which the second sends back a part of the first.
abbrev records : List AccountModify
records =
    record { from = 1; to = 2; amount = some (pos 30) }
    ∷ record { from = 2; to = 1; amount = some (pos 10) }
    ∷ []

collect-net_example : Returns (collect records []) λ m'.
    Distinct m' × ((a : ℕ) → find a m' ≡ shifted (find a []) (touched a records) (net a records))
collect-net_example = collect-net records [] ((pos 30, refl), ((pos 10, refl), tt)) tt

in_order-IsRange : IsRange (λ m. m)
in_order-IsRange = record { once = λ m d. d; same = λ m a. refl }

process_peripheral_ledger_tx_state_trie-refines_example :
    Returns
      (process_peripheral_ledger_tx_state_trie map_lib account_gob
        (λ m. m)
        0
        start_trie
        []
        records
        start
        two_ledgers)
      λ s'.
        (root' : ℕ) × (db' : List Entries) × (t' : MapTrie) × (get_elem? s'.pledger_state_roots 0
          ≡ some root')
        × (get_elem? s'.triedbs 1 ≡ some db')
        × (map_lib.new_trie root' db' ≡ some t')
        × Reads map_lib account_gob (pos 100) t' (netted start_accounts records)
        × (s'.cledger_state_root ≡ start.cledger_state_root)
        × (s'.active_banknotes_pool ≡ start.active_banknotes_pool)
        × OthersKept map_lib 0 start s'
process_peripheral_ledger_tx_state_trie-refines_example =
    process_peripheral_ledger_tx_state_trie-refines map_lib-IsTrieLib account_gob-IsGob (λ m. m)
      in_order-IsRange 0 0 start_trie [] records start two_ledgers start_accounts refl
      start_trie-Reads ((pos 30, refl), ((pos 10, refl), tt)) refl refl

deduct_guard_example : Returns (deduct (new_account (pos 100)) (some (pos 100))) λ r.
    (pos 100 <ℤ pos 100
      × (r.1 ≡ true)
      × (r.0.balance +ℤ pos 100 ≡ pos 100)
      × (pos 0 <ℤ r.0.balance))
    ⊎ (pos 100 ≤ℤ pos 100 × (r.1 ≡ false) × (r.0 ≡ new_account (pos 100)))
deduct_guard_example = deduct_guard (new_account (pos 100)) (pos 100)
