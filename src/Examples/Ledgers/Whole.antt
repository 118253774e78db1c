-- ===== src/Examples/Ledgers/Whole.antt =====
-- The genesis state, and a whole peripheral ledger, at concrete inputs.
use banknote_chain.Base.{true, ℕ, refl, none, some, List, [], ◌∷◌, ◌≡◌, ◌<◌, arith, All, get_elem?}
use banknote_chain.Base.Int.{pos}
use banknote_chain.Base.Outcome.{Returns}
use banknote_chain.Examples.Codec.Instances.{account_gob, account_gob-IsGob}
use banknote_chain.Examples.Ledgers.Inputs.{
  two_ledgers, start, start_trie, start_accounts, start_trie-Reads, no_notes-Holds, noted,
}
use banknote_chain.Examples.Trie.{Entries, MapTrie, map_lib, map_lib-IsTrieLib}
use banknote_chain.Ledger.View.{Reads}
use banknote_chain.Pool.Refinement.{Holds}
use banknote_chain.Processor.Peripheral.{Phases, fill_channels, fits, process_peripheral_ledger_tx}
use banknote_chain.Processor.Peripheral.Notes.{after_phases}
use banknote_chain.Processor.Peripheral.Refinement.{HasAmount}
use banknote_chain.Processor.Peripheral.Whole.{sent, process_peripheral_ledger_tx-refines}
use banknote_chain.Processor.StateTrie.Refinement.{IsRange, OthersKept, netted}
use banknote_chain.State.{BanknoteChainState, new_banknote_chain_state_genisis}
use banknote_chain.State.Genesis.{
  untouched, PeripheralReads, new_banknote_chain_state_genisis-opens,
}

abbrev genesis : BanknoteChainState map_lib
unfolding new_banknote_chain_state_genisis
genesis = new_banknote_chain_state_genisis map_lib (λ _. []) two_ledgers 0

new_banknote_chain_state_genisis-opens_example :
    ((db : List Entries) × (t : MapTrie) × (get_elem? genesis.triedbs 0 ≡ some db)
      × (map_lib.new_trie genesis.cledger_state_root db ≡ some t)
      × Reads map_lib account_gob (pos 100) t (untouched (pos 100)))
    × ((i : ℕ)
        → i < 2
        → PeripheralReads map_lib account_gob (pos 100) i genesis (untouched (pos 100)))
    × Holds genesis.active_banknotes_pool (λ _. none)
unfolding genesis
new_banknote_chain_state_genisis-opens_example =
    new_banknote_chain_state_genisis-opens map_lib-IsTrieLib account_gob (λ _. []) two_ledgers 0
      (omega arith)

-- The last transaction of a phase is taken first.
abbrev flip : Phases → Phases
flip p = record p { bg_txs = elim p.bg_txs [ a ∷ b ∷ [] ↦ b ∷ a ∷ [] | l ↦ l ] }

abbrev phases : Phases
unfolding fill_channels
phases = flip (fill_channels noted)

bg_amounts : All HasAmount phases.bg_txs
unfolding phases
bg_amounts = ((pos 9, refl), ((pos 9, refl), tt))

bt_amounts : All HasAmount phases.bt_txs
unfolding phases
bt_amounts = ((pos 9, refl), tt)

br_amounts : All HasAmount phases.br_txs
unfolding phases
br_amounts = ((pos 9, refl), tt)

every_entry-IsRange : IsRange (λ m. m)
every_entry-IsRange = record { once = λ m d. d; same = λ m a. refl }

places : fits two_ledgers (fill_channels noted) ≡ true
unfolding fill_channels
places = refl

process_peripheral_ledger_tx-refines_example :
    Returns
      (process_peripheral_ledger_tx map_lib account_gob (λ m. m) flip 0 noted start two_ledgers)
      λ s'.
        PeripheralReads map_lib account_gob
          (pos 100)
          0
          s'
          (netted start_accounts (sent (flip (fill_channels noted))))
        × Holds s'.active_banknotes_pool
            (after_phases two_ledgers (flip (fill_channels noted)) (λ _. none))
        × (s'.cledger_state_root ≡ start.cledger_state_root)
        × OthersKept map_lib 0 start s'
unfolding phases
process_peripheral_ledger_tx-refines_example =
    process_peripheral_ledger_tx-refines map_lib-IsTrieLib account_gob-IsGob (λ m. m)
      every_entry-IsRange flip 0 noted start two_ledgers start_accounts (λ _. none) (omega arith)
      (0, [], start_trie, refl, refl, refl, start_trie-Reads) no_notes-Holds (λ h b e. cc)
      bg_amounts bt_amounts br_amounts places
