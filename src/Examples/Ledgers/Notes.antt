-- ===== src/Examples/Ledgers/Notes.antt =====
-- The active banknotes at concrete inputs.
use banknote_chain.Base.{refl, none, some, ◌++◌, ◌≡◌, arith, map, All}
use banknote_chain.Base.Int.{pos}
use banknote_chain.Base.Outcome.{ok, Returns}
use banknote_chain.Banknote.{Banknote}
use banknote_chain.Examples.Ledgers.Inputs.{two_ledgers, no_notes, no_notes-Holds, noted}
use banknote_chain.Pool.{new_active_banknote_pool, get_banknote}
use banknote_chain.Pool.Refinement.{Notes, Holds, new_active_banknote_pool-Holds}
use banknote_chain.Processor.Peripheral.{Phases, fill_channels, run_phases}
use banknote_chain.Processor.Peripheral.Notes.{
  Keyed, all_notes, all_noted, bg_notes, bs_notes, missing_source, after_phases,
}
use banknote_chain.Processor.Peripheral.Recycling.{run_phases-recycles}
use banknote_chain.Processor.Peripheral.Refinement.{HasAmount, run_phases-refines}
use banknote_chain.Processor.Peripheral.Steps.{bg_record, br_record}

abbrev empty : Notes
empty h = none

empty-Keyed : Keyed empty
empty-Keyed h b e = cc

abbrev five : Banknote
five = record {
  banknote_hash = 40;
  value = some (pos 5);
  owner = 1;
  ledger_id = 0;
  turn_over_count = 0;
}

new_active_banknote_pool-Holds_example : Holds (new_active_banknote_pool 2) (λ _. none)
new_active_banknote_pool-Holds_example = new_active_banknote_pool-Holds 2 (omega arith)

abbrev phases : Phases
unfolding fill_channels
phases = fill_channels noted

amounts : All HasAmount phases.bt_txs
unfolding phases fill_channels
amounts = ((pos 9, refl), tt)

run_phases-refines_example : Returns (run_phases two_ledgers phases no_notes) λ w.
    Holds w.pool (after_phases two_ledgers phases empty)
    × (w.account_modifies ≡ map bg_record phases.bg_txs ++ map br_record phases.br_txs)
run_phases-refines_example =
    run_phases-refines two_ledgers (omega arith) phases no_notes empty amounts no_notes-Holds
      empty-Keyed

run_phases-recycles_example : Returns (run_phases two_ledgers phases no_notes) λ w.
    All (λ tx. get_banknote w.pool tx.banknote_hash ≡ ok none) phases.br_txs
    × All
        (λ h. get_banknote w.pool h ≡ ok none)
        (all_noted
          (bs_notes two_ledgers)
          (missing_source two_ledgers)
          phases.bs_txs
          (all_notes (bg_notes two_ledgers) phases.bg_txs empty))
run_phases-recycles_example =
    run_phases-recycles two_ledgers (omega arith) phases no_notes empty amounts no_notes-Holds
      empty-Keyed
