-- ===== src/Examples/Ledgers/Agreement.antt =====
-- A leader and a peer of the small chain, with different orders of everything.
use mathlib.Core.List.Perm
use mathlib.Core.List.{reverse}
use banknote_chain.Base.{List, [], ◌∷◌, ◌++◌}
use banknote_chain.Base.Int.{pos}
use banknote_chain.Examples.Ledgers.Inputs.{paid, tx_of}
use banknote_chain.Processor.Peripheral.{Phases}
use banknote_chain.Tx.{BanknoteTx, bg, bt}

-- Makings and a transfer, in ledgers 0 and 1.
abbrev sent_txs : List BanknoteTx
sent_txs =
    paid
    ++ (tx_of bg 20 1 0 70 (pos 9) ∷ tx_of bg 22 1 0 71 (pos 4) ∷ tx_of bt 21 1 3 70 (pos 9) ∷ [])

abbrev backwards : Phases → Phases
backwards p = record {
  bg_txs = reverse p.bg_txs;
  bs_txs = reverse p.bs_txs;
  bt_txs = reverse p.bt_txs;
  br_txs = reverse p.br_txs;
}
