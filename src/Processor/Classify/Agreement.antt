-- ===== src/Processor/Classify/Agreement.antt =====
-- `ProcessBanknoteTxs` on a leader and on a peer that takes the transactions from the leader's block.
use banknote_chain.Base.{List, some, none, Perm, Bool, true, false}
use banknote_chain.Config.{Config}
use banknote_chain.Pool.Refinement.{Notes}
use banknote_chain.Tx.{BanknoteTx}
use mathlib.Core.List.Perm

abbrev pub has_amount : BanknoteTx → Bool
has_amount tx = elim tx.amount [ none ↦ false | some _ ↦ true ]
