-- ===== src/Tx.antt =====
-- banknoteChain/banknote_transaction.go: the transactions of the banknote chain, and the order in
-- which a peripheral ledger lists them.
pub mod Sort
use banknote_chain.Base.{Option, none, [], ◌∷◌}
use banknote_chain.Base.Int.{ℤ}
use banknote_chain.Base.Go.{Hash, Address, Bytes, Gob}
use banknote_chain.Base.Outcome.{Outcome, log_panic, require}

-- generate, transfer, recycle, split, and a normal transaction between accounts
pub data BanknoteTxType : Type 0 where
  bg bt br bs nt : BanknoteTxType

pub record BanknoteTx : Type 0 where
  pub tx_hash : Hash
  pub from : Address
  pub to : Address
  pub banknote_hash : Hash
  pub banknote_origin_id_in_csv : Bytes
  pub amount : Option ℤ
  pub banknote_tx_type : BanknoteTxType
  pub creator : Address
  pub banknote_hash1_new_for_split : Hash
  pub banknote_hash1_new_origin_id_in_csv : Bytes
  pub amount1_new_for_split : Option ℤ
  pub banknote_hash2_new_for_split : Hash
  pub banknote_hash2_new_origin_id_in_csv : Bytes
  pub amount2_new_for_split : Option ℤ

-- Go's zero value, whose type is BG.
abbrev pub zero_tx : BanknoteTx
zero_tx = record {
  tx_hash = 0;
  from = 0;
  to = 0;
  banknote_hash = 0;
  banknote_origin_id_in_csv = [];
  amount = none;
  banknote_tx_type = bg;
  creator = 0;
  banknote_hash1_new_for_split = 0;
  banknote_hash1_new_origin_id_in_csv = [];
  amount1_new_for_split = none;
  banknote_hash2_new_for_split = 0;
  banknote_hash2_new_origin_id_in_csv = [];
  amount2_new_for_split = none;
}

-- `Encode`
abbrev pub encode_banknote_tx : Gob BanknoteTx → BanknoteTx → Outcome Bytes
encode_banknote_tx gx tx = require log_panic (gx.gob_encode tx)
