-- ===== src/Transaction.antt =====
-- core/transaction.go: a transaction between accounts, outside the banknote chain.
use banknote_chain.Base.{ℕ, [], Option}
use banknote_chain.Base.Int.{ℤ}
use banknote_chain.Base.Go.{Hash, Address, Bytes, Gob}
use banknote_chain.Base.Outcome.{Outcome, log_panic, require}

-- `time` counts from Go's zero time.
pub record Transaction : Type 0 where
  pub sender : Address
  pub recipient : Address
  pub nonce : ℕ
  pub value : Option ℤ
  pub tx_hash : Hash
  pub time : ℕ
  pub sig : Bytes

-- `Encode` and `DecodeTx`
abbrev pub encode_tx : Gob Transaction → Transaction → Outcome Bytes
encode_tx gt tx = require log_panic (gt.gob_encode tx)

abbrev pub decode_tx : Gob Transaction → Bytes → Outcome Transaction
decode_tx gt b = require log_panic (gt.gob_decode b)

abbrev pub new_transaction : Address → Address → ℕ → Option ℤ → Hash → ℕ → Transaction
new_transaction sender recipient nonce value tx_hash time = record {
  sender = sender;
  recipient = recipient;
  nonce = nonce;
  value = value;
  tx_hash = tx_hash;
  time = time;
  sig = [];
}
