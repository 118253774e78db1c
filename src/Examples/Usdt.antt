-- ===== src/Examples/Usdt.antt =====
-- The USDT reader on a file of one row.
use banknote_chain.Base.{true, false, refl, List, [], ◌∷◌, Option, none, some, length}
use banknote_chain.Base.Go.{Address, Bytes}
use banknote_chain.Base.Int.{ℤ, pos}
use banknote_chain.Generator.Usdt.{
  UsdtCsvEntity, Pipeline, new_pipeline, send_row, close_rows, convert, send_tx, close_txs,
  receive_from, usdt_tx, send_rows, close_csv, convert_row, send_converted, close_converted, work,
  Runs, here, works, gets,
}
use banknote_chain.Generator.Usdt.Progress.{WillAnswer, receive_tx-WillAnswer}
use banknote_chain.Generator.Usdt.Refinement.{Calls, yet, Runs-Calls}
use banknote_chain.Tx.{BanknoteTx}

abbrev address : Bytes → Address
address s = length s

abbrev zero_amount : Bytes → ℤ
zero_amount s = pos 0

-- The value is "12".
abbrev usdt_row : UsdtCsvEntity
usdt_row = record { from = 97 ∷ []; to = 98 ∷ 99 ∷ []; hash = []; value = 49 ∷ 50 ∷ [] }

abbrev paid : BanknoteTx
paid = usdt_tx address zero_amount usdt_row

abbrev drained : Pipeline
drained = record {
  csv_rows = [];
  csv_entity_chan = [];
  csv_entity_closed = true;
  in_hand = none;
  txs_chan = [];
  txs_closed = true;
}

abbrev Went : List (Option BanknoteTx) → Pipeline → Type 0
Went = Runs address zero_amount (new_pipeline (usdt_row ∷ []))

abbrev sent_on : Pipeline
sent_on = record drained { csv_entity_closed = false; txs_chan = paid ∷ []; txs_closed = false }

passes : Went [] sent_on
unfolding work send_rows convert_row send_converted
passes = works send_tx (works convert (works send_row here refl) refl) refl

drains : Went (some paid ∷ none ∷ []) drained
unfolding work close_csv close_converted receive_from
drains =
    gets none (works close_txs (works close_rows (gets (some paid) passes refl) refl) refl) refl

Runs-Calls_example : Calls (paid ∷ []) (some paid ∷ none ∷ []) (yet address zero_amount drained)
Runs-Calls_example =
    Runs-Calls address zero_amount (usdt_row ∷ []) (some paid ∷ none ∷ []) drained drains

receive_tx-WillAnswer_example : WillAnswer address zero_amount (new_pipeline (usdt_row ∷ []))
receive_tx-WillAnswer_example =
    receive_tx-WillAnswer address zero_amount (new_pipeline (usdt_row ∷ []))
