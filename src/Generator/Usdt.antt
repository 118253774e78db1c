-- ===== src/Generator/Usdt.antt =====
-- txGenerator/USDT_dataset_csv_reader.go: the two goroutines behind the USDT reader, with their
-- channels.
pub mod Refinement
pub mod Progress
use banknote_chain.Base.{
  ℕ, ◌≡◌, List, [], ◌∷◌, ◌++◌, Option, none, some, Bool, true, false, leb, length, if◌then◌else◌,
}
use banknote_chain.Base.Go.{Address, Bytes}
use banknote_chain.Base.Int.{ℤ}
use banknote_chain.Generator.Dataset.{set_string}
use banknote_chain.Tx.{BanknoteTx, nt, zero_tx}

pub record UsdtCsvEntity : Type 0 where
  pub from : Bytes
  pub to : Bytes
  pub hash : Bytes
  pub value : Bytes

-- The places of each channel.
abbrev pub channel_places : ℕ
channel_places = 10000

-- `csv_rows` are the rows that gocsv has yet to send; it closes its channel after the last of them.
-- `in_hand` is a transaction that has no place in `txs_chan` yet.
pub record Pipeline : Type 0 where
  pub csv_rows : List UsdtCsvEntity
  pub csv_entity_chan : List UsdtCsvEntity
  pub csv_entity_closed : Bool
  pub in_hand : Option BanknoteTx
  pub txs_chan : List BanknoteTx
  pub txs_closed : Bool

-- `NewUSDTDatasetTxGeneratorFromCSV` on a file that can be opened.
abbrev pub new_pipeline : List UsdtCsvEntity → Pipeline
new_pipeline rows = record {
  csv_rows = rows;
  csv_entity_chan = [];
  csv_entity_closed = false;
  in_hand = none;
  txs_chan = [];
  txs_closed = false;
}

-- What the goroutines do on their own: the first sends a row or closes its channel, the second
-- converts a row, sends a transaction or closes its channel.
pub data Work : Type 0 where
  send_row close_rows convert send_tx close_txs : Work

-- `GetTx`: nil on a closed channel that is empty; the call waits (none) on an open one.
unfoldable pub receive_from :
    Pipeline → List BanknoteTx → Bool → Option (Option BanknoteTx × Pipeline)
receive_from s (tx ∷ rest) closed = some (some tx, record s { txs_chan = rest })
receive_from s [] true = some (none, s)
receive_from s [] false = none

abbrev pub receive_tx : Pipeline → Option (Option BanknoteTx × Pipeline)
receive_tx s = receive_from s s.txs_chan s.txs_closed

-- `hex_to_address` is go-ethereum's. `unread` is what a `big.Int` holds after `SetString` of a text
-- that is no number, which is not looked at.
module _ (hex_to_address : Bytes → Address) (unread : Bytes → ℤ) where
  abbrev pub usdt_amount : Bytes → ℤ
  usdt_amount s = elim (set_string s) [ none ↦ unread s | some v ↦ v ]

  abbrev pub usdt_tx : UsdtCsvEntity → BanknoteTx
  usdt_tx e = record zero_tx {
    from = hex_to_address e.from;
    to = hex_to_address e.to;
    amount = some (usdt_amount e.value);
    banknote_tx_type = nt;
  }

  -- The first goroutine sends the rows, while there is a place for them.
  unfoldable pub send_rows : Pipeline → List UsdtCsvEntity → Option Pipeline
  send_rows s [] = none
  send_rows s (e ∷ rows) =
      if leb channel_places (length s.csv_entity_chan)
      then none
      else some (record s { csv_rows = rows; csv_entity_chan = s.csv_entity_chan ++ e ∷ [] })

  unfoldable pub close_csv : Pipeline → List UsdtCsvEntity → Bool → Option Pipeline
  close_csv s [] false = some (record s { csv_entity_closed = true })
  close_csv s _ _ = none

  -- The second takes a row when it has sent the last transaction.
  unfoldable pub convert_row : Pipeline → Option BanknoteTx → List UsdtCsvEntity → Option Pipeline
  convert_row s none (e ∷ rest) =
      some (record s { csv_entity_chan = rest; in_hand = some (usdt_tx e) })
  convert_row s _ _ = none

  unfoldable pub send_converted : Pipeline → Option BanknoteTx → Option Pipeline
  send_converted s none = none
  send_converted s (some tx) =
      if leb channel_places (length s.txs_chan)
      then none
      else some (record s { in_hand = none; txs_chan = s.txs_chan ++ tx ∷ [] })

  -- `range` ends when the first channel is closed and empty, and the second is closed then.
  unfoldable pub close_converted :
      Pipeline → Option BanknoteTx → List UsdtCsvEntity → Bool → Bool → Option Pipeline
  close_converted s none [] true false = some (record s { txs_closed = true })
  close_converted s _ _ _ _ = none

  -- One turn; none where the goroutine has to wait or has ended.
  unfoldable pub work : Work → Pipeline → Option Pipeline
  work send_row s = send_rows s s.csv_rows
  work close_rows s = close_csv s s.csv_rows s.csv_entity_closed
  work convert s = convert_row s s.in_hand s.csv_entity_chan
  work send_tx s = send_converted s s.in_hand
  work close_txs s = close_converted s s.in_hand s.csv_entity_chan s.csv_entity_closed s.txs_closed

  -- Any interleaving of the goroutines with calls of `GetTx`, and what the calls return.
  pub data Runs (s : Pipeline) : List (Option BanknoteTx) → Pipeline → Type 0 where
    here : Runs s [] s
    works :
        {got : List (Option BanknoteTx)} {t u : Pipeline} (w : Work)
        → Runs s got t
        → work w t ≡ some u
        → Runs s got u
    gets :
        {got : List (Option BanknoteTx)} {t u : Pipeline} (tx : Option BanknoteTx)
        → Runs s got t
        → receive_tx t ≡ some (tx, u)
        → Runs s (got ++ tx ∷ []) u
