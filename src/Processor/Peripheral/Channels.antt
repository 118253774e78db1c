-- ===== src/Processor/Peripheral/Channels.antt =====
-- chain/banknote_processor.go, `ProcessPeripheralLedgerTx`: the goroutine that sorts the transactions
-- to four channels, and the workers that empty them, one channel after another. What a worker does
-- with a transaction is left out here.
pub mod Finish
pub mod Blocked
pub mod Lanes
pub mod Kept
pub mod Measure
use banknote_chain.Base.{
  ℕ, ◌==◌, ◌≡◌, List, [], ◌∷◌, ◌++◌, Option, none, some, Bool, true, false, length, leb,
  if◌then◌else◌,
}
use banknote_chain.Processor.Peripheral.{Phases}
use banknote_chain.Tx.{BanknoteTx, BanknoteTxType, bg, bt, br, bs, nt}

-- `BGTxsChan`, `BStxsChan`, `BTtxsChan` and `BRtxsChan`
pub data Lane : Type 0 where
  bg_lane bs_lane bt_lane br_lane : Lane

abbrev pub rank : Lane → ℕ
rank bg_lane = 0
rank bs_lane = 1
rank bt_lane = 2
rank br_lane = 3

abbrev pub same_lane : Lane → Lane → Bool
same_lane k l = rank k == rank l

abbrev pub set_lane : (Lane → List BanknoteTx) → Lane → List BanknoteTx → Lane → List BanknoteTx
set_lane f l txs k = if same_lane k l then txs else f k

-- Transactions of type NT go down no channel.
unfoldable pub lane_of_type : BanknoteTxType → Option Lane
lane_of_type bg = some bg_lane
lane_of_type bt = some bt_lane
lane_of_type bs = some bs_lane
lane_of_type br = some br_lane
lane_of_type nt = none

-- `left` are the transactions that the filling goroutine has yet to send, `taken` those that workers
-- have received, and `phases` the channels that workers have yet to empty, the first of them
-- being the one that they read.
pub record Filling : Type 0 where
  pub left : List BanknoteTx
  pub chans : Lane → List BanknoteTx
  pub closed : Bool
  pub taken : Lane → List BanknoteTx
  pub phases : List Lane

abbrev pub start_filling : List BanknoteTx → Filling
start_filling txs = record {
  left = txs;
  chans = λ k. [];
  closed = false;
  taken = λ k. [];
  phases = bg_lane ∷ bs_lane ∷ bt_lane ∷ br_lane ∷ [];
}

-- What the workers have received, by phases.
abbrev pub taken_phases : Filling → Phases
taken_phases s = record {
  bg_txs = s.taken bg_lane;
  bs_txs = s.taken bs_lane;
  bt_txs = s.taken bt_lane;
  br_txs = s.taken br_lane;
}

-- The goroutine that fills the channels, or a worker.
pub data ChannelTurn : Type 0 where
  fill take : ChannelTurn

-- A worker receives a transaction; on a closed channel that is empty the workers end, and those of
-- the next phase are started.
unfoldable pub take_from : Filling → Lane → List Lane → List BanknoteTx → Bool → Option Filling
take_from s k later (tx ∷ rest) closed = some (record s {
  chans = set_lane s.chans k rest;
  taken = set_lane s.taken k (s.taken k ++ tx ∷ []);
})
take_from s k later [] true = some (record s { phases = later })
take_from s k later [] false = none

unfoldable pub take_next : Filling → List Lane → Option Filling
take_next s [] = none
take_next s (k ∷ later) = take_from s k later (s.chans k) s.closed

-- `places` is the setting `PLedgerInnerChanSize`, which is positive. A turn that waits is none.
module _ (places : ℕ) where
  unfoldable pub send_to : Filling → BanknoteTx → List BanknoteTx → Option Lane → Option Filling
  send_to s tx rest none = some (record s { left = rest })
  send_to s tx rest (some k) =
      if leb places (length (s.chans k))
      then none
      else some (record s { left = rest; chans = set_lane s.chans k (s.chans k ++ tx ∷ []) })

  -- The channels are closed one after another, which is one turn.
  unfoldable pub fill_next : Filling → List BanknoteTx → Bool → Option Filling
  fill_next s (tx ∷ rest) closed = send_to s tx rest (lane_of_type tx.banknote_tx_type)
  fill_next s [] false = some (record s { closed = true })
  fill_next s [] true = none

  unfoldable pub channel_turn : ChannelTurn → Filling → Option Filling
  channel_turn fill s = fill_next s s.left s.closed
  channel_turn take s = take_next s s.phases

  pub data Fills (s : Filling) : Filling → Type 0 where
    at_start : Fills s s
    after_turn :
        {t u : Filling} (x : ChannelTurn) → Fills s t → channel_turn x t ≡ some u → Fills s u
