-- ===== src/Examples/Ledgers/Channels.antt =====
-- The channels of a peripheral ledger, with one place each.
use banknote_chain.Base.{ℕ, ◌≡◌, ◌≤◌, refl, [], ◌∷◌, length, arith}
use banknote_chain.Base.Int.{pos}
use banknote_chain.Examples.Ledgers.Inputs.{tx_of}
use banknote_chain.Processor.Peripheral.{fill_channels}
use banknote_chain.Processor.Peripheral.Channels.{
  Lane, bg_lane, bs_lane, bt_lane, br_lane, set_lane, lane_of_type, Filling, start_filling, fill,
  send_to, fill_next, channel_turn, Fills, at_start, after_turn,
}
use banknote_chain.Processor.Peripheral.Channels.Blocked.{start_filling-blocks}
use banknote_chain.Processor.Peripheral.Channels.Finish.{WillFinish, start_filling-WillFinish}
use banknote_chain.Tx.{BanknoteTx, bg, bt}

abbrev transfer : ℕ → BanknoteTx
transfer n = tx_of bt n 1 2 0 (pos n)

abbrev generation : BanknoteTx
generation = tx_of bg 9 1 2 0 (pos 9)

few : length (fill_channels (transfer 1 ∷ generation ∷ [])).bt_txs ≤ 1
unfolding fill_channels
few = omega arith

none_split : length (fill_channels (transfer 1 ∷ generation ∷ [])).bs_txs ≤ 1
unfolding fill_channels
none_split = omega arith

none_recycled : length (fill_channels (transfer 1 ∷ generation ∷ [])).br_txs ≤ 1
unfolding fill_channels
none_recycled = omega arith

start_filling-WillFinish_example :
    WillFinish 1 (transfer 1 ∷ generation ∷ []) (start_filling (transfer 1 ∷ generation ∷ []))
start_filling-WillFinish_example =
    start_filling-WillFinish 1 (transfer 1 ∷ generation ∷ []) (omega arith) none_split few
      none_recycled

-- The first of two transfers is sent, and the second waits.
abbrev one_sent : Filling
one_sent = record (start_filling (transfer 1 ∷ transfer 2 ∷ generation ∷ [])) {
  left = transfer 2 ∷ generation ∷ [];
  chans = set_lane (λ k. []) bt_lane (transfer 1 ∷ []);
}

sends_one : Fills 1 (start_filling (transfer 1 ∷ transfer 2 ∷ generation ∷ [])) one_sent
unfolding channel_turn fill_next send_to lane_of_type
sends_one = after_turn fill at_start refl

start_filling-blocks_example :
    (one_sent.phases ≡ bg_lane ∷ bs_lane ∷ bt_lane ∷ br_lane ∷ [])
    × ((k : Lane) → one_sent.taken k ≡ [])
start_filling-blocks_example =
    start_filling-blocks 1 (generation ∷ []) (transfer 1 ∷ transfer 2 ∷ []) one_sent (omega arith)
      (refl, (refl, tt)) sends_one
