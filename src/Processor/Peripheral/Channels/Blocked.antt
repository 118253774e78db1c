-- ===== src/Processor/Peripheral/Channels/Blocked.antt =====
-- A block whose transfers fill their channel before the first phase can end.
use banknote_chain.Base.{
  ℕ, suc, ◌+◌, ◌<◌, ◌≤◌, ◌≡◌, refl, sym, ap, ◌∙◌, subst, List, [], ◌∷◌, ◌++◌, All, length,
  length-append, none, some, false, leb, arith, Bool-cases, inl, inr,
}
use banknote_chain.Processor.Peripheral.Channels.{
  Lane, bg_lane, bs_lane, bt_lane, br_lane, set_lane, lane_of_type, Filling, start_filling,
  ChannelTurn, fill, take, send_to, fill_next, take_from, take_next, channel_turn, Fills, at_start,
  after_turn,
}
use banknote_chain.Tx.{BanknoteTx, bt}

abbrev pub IsTransfer : BanknoteTx → Type 0
IsTransfer tx = tx.banknote_tx_type ≡ bt

module _ (places : ℕ) (rest : List BanknoteTx) where
  -- `unsent` are transfers for which there will be no place.
  record IsBlocked (count : ℕ) (s : Filling) : Type 0 where
    unsent : List BanknoteTx
    transfers : All IsTransfer unsent
    left : s.left ≡ unsent ++ rest
    counted : length (s.chans bt_lane) + length unsent ≡ count
    within : length (s.chans bt_lane) ≤ places
    no_generation : s.chans bg_lane ≡ []
    unclosed : s.closed ≡ false
    first_phase : s.phases ≡ bg_lane ∷ bs_lane ∷ bt_lane ∷ br_lane ∷ []
    none_taken : (k : Lane) → s.taken k ≡ []

  send_to-IsBlocked :
      (count : ℕ) (s t : Filling) (tx : BanknoteTx) (unsent : List BanknoteTx)
      → IsTransfer tx
      → All IsTransfer unsent
      → length (s.chans bt_lane) + suc (length unsent) ≡ count
      → IsBlocked count s
      → send_to places s tx (unsent ++ rest) (some bt_lane) ≡ some t
      → IsBlocked count t
  unfolding send_to
  send_to-IsBlocked count s t tx unsent type types counted v h =
      elim (Bool-cases (leb places (length (s.chans bt_lane)))) [
        | inl full ↦ let h' : none ≡ some t = rw full at h in absurd (cc)
        | inr room ↦
            let sent : Filling = record s {
              left = unsent ++ rest;
              chans = set_lane s.chans bt_lane (s.chans bt_lane ++ tx ∷ []);
            } in
            let h' : some sent ≡ some t = rw room at h in
            let same : sent ≡ t = cc in
            let grown = length-append (s.chans bt_lane) (tx ∷ []) in
            subst (IsBlocked count) same (record {
              unsent = unsent;
              transfers = types;
              left = refl;
              counted = omega (arith, grown, counted);
              within = ground (arith, grown);
              no_generation = v.no_generation;
              unclosed = v.unclosed;
              first_phase = v.first_phase;
              none_taken = v.none_taken;
            })
      ]

  fill_next-IsBlocked :
      (count : ℕ) (s t : Filling) (unsent : List BanknoteTx)
      → places < count
      → All IsTransfer unsent
      → length (s.chans bt_lane) + length unsent ≡ count
      → IsBlocked count s
      → fill_next places s (unsent ++ rest) s.closed ≡ some t
      → IsBlocked count t
  unfolding fill_next lane_of_type
  fill_next-IsBlocked count s t [] more types counted v h =
      let within = v.within in absurd (omega arith)
  fill_next-IsBlocked count s t (tx ∷ unsent) more types counted v h =
      send_to-IsBlocked count s t tx unsent types.0 types.1 counted v
        (ap (λ ty. send_to places s tx (unsent ++ rest) (lane_of_type ty)) (sym types.0) ∙ h)

  turn-IsBlocked :
      (count : ℕ) (x : ChannelTurn) (s t : Filling)
      → places < count
      → IsBlocked count s
      → channel_turn places x s ≡ some t
      → IsBlocked count t
  unfolding channel_turn take_next take_from
  turn-IsBlocked count fill s t more v h =
      fill_next-IsBlocked count s t v.unsent more v.transfers v.counted v
        (ap (λ l. fill_next places s l s.closed) (sym v.left) ∙ h)
  turn-IsBlocked count take s t more v h =
      let h' : none ≡ some t = rw (v.first_phase, v.no_generation, v.unclosed) at h in absurd (cc)

  run-IsBlocked :
      (transfers : List BanknoteTx) (s : Filling)
      → places < length transfers
      → All IsTransfer transfers
      → Fills places (start_filling (transfers ++ rest)) s
      → IsBlocked (length transfers) s
  run-IsBlocked transfers s more types at_start = record {
    unsent = transfers;
    transfers = types;
    left = refl;
    counted = omega arith;
    within = omega arith;
    no_generation = refl;
    unclosed = refl;
    first_phase = refl;
    none_taken = λ k. refl;
  }
  run-IsBlocked transfers s more types (after_turn {t} x before h) =
      turn-IsBlocked (length transfers) x t s more (run-IsBlocked transfers t more types before) h

  -- When a block begins with more transfers for a ledger than its channel has places, then however
  -- the goroutines are scheduled, the first phase never ends and no worker ever receives a
  -- transaction, whatever the rest of the block is.
  pub start_filling-blocks :
      (transfers : List BanknoteTx) (s : Filling)
      → places < length transfers
      → All IsTransfer transfers
      → Fills places (start_filling (transfers ++ rest)) s
      → (s.phases ≡ bg_lane ∷ bs_lane ∷ bt_lane ∷ br_lane ∷ []) × ((k : Lane) → s.taken k ≡ [])
  start_filling-blocks transfers s more types run =
      let v = run-IsBlocked transfers s more types run in (v.first_phase, v.none_taken)
