-- ===== src/Processor/Peripheral/Channels/Finish.antt =====
-- Where the channels have places enough, the phases end, and their workers have received what
-- `fill_channels` says.
use banknote_chain.Base.{
  ℕ, zero, suc, ◌<◌, ◌≤◌, ◌≡◌, refl, sym, ap, ap₂, ◌∙◌, List, [], ◌∷◌, ◌++◌, length, keep,
  length-append, Option, none, some, Bool, true, false, leb, if◌then◌else◌, arith, Bool-cases, ◌⊎◌,
  inl, inr, ==_refl, subst,
}
use banknote_chain.Processor.Peripheral.{fill_channels}
use banknote_chain.Processor.Peripheral.Channels.{
  Lane, bg_lane, bs_lane, bt_lane, br_lane, rank, set_lane, lane_of_type, Filling, start_filling,
  taken_phases, ChannelTurn, fill, take, send_to, fill_next, take_from, take_next, channel_turn,
}
use banknote_chain.Processor.Peripheral.Channels.Kept.{
  IsFilling, start-IsFilling, finished-taken, channel_turn-IsFilling,
}
use banknote_chain.Processor.Peripheral.Channels.Lanes.{is_lane, keep-is_lane, keep-lanes}
use banknote_chain.Processor.Peripheral.Channels.Measure.{to_do, channel_turn-lowers}
use banknote_chain.Tx.{BanknoteTx}

module _ (places : ℕ) (txs : List BanknoteTx) where
  -- However the goroutines are scheduled, they get to the end of all phases, with the workers
  -- having received the transactions of the block by their types, and until then one has a turn.
  pub data WillFinish : Filling → Type 0 where
    finished : {s : Filling} → s.phases ≡ [] → taken_phases s ≡ fill_channels txs → WillFinish s
    goes_on :
        {s t : Filling} (x : ChannelTurn)
        → channel_turn places x s ≡ some t
        → ((y : ChannelTurn) (u : Filling) → channel_turn places y s ≡ some u → WillFinish u)
        → WillFinish s

  abbrev Moves : Filling → Type 0
  Moves s = (x : ChannelTurn) × (t : Filling) × (channel_turn places x s ≡ some t)

  -- A worker has a turn on a channel that is closed or has a transaction.
  take_from-Moves :
      (s : Filling) (k : Lane) (later : List Lane) (chan : List BanknoteTx) (closed : Bool)
      → s.phases ≡ k ∷ later
      → chan ≡ s.chans k
      → closed ≡ s.closed
      → (closed ≡ true) ⊎ (0 < length chan)
      → Moves s
  unfolding channel_turn take_next take_from
  take_from-Moves s k later (tx ∷ rest) closed qp q qc some_left =
      let t : Filling = record s {
        chans = set_lane s.chans k rest;
        taken = set_lane s.taken k (s.taken k ++ tx ∷ []);
      } in
      let turned : take_from s k later (tx ∷ rest) closed ≡ some t = refl in
      (take, t, ap (take_next s) qp ∙ ap (λ c. take_from s k later c s.closed) (sym q) ∙ turned)
  take_from-Moves s k later [] true qp q qc some_left =
      let t : Filling = record s { phases = later } in
      let turned : take_from s k later [] true ≡ some t = refl in
      (take, t, ap (take_next s) qp ∙ ap₂ (take_from s k later) (sym q) (sym qc) ∙ turned)
  take_from-Moves s k later [] false qp q qc (inl h) = absurd (cc)
  take_from-Moves s k later [] false qp q qc (inr h) = absurd (omega arith)

  module _ (room : 0 < places)
      (fits : (k : Lane) → (k ≡ bg_lane) ⊎ (length (keep (is_lane k) txs) ≤ places)) where
    -- A channel that a transaction is to be sent to is not full.
    has_place :
        (s : Filling) (tx : BanknoteTx) (rest : List BanknoteTx) (l : Lane)
        → tx ∷ rest ≡ s.left
        → some l ≡ lane_of_type tx.banknote_tx_type
        → s.chans bg_lane ≡ []
        → IsFilling places txs s
        → leb places (length (s.chans l)) ≡ false
    has_place s tx rest l q ql empty v = elim (fits l) [
      | inl first ↦ let none_left = ap length (ap s.chans first ∙ empty) in ground arith
      | inr enough ↦
          let own : tx ∷ keep (is_lane l) rest ≡ keep (is_lane l) (tx ∷ rest) =
            (let first = keep-is_lane l tx rest (some l) ql in rw (==_refl (rank l)) at first) in
          let own_left = ap length (own ∙ ap (keep (is_lane l)) q) in
          let whole = ap length (v.kept l) in
          let behind = length-append (s.taken l) (s.chans l ++ keep (is_lane l) s.left) in
          let waiting = length-append (s.chans l) (keep (is_lane l) s.left) in
          let short : length (s.chans l) < places = omega arith in ground arith
    ]

    fill_next-Moves :
        (s : Filling) (left : List BanknoteTx)
        → left ≡ s.left
        → s.closed ≡ false
        → s.chans bg_lane ≡ []
        → IsFilling places txs s
        → Moves s
    unfolding channel_turn fill_next send_to
    fill_next-Moves s [] q qc empty v =
        let t : Filling = record s { closed = true } in
        let turned : fill_next places s [] false ≡ some t = refl in
        (fill, t, ap₂ (fill_next places s) (sym q) qc ∙ turned)
    fill_next-Moves s (tx ∷ rest) q qc empty v =
        let (t, sent) = sends (lane_of_type tx.banknote_tx_type) refl in
        (fill, t, ap (λ l. fill_next places s l s.closed) (sym q) ∙ sent)
      where
        sends :
            (lane : Option Lane)
            → lane ≡ lane_of_type tx.banknote_tx_type
            → (t : Filling) × (send_to places s tx rest lane ≡ some t)
        sends none ql = (record s { left = rest }, refl)
        sends (some l) ql =
            let chans : Lane → List BanknoteTx = set_lane s.chans l (s.chans l ++ tx ∷ []) in
            (
              record s { left = rest; chans = chans },
              ap (λ b. if b then none else some (record s { left = rest; chans = chans }))
                  (has_place s tx rest l q ql empty v),
            )

    open-Moves :
        (s : Filling) (chan : List BanknoteTx)
        → chan ≡ s.chans bg_lane
        → s.closed ≡ false
        → IsFilling places txs s
        → Moves s
    open-Moves s [] q qc v = fill_next-Moves s s.left refl qc (sym q) v
    open-Moves s (tx ∷ rest) q qc v =
        take_from-Moves s bg_lane (bs_lane ∷ bt_lane ∷ br_lane ∷ []) (tx ∷ rest) s.closed
          (v.opened qc) q refl (inr (omega arith))

    finished_or_Moves :
        (s : Filling) (phases : List Lane)
        → s.phases ≡ phases
        → IsFilling places txs s
        → (s.phases ≡ []) ⊎ Moves s
    finished_or_Moves s [] qp v = inl qp
    finished_or_Moves s (k ∷ later) qp v = elim (Bool-cases s.closed) [
      | inl c ↦ inr (take_from-Moves s k later (s.chans k) s.closed qp refl refl (inl c))
      | inr c ↦ inr (open-Moves s (s.chans bg_lane) refl c v)
    ]

    taken-fill_channels :
        (s : Filling) → s.phases ≡ [] → IsFilling places txs s → taken_phases s ≡ fill_channels txs
    unfolding fill_channels
    taken-fill_channels s done v =
        let (bgs, bss, bts, brs) = keep-lanes txs in
        rw
          (
            finished-taken places txs s bg_lane done v ∙ bgs,
            finished-taken places txs s bs_lane done v ∙ bss,
            finished-taken places txs s bt_lane done v ∙ bts,
            finished-taken places txs s br_lane done v ∙ brs,
          )
          refl

    finishes_within : (n : ℕ) (s : Filling) → to_do s < n → IsFilling places txs s → WillFinish s
    finishes_within zero s lt v = absurd (omega arith)
    finishes_within (suc n) s lt v = elim (finished_or_Moves s s.phases refl v) [
      | inl done ↦ finished done (taken-fill_channels s done v)
      | inr m ↦ goes_on m.0 m.2 λ y u h.
          let lower = channel_turn-lowers places y s u h in
          finishes_within n u (omega arith) (channel_turn-IsFilling places txs y s u v h)
    ]

  -- With channels of at least one place, and with at least as many as a ledger has transactions of the
  -- types BS, BT and BR each, the phases of the ledger end however the goroutines are scheduled, and
  -- their workers have then received the transactions of the block by their types, in the block's
  -- order.
  pub start_filling-WillFinish :
      0 < places
      → length (fill_channels txs).bs_txs ≤ places
      → length (fill_channels txs).bt_txs ≤ places
      → length (fill_channels txs).br_txs ≤ places
      → WillFinish (start_filling txs)
  unfolding fill_channels
  start_filling-WillFinish room splits transfers recyclings =
      finishes_within room fits (suc (to_do (start_filling txs))) (start_filling txs) (omega arith)
        (start-IsFilling places txs)
    where
      fits : (k : Lane) → (k ≡ bg_lane) ⊎ (length (keep (is_lane k) txs) ≤ places)
      fits bg_lane = inl refl
      fits bs_lane = inr (subst (λ l. length l ≤ places) (sym (keep-lanes txs).1) splits)
      fits bt_lane = inr (subst (λ l. length l ≤ places) (sym (keep-lanes txs).2) transfers)
      fits br_lane = inr (subst (λ l. length l ≤ places) (sym (keep-lanes txs).3) recyclings)
