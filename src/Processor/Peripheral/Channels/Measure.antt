-- ===== src/Processor/Peripheral/Channels/Measure.antt =====
-- Every turn of a goroutine leaves fewer turns to be done.
use banknote_chain.Base.{
  ℕ, ◌+◌, ◌*◌, ◌<◌, ◌≡◌, refl, ap, List, [], ◌∷◌, ◌++◌, length, length-append, Option, none, some,
  Bool, true, false, leb, arith, Bool-cases, inl, inr, subst,
}
use banknote_chain.Processor.Peripheral.Channels.{
  Lane, set_lane, lane_of_type, Filling, ChannelTurn, fill, take, send_to, fill_next, take_from,
  take_next, channel_turn,
}
use banknote_chain.Processor.Peripheral.Channels.Lanes.{held, held-set_lane}
use banknote_chain.Tx.{BanknoteTx}

abbrev yet_open : Bool → ℕ
yet_open true = 0
yet_open false = 1

-- The turns that are left.
abbrev pub to_do : Filling → ℕ
to_do s = 2 * length s.left + held s.chans + length s.phases + yet_open s.closed

module _ (places : ℕ) where
  below : (s : Filling) {t u : Filling} → some u ≡ some t → to_do u < to_do s → to_do t < to_do s
  below s {t} {u} e lt = let same : u ≡ t = cc in subst (λ z. to_do z < to_do s) same lt

  send_to-lowers :
      (s t : Filling) (tx : BanknoteTx) (rest : List BanknoteTx) (lane : Option Lane)
      → tx ∷ rest ≡ s.left
      → send_to places s tx rest lane ≡ some t
      → to_do t < to_do s
  unfolding send_to
  send_to-lowers s t tx rest none q h = below s h (omega (arith, ap length q))
  send_to-lowers s t tx rest (some l) q h = elim (Bool-cases (leb places (length (s.chans l)))) [
    | inl full ↦ let h' : none ≡ some t = rw full at h in absurd (cc)
    | inr room ↦
        let chans : Lane → List BanknoteTx = set_lane s.chans l (s.chans l ++ tx ∷ []) in
        let h' : some (record s { left = rest; chans = chans }) ≡ some t = rw room at h in
        below s h' (
          omega (
            arith,
            ap length q,
            held-set_lane s.chans l (s.chans l ++ tx ∷ []),
            length-append (s.chans l) (tx ∷ []),
          ))
  ]

  fill_next-lowers :
      (s t : Filling) (left : List BanknoteTx) (closed : Bool)
      → left ≡ s.left
      → closed ≡ s.closed
      → fill_next places s left closed ≡ some t
      → to_do t < to_do s
  unfolding fill_next
  fill_next-lowers s t (tx ∷ rest) closed q qc h =
      send_to-lowers s t tx rest (lane_of_type tx.banknote_tx_type) q h
  fill_next-lowers s t [] false q qc h = below s h (omega (arith, ap yet_open qc))
  fill_next-lowers s t [] true q qc h = absurd (cc)

  take_from-lowers :
      (s t : Filling) (k : Lane) (later : List Lane) (chan : List BanknoteTx) (closed : Bool)
      → s.phases ≡ k ∷ later
      → chan ≡ s.chans k
      → take_from s k later chan closed ≡ some t
      → to_do t < to_do s
  unfolding take_from
  take_from-lowers s t k later (tx ∷ rest) closed qp q h =
      below s h (omega (arith, ap length q, held-set_lane s.chans k rest))
  take_from-lowers s t k later [] true qp q h = below s h (omega (arith, ap length qp))
  take_from-lowers s t k later [] false qp q h = absurd (cc)

  take_next-lowers :
      (s t : Filling) (phases : List Lane)
      → s.phases ≡ phases
      → take_next s phases ≡ some t
      → to_do t < to_do s
  unfolding take_next
  take_next-lowers s t [] qp h = absurd (cc)
  take_next-lowers s t (k ∷ later) qp h =
      take_from-lowers s t k later (s.chans k) s.closed qp refl h

  pub channel_turn-lowers :
      (x : ChannelTurn) (s t : Filling) → channel_turn places x s ≡ some t → to_do t < to_do s
  unfolding channel_turn
  channel_turn-lowers fill s t h = fill_next-lowers s t s.left s.closed refl refl h
  channel_turn-lowers take s t h = take_next-lowers s t s.phases refl h
