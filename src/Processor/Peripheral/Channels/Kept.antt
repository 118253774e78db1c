-- ===== src/Processor/Peripheral/Channels/Kept.antt =====
-- No transaction is lost on the way through the channels, and none changes places with another.
use mathlib.Core.List.{append_assoc, append-nil}
use banknote_chain.Base.{
  ℕ, ◌≡◌, refl, sym, ap, ap₂, ◌∙◌, subst, List, [], ◌∷◌, ◌++◌, length, keep, Option, none, some,
  Bool, true, false, ◌||◌, leb, Bool-cases, inl, inr,
}
use banknote_chain.Processor.Peripheral.Channels.{
  Lane, bg_lane, bs_lane, bt_lane, br_lane, same_lane, set_lane, lane_of_type, Filling,
  start_filling, ChannelTurn, fill, take, send_to, fill_next, take_from, take_next, channel_turn,
}
use banknote_chain.Processor.Peripheral.Channels.Lanes.{same_lane-eq, is_lane, keep-is_lane}
use banknote_chain.Tx.{BanknoteTx}

abbrev pub all_lanes : List Lane
all_lanes = bg_lane ∷ bs_lane ∷ bt_lane ∷ br_lane ∷ []

abbrev waits : Lane → List Lane → Bool
waits k [] = false
waits k (l ∷ later) = same_lane k l || waits k later

all-waits : (k : Lane) → waits k all_lanes ≡ true
all-waits bg_lane = refl
all-waits bs_lane = refl
all-waits bt_lane = refl
all-waits br_lane = refl

module _ (places : ℕ) (txs : List BanknoteTx) where
  -- `past` is about the channels that the workers have emptied.
  pub record IsFilling (s : Filling) : Type 0 where
    pub kept :
        (k : Lane) → s.taken k ++ (s.chans k ++ keep (is_lane k) s.left) ≡ keep (is_lane k) txs
    pub all_sent : s.closed ≡ true → s.left ≡ []
    pub opened : s.closed ≡ false → s.phases ≡ all_lanes
    pub past : (k : Lane) → waits k s.phases ≡ false → (s.closed ≡ true) × (s.chans k ≡ [])

  pub start-IsFilling : IsFilling (start_filling txs)
  start-IsFilling = record {
    kept = λ k. refl;
    all_sent = λ c. absurd (cc);
    opened = λ c. refl;
    past = λ k h. let waiting = all-waits k in absurd (cc);
  }

  -- While a transaction is left to be sent the channels are open.
  unsent-open :
      (s : Filling) (tx : BanknoteTx) (rest : List BanknoteTx)
      → tx ∷ rest ≡ s.left
      → IsFilling s
      → s.closed ≡ true
      → tx ∷ rest ≡ []
  unsent-open s tx rest q v c = q ∙ v.all_sent c

  appended :
      (s : Filling) (tx : BanknoteTx) (rest : List BanknoteTx) (l k : Lane)
      → some l ≡ lane_of_type tx.banknote_tx_type
      → tx ∷ rest ≡ s.left
      → set_lane s.chans l (s.chans l ++ tx ∷ []) k ++ keep (is_lane k) rest
        ≡ s.chans k ++ keep (is_lane k) s.left
  appended s tx rest l k ql q =
      let first = keep-is_lane k tx rest (some l) ql in
      elim (Bool-cases (same_lane k l)) [
        | inl e ↦
            let first' : tx ∷ keep (is_lane k) rest ≡ keep (is_lane k) (tx ∷ rest) =
              rw e at first in
            rw e (
              append_assoc (s.chans l) (tx ∷ []) (keep (is_lane k) rest)
              ∙ ap (λ j. s.chans j ++ tx ∷ keep (is_lane k) rest) (sym (same_lane-eq k l e))
              ∙ ap (λ r. s.chans k ++ r) (first' ∙ ap (keep (is_lane k)) q))
        | inr e ↦
            let first' : keep (is_lane k) rest ≡ keep (is_lane k) (tx ∷ rest) = rw e at first in
            rw e (ap (λ r. s.chans k ++ r) (first' ∙ ap (keep (is_lane k)) q))
      ]

  sent-IsFilling :
      (s : Filling) (tx : BanknoteTx) (rest : List BanknoteTx) (chans : Lane → List BanknoteTx)
      → tx ∷ rest ≡ s.left
      → IsFilling s
      → ((k : Lane) → chans k ++ keep (is_lane k) rest ≡ s.chans k ++ keep (is_lane k) s.left)
      → IsFilling (record s { left = rest; chans = chans })
  sent-IsFilling s tx rest chans q v same = record {
    kept = λ k. ap (λ r. s.taken k ++ r) (same k) ∙ v.kept k;
    all_sent = λ c. let none_left = unsent-open s tx rest q v c in absurd (cc);
    opened = v.opened;
    past = λ k h. let none_left = unsent-open s tx rest q v (v.past k h).0 in absurd (cc);
  }

  some-IsFilling : {s t : Filling} → some s ≡ some t → IsFilling s → IsFilling t
  some-IsFilling {s} {t} h v = let same : s ≡ t = cc in subst IsFilling same v

  send_to-IsFilling :
      (s t : Filling) (tx : BanknoteTx) (rest : List BanknoteTx) (lane : Option Lane)
      → lane ≡ lane_of_type tx.banknote_tx_type
      → tx ∷ rest ≡ s.left
      → IsFilling s
      → send_to places s tx rest lane ≡ some t
      → IsFilling t
  unfolding send_to
  send_to-IsFilling s t tx rest none ql q v h = some-IsFilling h (
      sent-IsFilling s tx rest s.chans q v
        λ k. ap (λ r. s.chans k ++ r) (keep-is_lane k tx rest none ql ∙ ap (keep (is_lane k)) q))
  send_to-IsFilling s t tx rest (some l) ql q v h =
      elim (Bool-cases (leb places (length (s.chans l)))) [
        | inl full ↦ let h' : none ≡ some t = rw full at h in absurd (cc)
        | inr room ↦
            let chans : Lane → List BanknoteTx = set_lane s.chans l (s.chans l ++ tx ∷ []) in
            let h' : some (record s { left = rest; chans = chans }) ≡ some t = rw room at h in
            some-IsFilling h' (sent-IsFilling s tx rest chans q v λ k. appended s tx rest l k ql q)
      ]

  fill_next-IsFilling :
      (s t : Filling) (left : List BanknoteTx) (closed : Bool)
      → left ≡ s.left
      → closed ≡ s.closed
      → IsFilling s
      → fill_next places s left closed ≡ some t
      → IsFilling t
  unfolding fill_next
  fill_next-IsFilling s t (tx ∷ rest) closed q qc v h =
      send_to-IsFilling s t tx rest (lane_of_type tx.banknote_tx_type) refl q v h
  fill_next-IsFilling s t [] true q qc v h = absurd (cc)
  fill_next-IsFilling s t [] false q qc v h = some-IsFilling h (record {
    kept = v.kept;
    all_sent = λ c. sym q;
    opened = λ c. absurd (cc);
    past = λ k h'.
        let waiting : waits k s.phases ≡ true = ap (waits k) (v.opened (sym qc)) ∙ all-waits k in
        absurd (cc);
  })

  received :
      (s : Filling) (k j : Lane) (tx : BanknoteTx) (rest : List BanknoteTx)
      → tx ∷ rest ≡ s.chans k
      → set_lane s.taken k (s.taken k ++ tx ∷ []) j
          ++ (set_lane s.chans k rest j ++ keep (is_lane j) s.left)
        ≡ s.taken j ++ (s.chans j ++ keep (is_lane j) s.left)
  received s k j tx rest q = elim (Bool-cases (same_lane j k)) [
    | inl e ↦
        let later = keep (is_lane j) s.left in
        rw e (
          append_assoc (s.taken k) (tx ∷ []) (rest ++ later)
          ∙ ap (λ r. s.taken k ++ (r ++ later)) q
          ∙ ap (λ i. s.taken i ++ (s.chans i ++ later)) (sym (same_lane-eq j k e)))
    | inr e ↦ rw e refl
  ]

  take_from-IsFilling :
      (s t : Filling) (k : Lane) (later : List Lane) (chan : List BanknoteTx) (closed : Bool)
      → s.phases ≡ k ∷ later
      → chan ≡ s.chans k
      → closed ≡ s.closed
      → IsFilling s
      → take_from s k later chan closed ≡ some t
      → IsFilling t
  unfolding take_from
  take_from-IsFilling s t k later (tx ∷ rest) closed qp q qc v h = some-IsFilling h (record {
    kept = λ j. received s k j tx rest q ∙ v.kept j;
    all_sent = v.all_sent;
    opened = v.opened;
    past = λ j h'.
        let now : same_lane j k || waits j later ≡ false = ap (waits j) (sym qp) ∙ h' in
        elim (Bool-cases (same_lane j k)) [
          | inl e ↦ let now' : true ≡ false = rw e at now in absurd (cc)
          | inr e ↦ rw e (v.past j h')
        ];
  })
  take_from-IsFilling s t k later [] true qp q qc v h = some-IsFilling h (record {
    kept = v.kept;
    all_sent = v.all_sent;
    opened = λ c. absurd (cc);
    past = λ j h'. elim (Bool-cases (same_lane j k)) [
      | inl e ↦ (sym qc, ap s.chans (same_lane-eq j k e) ∙ sym q)
      | inr e ↦ v.past j (ap (waits j) qp ∙ rw (e, h') refl)
    ];
  })
  take_from-IsFilling s t k later [] false qp q qc v h = absurd (cc)

  take_next-IsFilling :
      (s t : Filling) (phases : List Lane)
      → s.phases ≡ phases
      → IsFilling s
      → take_next s phases ≡ some t
      → IsFilling t
  unfolding take_next
  take_next-IsFilling s t [] qp v h = absurd (cc)
  take_next-IsFilling s t (k ∷ later) qp v h =
      take_from-IsFilling s t k later (s.chans k) s.closed qp refl refl v h

  pub channel_turn-IsFilling :
      (x : ChannelTurn) (s t : Filling)
      → IsFilling s
      → channel_turn places x s ≡ some t
      → IsFilling t
  unfolding channel_turn
  channel_turn-IsFilling fill s t v h = fill_next-IsFilling s t s.left s.closed refl refl v h
  channel_turn-IsFilling take s t v h = take_next-IsFilling s t s.phases refl v h

  -- After the last phase the workers have received everything.
  pub finished-taken :
      (s : Filling) (k : Lane) → s.phases ≡ [] → IsFilling s → s.taken k ≡ keep (is_lane k) txs
  finished-taken s k done v =
      let (closed, empty) = v.past k (ap (waits k) done) in
      sym (append-nil (s.taken k))
      ∙ ap₂ (λ a l. s.taken k ++ (a ++ keep (is_lane k) l)) (sym empty) (sym (v.all_sent closed))
      ∙ v.kept k
