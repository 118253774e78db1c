-- ===== src/Generator/Usdt/Progress.antt =====
-- A call of `GetTx` of the USDT reader does not wait for ever.
use banknote_chain.Base.{
  ℕ, suc, zero, ◌+◌, ◌*◌, ◌<◌, ◌≡◌, refl, sym, ap, List, [], ◌∷◌, ◌++◌, length, length-append,
  Option, none, some, Bool, true, false, ◌⊎◌, inl, inr, arith, subst, leb, Bool-cases,
}
use banknote_chain.Base.Go.{Address, Bytes}
use banknote_chain.Base.Int.{ℤ}
use banknote_chain.Generator.Usdt.{
  UsdtCsvEntity, Pipeline, Work, send_row, close_rows, convert, send_tx, close_txs, receive_from,
  receive_tx, usdt_tx, send_rows, close_csv, convert_row, send_converted, close_converted, work,
  channel_places,
}
use banknote_chain.Tx.{BanknoteTx}

module _ (hex_to_address : Bytes → Address) (unread : Bytes → ℤ) where
  -- However the goroutines are scheduled, they get to where the call returns, and until then one of
  -- them has a turn.
  pub data WillAnswer : Pipeline → Type 0 where
    answers :
        {s : Pipeline} {r : Option BanknoteTx × Pipeline} → receive_tx s ≡ some r → WillAnswer s
    goes_on :
        {s t : Pipeline} (w : Work)
        → work hex_to_address unread w s ≡ some t
        → ((v : Work) (u : Pipeline) → work hex_to_address unread v s ≡ some u → WillAnswer u)
        → WillAnswer s

  abbrev held : Option BanknoteTx → ℕ
  held none = 0
  held (some _) = 1

  abbrev left_open : Bool → ℕ
  left_open true = 0
  left_open false = 1

  -- The turns that are left: three for a row, two for one that is in the channel.
  abbrev to_do : Pipeline → ℕ
  to_do s =
      3 * length s.csv_rows
      + 2 * length s.csv_entity_chan
      + held s.in_hand
      + left_open s.csv_entity_closed
      + left_open s.txs_closed

  below : (s : Pipeline) {t u : Pipeline} → some u ≡ some t → to_do u < to_do s → to_do t < to_do s
  below s {t} {u} e lt = let same : u ≡ t = cc in subst (λ z. to_do z < to_do s) same lt

  send_rows-lowers :
      (s t : Pipeline) (rows : List UsdtCsvEntity)
      → rows ≡ s.csv_rows
      → send_rows hex_to_address unread s rows ≡ some t
      → to_do t < to_do s
  unfolding send_rows
  send_rows-lowers s t [] q h = absurd (cc)
  send_rows-lowers s t (e ∷ rows) q h =
      elim (Bool-cases (leb channel_places (length s.csv_entity_chan))) [
        | inl full ↦ let h' : none ≡ some t = rw full at h in absurd (cc)
        | inr room ↦
            let sent : Pipeline = record s {
              csv_rows = rows;
              csv_entity_chan = s.csv_entity_chan ++ e ∷ [];
            } in
            let h' : some sent ≡ some t = rw room at h in
            below s h' (omega (arith, ap length q, length-append s.csv_entity_chan (e ∷ [])))
      ]

  close_csv-lowers :
      (s t : Pipeline) (rows : List UsdtCsvEntity) (closed : Bool)
      → closed ≡ s.csv_entity_closed
      → close_csv hex_to_address unread s rows closed ≡ some t
      → to_do t < to_do s
  unfolding close_csv
  close_csv-lowers s t [] false q h = below s h (omega (arith, ap left_open q))
  close_csv-lowers s t [] true q h = absurd (cc)
  close_csv-lowers s t (e ∷ rows) closed q h = absurd (cc)

  convert_row-lowers :
      (s t : Pipeline) (hand : Option BanknoteTx) (rows : List UsdtCsvEntity)
      → hand ≡ s.in_hand
      → rows ≡ s.csv_entity_chan
      → convert_row hex_to_address unread s hand rows ≡ some t
      → to_do t < to_do s
  unfolding convert_row
  convert_row-lowers s t none (e ∷ rest) qh q h = below s h (omega (arith, ap held qh, ap length q))
  convert_row-lowers s t none [] qh q h = absurd (cc)
  convert_row-lowers s t (some tx) rows qh q h = absurd (cc)

  send_converted-lowers :
      (s t : Pipeline) (hand : Option BanknoteTx)
      → hand ≡ s.in_hand
      → send_converted hex_to_address unread s hand ≡ some t
      → to_do t < to_do s
  unfolding send_converted
  send_converted-lowers s t none qh h = absurd (cc)
  send_converted-lowers s t (some tx) qh h =
      elim (Bool-cases (leb channel_places (length s.txs_chan))) [
        | inl full ↦ let h' : none ≡ some t = rw full at h in absurd (cc)
        | inr room ↦
            let sent : Pipeline = record s { in_hand = none; txs_chan = s.txs_chan ++ tx ∷ [] } in
            let h' : some sent ≡ some t = rw room at h in below s h' (omega (arith, ap held qh))
      ]

  close_converted-lowers :
      (s t : Pipeline) (hand : Option BanknoteTx) (rows : List UsdtCsvEntity)
      (csv_closed closed : Bool)
      → closed ≡ s.txs_closed
      → close_converted hex_to_address unread s hand rows csv_closed closed ≡ some t
      → to_do t < to_do s
  unfolding close_converted
  close_converted-lowers s t none [] true false q h = below s h (omega (arith, ap left_open q))
  close_converted-lowers s t none [] true true q h = absurd (cc)
  close_converted-lowers s t none [] false closed q h = absurd (cc)
  close_converted-lowers s t none (e ∷ rest) csv_closed closed q h = absurd (cc)
  close_converted-lowers s t (some tx) rows csv_closed closed q h = absurd (cc)

  work-lowers :
      (w : Work) (s t : Pipeline) → work hex_to_address unread w s ≡ some t → to_do t < to_do s
  unfolding work
  work-lowers send_row s t h = send_rows-lowers s t s.csv_rows refl h
  work-lowers close_rows s t h = close_csv-lowers s t s.csv_rows s.csv_entity_closed refl h
  work-lowers convert s t h = convert_row-lowers s t s.in_hand s.csv_entity_chan refl refl h
  work-lowers send_tx s t h = send_converted-lowers s t s.in_hand refl h
  work-lowers close_txs s t h =
      close_converted-lowers s t s.in_hand s.csv_entity_chan s.csv_entity_closed s.txs_closed refl h

  -- Where a call waits, a goroutine has a turn.
  abbrev Moves : Pipeline → Type 0
  Moves s = (w : Work) × (t : Pipeline) × (work hex_to_address unread w s ≡ some t)

  -- By what is in the hand, in the channel of rows, its flag and the file.
  waits-Moves :
      (s : Pipeline) (hand : Option BanknoteTx) (rows : List UsdtCsvEntity) (csv_closed : Bool)
      (file : List UsdtCsvEntity)
      → hand ≡ s.in_hand
      → rows ≡ s.csv_entity_chan
      → csv_closed ≡ s.csv_entity_closed
      → file ≡ s.csv_rows
      → s.txs_chan ≡ []
      → s.txs_closed ≡ false
      → Moves s
  unfolding work send_rows close_csv convert_row send_converted close_converted
  waits-Moves s (some tx) rows csv_closed file qh q qc qf empty unclosed = (
    send_tx,
    record s { in_hand = none; txs_chan = s.txs_chan ++ tx ∷ [] },
    rw (← qh, empty) refl,
  )
  waits-Moves s none (e ∷ rest) csv_closed file qh q qc qf empty unclosed = (
    convert,
    record s { csv_entity_chan = rest; in_hand = some (usdt_tx hex_to_address unread e) },
    rw (← qh, ← q) refl,
  )
  waits-Moves s none [] true file qh q qc qf empty unclosed =
      (close_txs, record s { txs_closed = true }, rw (← qh, ← q, ← qc, unclosed) refl)
  waits-Moves s none [] false (e ∷ file) qh q qc qf empty unclosed = (
    send_row,
    record s { csv_rows = file; csv_entity_chan = s.csv_entity_chan ++ e ∷ [] },
    rw (← qf, ← q) refl,
  )
  waits-Moves s none [] false [] qh q qc qf empty unclosed =
      (close_rows, record s { csv_entity_closed = true }, rw (← qf, ← qc) refl)

  receives_or_Moves :
      (s : Pipeline) (txs : List BanknoteTx) (closed : Bool)
      → txs ≡ s.txs_chan
      → closed ≡ s.txs_closed
      → ((r : Option BanknoteTx × Pipeline) × (receive_from s txs closed ≡ some r)) ⊎ Moves s
  unfolding receive_from
  receives_or_Moves s (tx ∷ rest) closed q qc = inl (_, refl)
  receives_or_Moves s [] true q qc = inl (_, refl)
  receives_or_Moves s [] false q qc = inr (
      waits-Moves s s.in_hand s.csv_entity_chan s.csv_entity_closed s.csv_rows refl refl refl refl
        (sym q) (sym qc))

  answers_within : (n : ℕ) (s : Pipeline) → to_do s < n → WillAnswer s
  answers_within zero s lt = absurd (omega arith)
  answers_within (suc n) s lt = elim (receives_or_Moves s s.txs_chan s.txs_closed refl refl) [
    | inl r ↦ answers r.1
    | inr m ↦
        goes_on m.0 m.2 λ w t h. let lower = work-lowers w s t h in answers_within n t (omega arith)
  ]

  -- In every state of the channels a call of `GetTx` will return, however the goroutines are
  -- scheduled.
  pub receive_tx-WillAnswer : (s : Pipeline) → WillAnswer s
  receive_tx-WillAnswer s = answers_within (suc (to_do s)) s (omega arith)
