-- ===== src/Generator/Usdt/Refinement.antt =====
-- The channels of the USDT reader are the list of the rows' transactions.
use mathlib.Core.List.{append_assoc}
use banknote_chain.Base.{
  ◌≡◌, refl, sym, ap, ap₂, ◌∙◌, List, [], ◌∷◌, ◌++◌, map, length, Option, none, some, Bool, true,
  false, inl, inr, subst, leb, Bool-cases,
}
use banknote_chain.Base.Go.{Address, Bytes}
use banknote_chain.Base.Int.{ℤ}
use banknote_chain.Generator.{UsdtReader, get_tx}
use banknote_chain.Generator.Usdt.{
  UsdtCsvEntity, Pipeline, new_pipeline, Work, send_row, close_rows, convert, send_tx, close_txs,
  receive_from, usdt_tx, send_rows, close_csv, convert_row, send_converted, close_converted, work,
  Runs, here, works, gets, channel_places,
}
use banknote_chain.Tx.{BanknoteTx}

abbrev option_list : {A : Type 0} → Option A → List A
option_list none = []
option_list (some a) = a ∷ []

-- Calls of `GetTx` on a list of transactions, with what they return.
pub data Calls : UsdtReader → List (Option BanknoteTx) → UsdtReader → Type 0 where
  start : {r : UsdtReader} → Calls r [] r
  call :
      {r r' : UsdtReader} {got : List (Option BanknoteTx)}
      → Calls r got r'
      → Calls r (got ++ (get_tx r').0 ∷ []) (get_tx r').1

module _ (hex_to_address : Bytes → Address) (unread : Bytes → ℤ) where
  -- What is yet to come, from the channel of transactions back to the file.
  abbrev pub yet : Pipeline → UsdtReader
  yet s =
      s.txs_chan
      ++ (option_list s.in_hand
          ++ (map (usdt_tx hex_to_address unread) s.csv_entity_chan
              ++ map (usdt_tx hex_to_address unread) s.csv_rows))

  -- A channel that is closed will get nothing any more.
  pub record IsClosedLast (s : Pipeline) : Type 0 where
    pub rows_sent : s.csv_entity_closed ≡ true → s.csv_rows ≡ []
    pub txs_sent :
        s.txs_closed ≡ true → (s.csv_rows ≡ []) × (s.csv_entity_chan ≡ []) × (s.in_hand ≡ none)

  abbrev Keeps : Pipeline → Pipeline → Type 0
  Keeps s t = (yet t ≡ yet s) × IsClosedLast t

  map-snoc :
      {A B : Type 0} (f : A → B) (xs : List A) (x : A) (ys : List A)
      → map f (xs ++ x ∷ []) ++ map f ys ≡ map f xs ++ map f (x ∷ ys)
  map-snoc f [] x ys = refl
  map-snoc f (z ∷ xs) x ys = ap (λ r. f z ∷ r) (map-snoc f xs x ys)

  Keeps-subst : (s : Pipeline) {t u : Pipeline} → some u ≡ some t → Keeps s u → Keeps s t
  Keeps-subst s {t} {u} e k = let same : u ≡ t = cc in subst (Keeps s) same k

  send_rows-Keeps :
      (s t : Pipeline) (rows : List UsdtCsvEntity)
      → rows ≡ s.csv_rows
      → IsClosedLast s
      → send_rows hex_to_address unread s rows ≡ some t
      → Keeps s t
  unfolding send_rows
  send_rows-Keeps s t [] q v h = absurd (cc)
  send_rows-Keeps s t (e ∷ rows) q v h =
      elim (Bool-cases (leb channel_places (length s.csv_entity_chan))) [
        | inl full ↦ let h' : none ≡ some t = rw full at h in absurd (cc)
        | inr room ↦
            let sent : Pipeline = record s {
              csv_rows = rows;
              csv_entity_chan = s.csv_entity_chan ++ e ∷ [];
            } in
            let h' : some sent ≡ some t = rw room at h in
            Keeps-subst s h' (
              ap (λ l. s.txs_chan ++ (option_list s.in_hand ++ l))
                  (map-snoc (usdt_tx hex_to_address unread) s.csv_entity_chan e rows
                    ∙ ap
                        (λ r.
                          map (usdt_tx hex_to_address unread) s.csv_entity_chan
                          ++ map (usdt_tx hex_to_address unread) r)
                        q),
              record {
                rows_sent = λ c. let none_left = v.rows_sent c in absurd (cc);
                txs_sent = λ c. let none_left = (v.txs_sent c).0 in absurd (cc);
              },
            )
      ]

  close_csv-Keeps :
      (s t : Pipeline) (rows : List UsdtCsvEntity) (closed : Bool)
      → rows ≡ s.csv_rows
      → IsClosedLast s
      → close_csv hex_to_address unread s rows closed ≡ some t
      → Keeps s t
  unfolding close_csv
  close_csv-Keeps s t [] false q v h =
      Keeps-subst s h (refl, record { rows_sent = λ c. sym q; txs_sent = v.txs_sent })
  close_csv-Keeps s t [] true q v h = absurd (cc)
  close_csv-Keeps s t (e ∷ rows) closed q v h = absurd (cc)

  convert_row-Keeps :
      (s t : Pipeline) (hand : Option BanknoteTx) (rows : List UsdtCsvEntity)
      → hand ≡ s.in_hand
      → rows ≡ s.csv_entity_chan
      → IsClosedLast s
      → convert_row hex_to_address unread s hand rows ≡ some t
      → Keeps s t
  unfolding convert_row
  convert_row-Keeps s t none (e ∷ rest) qh q v h = Keeps-subst s h (
    ap₂
        (λ hand rows.
          s.txs_chan
          ++ (option_list hand
              ++ (map (usdt_tx hex_to_address unread) rows
                  ++ map (usdt_tx hex_to_address unread) s.csv_rows)))
        qh q,
    record {
      rows_sent = v.rows_sent;
      txs_sent = λ c. let none_left = (v.txs_sent c).1 in absurd (cc);
    },
  )
  convert_row-Keeps s t none [] qh q v h = absurd (cc)
  convert_row-Keeps s t (some tx) rows qh q v h = absurd (cc)

  send_converted-Keeps :
      (s t : Pipeline) (hand : Option BanknoteTx)
      → hand ≡ s.in_hand
      → IsClosedLast s
      → send_converted hex_to_address unread s hand ≡ some t
      → Keeps s t
  unfolding send_converted
  send_converted-Keeps s t none qh v h = absurd (cc)
  send_converted-Keeps s t (some tx) qh v h =
      elim (Bool-cases (leb channel_places (length s.txs_chan))) [
        | inl full ↦ let h' : none ≡ some t = rw full at h in absurd (cc)
        | inr room ↦
            let sent : Pipeline = record s { in_hand = none; txs_chan = s.txs_chan ++ tx ∷ [] } in
            let h' : some sent ≡ some t = rw room at h in
            let later =
              map (usdt_tx hex_to_address unread) s.csv_entity_chan
              ++ map (usdt_tx hex_to_address unread) s.csv_rows in
            Keeps-subst s h' (
              append_assoc s.txs_chan (tx ∷ []) later
                  ∙ ap (λ hand. s.txs_chan ++ (option_list hand ++ later)) qh,
              record {
                rows_sent = v.rows_sent;
                txs_sent = λ c. let none_left = (v.txs_sent c).2 in absurd (cc);
              },
            )
      ]

  close_converted-Keeps :
      (s t : Pipeline) (hand : Option BanknoteTx) (rows : List UsdtCsvEntity)
      (csv_closed closed : Bool)
      → hand ≡ s.in_hand
      → rows ≡ s.csv_entity_chan
      → csv_closed ≡ s.csv_entity_closed
      → IsClosedLast s
      → close_converted hex_to_address unread s hand rows csv_closed closed ≡ some t
      → Keeps s t
  unfolding close_converted
  close_converted-Keeps s t none [] true false qh q qc v h = Keeps-subst s h (
    refl,
    record { rows_sent = v.rows_sent; txs_sent = λ c. (v.rows_sent (sym qc), sym q, sym qh) },
  )
  close_converted-Keeps s t none [] true true qh q qc v h = absurd (cc)
  close_converted-Keeps s t none [] false closed qh q qc v h = absurd (cc)
  close_converted-Keeps s t none (e ∷ rest) csv_closed closed qh q qc v h = absurd (cc)
  close_converted-Keeps s t (some tx) rows csv_closed closed qh q qc v h = absurd (cc)

  work-Keeps :
      (w : Work) (s t : Pipeline)
      → IsClosedLast s
      → work hex_to_address unread w s ≡ some t
      → Keeps s t
  unfolding work
  work-Keeps send_row s t v h = send_rows-Keeps s t s.csv_rows refl v h
  work-Keeps close_rows s t v h = close_csv-Keeps s t s.csv_rows s.csv_entity_closed refl v h
  work-Keeps convert s t v h = convert_row-Keeps s t s.in_hand s.csv_entity_chan refl refl v h
  work-Keeps send_tx s t v h = send_converted-Keeps s t s.in_hand refl v h
  work-Keeps close_txs s t v h =
      close_converted-Keeps s t s.in_hand s.csv_entity_chan s.csv_entity_closed s.txs_closed refl
        refl refl v h

  -- A call of `GetTx` that returns gives what the list gives.
  receive_from-get_tx :
      (s t : Pipeline) (txs : List BanknoteTx) (closed : Bool) (tx : Option BanknoteTx)
      → txs ≡ s.txs_chan
      → closed ≡ s.txs_closed
      → IsClosedLast s
      → receive_from s txs closed ≡ some (tx, t)
      → (get_tx (yet s) ≡ (tx, yet t)) × IsClosedLast t
  unfolding receive_from get_tx
  receive_from-get_tx s t [] false tx q qc v h = absurd (cc)
  receive_from-get_tx s t [] true tx q qc v h =
      let (rows, chan, hand) = v.txs_sent (sym qc) in
      let nothing : yet s ≡ [] = rw (← q, rows, chan, hand) refl in
      let same : ◌≡◌ {A = Option BanknoteTx × Pipeline} (none, s) (tx, t) = cc in
      subst (λ r. (get_tx (yet s) ≡ (r.0, yet r.1)) × IsClosedLast r.1) same (rw nothing refl, v)
  receive_from-get_tx s t (x ∷ rest) closed tx q qc v h =
      let same : ◌≡◌ {A = Option BanknoteTx × Pipeline} (some x, record s { txs_chan = rest })
          (tx, t) =
        cc in
      subst (λ r. (get_tx (yet s) ≡ (r.0, yet r.1)) × IsClosedLast r.1) same
        (rw (← q) refl, record { rows_sent = v.rows_sent; txs_sent = v.txs_sent })

  Runs-follows :
      (rows : List UsdtCsvEntity) (got : List (Option BanknoteTx)) (t : Pipeline)
      → Runs hex_to_address unread (new_pipeline rows) got t
      → Calls (map (usdt_tx hex_to_address unread) rows) got (yet t) × IsClosedLast t
  Runs-follows rows got t here =
      (start, record { rows_sent = λ c. absurd (cc); txs_sent = λ c. absurd (cc) })
  Runs-follows rows got u (works {t} w before h) =
      let (calls, v) = Runs-follows rows got t before in
      let (same, v') = work-Keeps w t u v h in
      (subst (Calls (map (usdt_tx hex_to_address unread) rows) got) (sym same) calls, v')
  Runs-follows rows _ u (gets {got} {t} tx before h) =
      let (calls, v) = Runs-follows rows got t before in
      let (given, v') = receive_from-get_tx t u t.txs_chan t.txs_closed tx refl refl v h in
      (
        subst (λ r. Calls (map (usdt_tx hex_to_address unread) rows) (got ++ r.0 ∷ []) r.1) given
            (call calls),
        v',
      )

  -- In every interleaving of the two goroutines with calls of `GetTx`, the calls return what they
  -- return on the list of the rows' transactions: these in the order of the rows, each once, and
  -- nil only after the last.
  pub Runs-Calls :
      (rows : List UsdtCsvEntity) (got : List (Option BanknoteTx)) (t : Pipeline)
      → Runs hex_to_address unread (new_pipeline rows) got t
      → Calls (map (usdt_tx hex_to_address unread) rows) got (yet t)
  Runs-Calls rows got t run = (Runs-follows rows got t run).0
