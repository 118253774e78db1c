-- ===== src/Generator/Origin.antt =====
-- What the generator makes of the USDT dataset.
use banknote_chain.Base.{
  ℕ, zero, suc, ◌≡◌, refl, ap, List, [], ◌∷◌, ◌++◌, map, Option, none, some, length, take, drop,
}
use banknote_chain.Generator.{UsdtReader, get_tx, get_txs, origin_round, origin_rounds}
use banknote_chain.Tx.{BanknoteTx}

-- The transactions of the dataset two by two.
abbrev pub unpaired : List (BanknoteTx × BanknoteTx) → List BanknoteTx
unpaired [] = []
unpaired (p ∷ ps) = p.0 ∷ p.1 ∷ unpaired ps

abbrev pub second : BanknoteTx × BanknoteTx → Option BanknoteTx
second p = some p.1

-- A block of as many rounds as the dataset's next transactions have pairs holds the second of each
-- pair, and the first of each is dropped.
pub origin_rounds-drop :
    (pairs : List (BanknoteTx × BanknoteTx)) (rest : UsdtReader)
    → origin_rounds (length pairs) (unpaired pairs ++ rest) ≡ (map second pairs, rest)
unfolding origin_rounds origin_round get_tx
origin_rounds-drop [] rest = refl
origin_rounds-drop (p ∷ ps) rest = ap (λ r. (some p.1 ∷ r.0, r.1)) (origin_rounds-drop ps rest)

-- On a dataset with one transaction left, a round appends nil.
pub origin_round-nil : (tx : BanknoteTx) → origin_round (tx ∷ []) ≡ (none ∷ [], [])
unfolding origin_round get_tx
origin_round-nil tx = refl

-- `GetTxs` gives the next transactions in their order, as many as were asked for or all that are
-- left.
pub get_txs-takes : (n : ℕ) (r : UsdtReader) → get_txs n r ≡ (take n r, drop n r)
unfolding get_txs
get_txs-takes zero r = refl
get_txs-takes (suc n) [] = refl
get_txs-takes (suc n) (tx ∷ r) = ap (λ z. (tx ∷ z.0, z.1)) (get_txs-takes n r)
