-- ===== src/Generator.antt =====
-- chain/block_generator.go: how the transactions of a block are taken from a dataset.
pub mod Dataset
pub mod Origin
pub mod Usdt
pub mod Random
use banknote_chain.Base.{ℕ, zero, suc, List, [], ◌∷◌, ◌++◌, map, Option, none, some}
use banknote_chain.Base.Outcome.{Outcome, ok, ◌>>=◌}
use banknote_chain.Config.{ExpMode, origin, banknote, scalability, other_exp_mode}
use banknote_chain.Tx.{BanknoteTx}

-- The transactions that the channel of the USDT reader has yet to give; it is closed after the last.
abbrev pub UsdtReader : Type 0
UsdtReader = List BanknoteTx

-- `GetTx`: nil on a closed channel.
unfoldable pub get_tx : UsdtReader → Option BanknoteTx × UsdtReader
get_tx [] = (none, [])
get_tx (tx ∷ r) = (some tx, r)

-- `GetTxs`, which ends at the end of the channel.
unfoldable pub get_txs : ℕ → UsdtReader → List BanknoteTx × UsdtReader
get_txs zero r = ([], r)
get_txs (suc n) [] = ([], [])
get_txs (suc n) (tx ∷ r) = let rest = get_txs n r in (tx ∷ rest.0, rest.1)

-- One round in the mode "origin": one transaction is taken for the test, and another is appended.
unfoldable pub origin_round : UsdtReader → List (Option BanknoteTx) × UsdtReader
origin_round r =
    let (tx, r₁) = get_tx r in
    elim tx [ none ↦ ([], r₁) | some _ ↦ let (appended, r₂) = get_tx r₁ in (appended ∷ [], r₂) ]

unfoldable pub origin_rounds : ℕ → UsdtReader → List (Option BanknoteTx) × UsdtReader
origin_rounds zero r = ([], r)
origin_rounds (suc n) r =
    let (txs, r₁) = origin_round r in let later = origin_rounds n r₁ in (txs ++ later.0, later.1)

-- The rounds in a mode whose reader gives a list of transactions, or panics: "banknote", and
-- "scalability" with one transaction.
unfoldable pub banknote_rounds :
    {R : Type 0} → (R → Outcome (List BanknoteTx × R)) → ℕ → R → Outcome (List BanknoteTx × R)
banknote_rounds read zero r = ok ([], r)
banknote_rounds read (suc n) r = do
  (txs, r₁) ← read r
  (later, r₂) ← banknote_rounds read n r₁
  ok (txs ++ later, r₂)
