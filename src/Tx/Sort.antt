-- ===== src/Tx/Sort.antt =====
-- banknoteChain/banknote_transaction.go, `SortBanknoteTxs`: the greatest hash stands first.
pub mod Laws
use banknote_chain.Base.{Bool, List, [], ◌∷◌, ltb, if◌then◌else◌}
use banknote_chain.Tx.{BanknoteTx}

-- `TxList.Less` on the transactions at the two positions
unfoldable pub less : BanknoteTx → BanknoteTx → Bool
less a b = ltb b.tx_hash a.tx_hash

-- `sort.Sort` promises an ordering by `Less`, and nothing about equal elements. Insertion sort
-- is one such ordering.
unfoldable pub insert_sorted : BanknoteTx → List BanknoteTx → List BanknoteTx
insert_sorted x [] = x ∷ []
insert_sorted x (y ∷ ys) =
    let later = y ∷ insert_sorted x ys in if less y x then later else x ∷ y ∷ ys

unfoldable pub sort_banknote_txs : List BanknoteTx → List BanknoteTx
sort_banknote_txs [] = []
sort_banknote_txs (x ∷ xs) = insert_sorted x (sort_banknote_txs xs)
