-- ===== src/Examples/Datasets.antt =====
-- The dataset readers at concrete inputs.
use banknote_chain.Base.{ℕ, ◌≡◌, refl, List, [], ◌∷◌, map, some, All, false}
use banknote_chain.Base.Int.{pos}
use banknote_chain.Examples.Ledgers.Inputs.{tx_of}
use banknote_chain.Generator.{origin_rounds}
use banknote_chain.Generator.Dataset.Batches.{Group, IsGroup, body, layout, batches, batches-layout}
use banknote_chain.Generator.Origin.{origin_rounds-drop}
use banknote_chain.Tx.{BanknoteTx, nt}

abbrev usdt : ℕ → BanknoteTx
usdt n = tx_of nt n 1 2 0 (pos n)

origin_rounds-drop_example :
    origin_rounds 2 (usdt 1 ∷ usdt 2 ∷ usdt 3 ∷ usdt 4 ∷ usdt 5 ∷ [])
    ≡ (some (usdt 2) ∷ some (usdt 4) ∷ [], usdt 5 ∷ [])
origin_rounds-drop_example =
    origin_rounds-drop ((usdt 1, usdt 2) ∷ (usdt 3, usdt 4) ∷ []) (usdt 5 ∷ [])

abbrev groups : List Group
groups =
    record { separator = 126 ∷ 10 ∷ []; first = 97 ∷ 10 ∷ []; others = (98 ∷ 10 ∷ []) ∷ [] }
    ∷ record { separator = 126 ∷ 49 ∷ 10 ∷ []; first = 99 ∷ 10 ∷ []; others = [] }
    ∷ []

groups_below : All IsGroup groups
groups_below = ((refl, (refl, (refl, tt))), ((refl, (refl, tt)), tt))

batches-layout_example :
    batches 2 (record { lines = layout groups; is_eof = false; count_line = 0 }) ≡ map body groups
batches-layout_example = batches-layout groups 0 groups_below
