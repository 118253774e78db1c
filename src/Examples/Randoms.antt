-- ===== src/Examples/Randoms.antt =====
-- The random reader at concrete draws.
use banknote_chain.Base.{ℕ, ◌≡◌, List, [], ◌∷◌, All, length, arith}
use banknote_chain.Base.Go.{Bytes}
use banknote_chain.Base.Outcome.{Returns}
use banknote_chain.Examples.Ledgers.Inputs.{two_ledgers}
use banknote_chain.Generator.{banknote_rounds}
use banknote_chain.Generator.Random.{TxDraw, new_tx_generator_from_random, random_round}
use banknote_chain.Generator.Random.Transfers.{Transfers, random_round-Transfers}

abbrev number_of : Bytes → ℕ
number_of text = length text

abbrev two_draws : List (List ℕ × List ℕ)
two_draws = (3 ∷ 4 ∷ [], 5 ∷ []) ∷ (6 ∷ [], 7 ∷ 8 ∷ []) ∷ []

abbrev same_draw : ℕ → TxDraw
same_draw n = record { index = n; owner_digits = n ∷ []; hash_digits = n ∷ 99 ∷ [] }

random_round-Transfers_example :
    Returns (new_tx_generator_from_random number_of number_of two_ledgers two_draws) λ bns.
      (length bns ≡ 2)
      × Returns
          (banknote_rounds (random_round number_of number_of same_draw bns) 4 0)
          λ r. (length r.0 ≡ 4) × All (Transfers bns) r.0 × (r.1 ≡ 4)
random_round-Transfers_example =
    random_round-Transfers number_of number_of two_ledgers two_draws same_draw 0 (omega arith)
      (omega arith)
