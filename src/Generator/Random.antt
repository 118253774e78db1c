-- ===== src/Generator/Random.antt =====
-- txGenerator/banknote_dataset_random_reader.go: the reader of the mode "scalability".
pub mod Transfers
use banknote_chain.Base.{ℕ, suc, ◌+◌, List, [], ◌∷◌, Option, some, length, get_elem?}
use banknote_chain.Base.Go.{Address, Bytes, Hash}
use banknote_chain.Base.Int.{pos}
use banknote_chain.Base.Outcome.{Outcome, ok, index_out_of_range, require, ◌>>=◌}
use banknote_chain.Addresses.{intn, random_address, random_hash}
use banknote_chain.Banknote.{Banknote, new_banknote}
use banknote_chain.Config.{Config}
use banknote_chain.Tx.{BanknoteTx, bt, zero_tx}

-- `randomBanknotes`
abbrev pub BanknoteRandomReader : Type 0
BanknoteRandomReader = List Banknote

-- What one call of `GetTx` draws: the index, and the digits of the owner and of the hash.
pub record TxDraw : Type 0 where
  pub index : ℕ
  pub owner_digits : List ℕ
  pub hash_digits : List ℕ

module _ (hex_to_address : Bytes → Address) (hex_to_hash : Bytes → Hash) where
  -- `GetTx`
  unfoldable pub random_tx : BanknoteRandomReader → TxDraw → Outcome BanknoteTx
  random_tx banknotes draw = do
    i ← intn (length banknotes) draw.index
    bn ← require index_out_of_range (get_elem? banknotes i)
    new_owner ← random_address hex_to_address draw.owner_digits
    hash ← random_hash hex_to_hash draw.hash_digits
    ok (record zero_tx {
      tx_hash = hash;
      to = new_owner;
      banknote_tx_type = bt;
      amount = bn.value;
      banknote_hash = bn.banknote_hash;
    })

  -- `NewTxGeneratorFromRandom`: for each banknote the digits of its hash and of its owner.
  unfoldable pub new_tx_generator_from_random :
      Config → List (List ℕ × List ℕ) → Outcome BanknoteRandomReader
  new_tx_generator_from_random config [] = ok []
  new_tx_generator_from_random config ((hash_digits, owner_digits) ∷ draws) = do
    hash ← random_hash hex_to_hash hash_digits
    owner ← random_address hex_to_address owner_digits
    bn ← new_banknote hash (some (pos 0)) owner config
    banknotes ← new_tx_generator_from_random config draws
    ok (bn ∷ banknotes)

  -- One round of the generator in the mode "scalability"; `source` has the draws of the calls, of
  -- which `n` were used.
  unfoldable pub random_round :
      (ℕ → TxDraw) → BanknoteRandomReader → ℕ → Outcome (List BanknoteTx × ℕ)
  random_round source banknotes n = random_tx banknotes (source n) >>= λ tx. ok (tx ∷ [], suc n)
