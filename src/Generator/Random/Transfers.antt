-- ===== src/Generator/Random/Transfers.antt =====
-- What the mode "scalability" makes blocks of.
use banknote_chain.Base.{
  ℕ, zero, suc, ◌+◌, ◌%◌, ◌<◌, ◌≡◌, refl, ap, List, [], ◌∷◌, All, length, get_elem?, some, subst,
  arith,
}
use banknote_chain.Base.Go.{Address, Bytes, Hash}
use banknote_chain.Base.Int.{pos}
use banknote_chain.Base.Outcome.{ok, Returns}
use banknote_chain.Addresses.{intn}
use banknote_chain.Addresses.Random.{get_elem?-lt, random_address-returns, random_hash-returns}
use banknote_chain.Banknote.{Banknote, new_banknote, get_ledger_hash_by_id-eq, ledger_of}
use banknote_chain.Config.{Config}
use banknote_chain.Generator.{banknote_rounds}
use banknote_chain.Generator.Random.{
  BanknoteRandomReader, TxDraw, random_tx, new_tx_generator_from_random, random_round,
}
use banknote_chain.Tx.{BanknoteTx, bt, zero_tx}

abbrev IsWorthless : Banknote → Type 0
IsWorthless b = b.value ≡ some (pos 0)

-- A transfer of nothing that names one of the banknotes.
abbrev pub Transfers : BanknoteRandomReader → BanknoteTx → Type 0
Transfers banknotes tx =
    (tx.banknote_tx_type ≡ bt)
    × (tx.amount ≡ some (pos 0))
    × ((i : ℕ) × (b : Banknote) × (get_elem? banknotes i ≡ some b)
        × (tx.banknote_hash ≡ b.banknote_hash))

get_elem?-All :
    {A : Type 0} (P : A → Type 0) (xs : List A) (i : ℕ) (x : A)
    → All P xs
    → get_elem? xs i ≡ some x
    → P x
get_elem?-All P [] i x h e = absurd (cc)
get_elem?-All P (y ∷ xs) zero x h e = let same : y ≡ x = cc in subst P same h.0
get_elem?-All P (y ∷ xs) (suc i) x h e = get_elem?-All P xs i x h.1 e

intn-ok : (n draw : ℕ) → 0 < n → intn n draw ≡ ok (draw % n)
intn-ok n draw h = ground arith

module _ (hex_to_address : Bytes → Address) (hex_to_hash : Bytes → Hash) where
  new_tx_generator_from_random-makes :
      (config : Config) (draws : List (List ℕ × List ℕ))
      → 0 < config.banknote_chain_pledger_number
      → Returns
          (new_tx_generator_from_random hex_to_address hex_to_hash config draws)
          λ bns. (length bns ≡ length draws) × All IsWorthless bns
  unfolding new_tx_generator_from_random new_banknote
  new_tx_generator_from_random-makes config [] p = ([], refl, (refl, tt))
  new_tx_generator_from_random-makes config ((hd, od) ∷ draws) p =
      let (hash, hashed, _) = random_hash-returns hex_to_hash hd in
      let (owner, owned, _) = random_address-returns hex_to_address od in
      let (bns, run, (len, all)) = new_tx_generator_from_random-makes config draws p in
      let ledger = get_ledger_hash_by_id-eq config.banknote_chain_pledger_number hash p in
      let made : Banknote = record {
        banknote_hash = hash;
        value = some (pos 0);
        owner = owner;
        ledger_id = ledger_of config.banknote_chain_pledger_number hash;
        turn_over_count = 0;
      } in
      (made ∷ bns, rw (hashed, owned, ledger, run) refl, (ap suc len, (refl, all)))

  random_tx-Transfers :
      (bns : BanknoteRandomReader) (draw : TxDraw)
      → 0 < length bns
      → All IsWorthless bns
      → Returns (random_tx hex_to_address hex_to_hash bns draw) (Transfers bns)
  unfolding random_tx
  random_tx-Transfers bns draw p all =
      let i = draw.index % length bns in
      let (b, found) = get_elem?-lt bns i (grind arith) in
      let (owner, owned, _) = random_address-returns hex_to_address draw.owner_digits in
      let (hash, hashed, _) = random_hash-returns hex_to_hash draw.hash_digits in
      let tx : BanknoteTx = record zero_tx {
        tx_hash = hash;
        to = owner;
        banknote_tx_type = bt;
        amount = b.value;
        banknote_hash = b.banknote_hash;
      } in
      (
        tx,
        rw (intn-ok (length bns) draw.index p, found, owned, hashed) refl,
        (refl, get_elem?-All IsWorthless bns i b all found, (i, b, found, refl)),
      )

  rounds-Transfers :
      (source : ℕ → TxDraw) (bns : BanknoteRandomReader) (rounds n : ℕ)
      → 0 < length bns
      → All IsWorthless bns
      → Returns
          (banknote_rounds (random_round hex_to_address hex_to_hash source bns) rounds n)
          λ r. (length r.0 ≡ rounds) × All (Transfers bns) r.0 × (r.1 ≡ n + rounds)
  unfolding banknote_rounds random_round
  rounds-Transfers source bns zero n p all = (([], n), refl, (refl, tt, omega arith))
  rounds-Transfers source bns (suc rounds) n p all =
      let (tx, made, is_transfer) = random_tx-Transfers bns (source n) p all in
      let (r, run, (len, rest, used)) = rounds-Transfers source bns rounds (suc n) p all in
      ((tx ∷ r.0, r.1), rw (made, run) refl, (ap suc len, (is_transfer, rest), omega (arith, used)))

  -- With at least one ledger and a positive block size, the random reader is made, and the rounds of
  -- a block return as many transactions, whatever is drawn. Each is of type BT, moves the amount 0 and
  -- names a banknote of the reader.
  pub random_round-Transfers :
      (config : Config) (draws : List (List ℕ × List ℕ)) (source : ℕ → TxDraw) (n : ℕ)
      → 0 < config.banknote_chain_pledger_number
      → 0 < length draws
      → Returns (new_tx_generator_from_random hex_to_address hex_to_hash config draws) λ bns.
        (length bns ≡ length draws)
        × Returns
            (banknote_rounds
              (random_round hex_to_address hex_to_hash source bns)
              config.tx_count_per_block
              n)
            λ r.
              (length r.0 ≡ config.tx_count_per_block)
              × All (Transfers bns) r.0
              × (r.1 ≡ n + config.tx_count_per_block)
  random_round-Transfers config draws source n p some_draws =
      let (bns, made, (len, all)) = new_tx_generator_from_random-makes config draws p in
      (
        bns,
        made,
        (len, rounds-Transfers source bns config.tx_count_per_block n (omega (arith, len)) all),
      )
