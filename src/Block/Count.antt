-- ===== src/Block/Count.antt =====
-- The transaction count of a block, against the ledgers that it lists.
use native.Mathlib.Numerals.{unary_clauses}
use banknote_chain.Base.{
  ℕ, zero, suc, ◌+◌, ◌%◌, ◌≡◌, ◌∙◌, refl, ap, sym, List, [], ◌∷◌, length, get_elem?, get_elem?-some,
  arith, drop, ◌<◌, ◌≤◌, some, ◌++◌,
}
use banknote_chain.Base.Outcome.{Returns}
use banknote_chain.Base.Go.{Hash, Bytes, u64_mod}
use banknote_chain.Block.{BanknoteBlock, Summary, sum_ledgers, new_banknote_block, hash_bytes}
use banknote_chain.Tx.{BanknoteTx}

-- The number of transactions in all ledgers.
abbrev pub size : List (List BanknoteTx) → ℕ
size [] = 0
size (l ∷ ls) = length l + size ls

size-drop :
    (ledgers : List (List BanknoteTx)) (i : ℕ) (l : List BanknoteTx)
    → get_elem? ledgers i ≡ some l
    → size (drop i ledgers) ≡ length l + size (drop (i + 1) ledgers)
size-drop [] i l e = cc
size-drop (x ∷ xs) zero l e = ground arith
size-drop (x ∷ xs) (suc i) l e = simp unary_clauses (simp unary_clauses at (size-drop xs i l e))

size-drop_all :
    (ledgers : List (List BanknoteTx)) (i : ℕ) → length ledgers ≤ i → size (drop i ledgers) ≡ 0
size-drop_all [] zero h = refl
size-drop_all [] (suc i) h = refl
size-drop_all (x ∷ xs) zero h = omega arith
size-drop_all (x ∷ xs) (suc i) h = size-drop_all xs i (omega arith)

mod_step : (c l r : ℕ) → ((c + l) % u64_mod + r) % u64_mod ≡ (c + (l + r)) % u64_mod
mod_step c l r = omega arith

mod_start : (l r : ℕ) → (l % u64_mod + r) % u64_mod ≡ (l + r) % u64_mod
mod_start l r = omega arith

mod_none : (c r : ℕ) → c < u64_mod → r ≡ 0 → c ≡ (c + r) % u64_mod
mod_none c r h e = omega arith

mod_lt : (c : ℕ) → c % u64_mod < u64_mod
mod_lt c = omega arith

-- The loop's count, from any round on.
sum_ledgers-count :
    (roots : List Hash) (ledgers : List (List BanknoteTx)) (rounds i : ℕ) (s : Summary)
    → rounds + i ≡ length ledgers
    → length ledgers ≤ length roots
    → s.tx_count < u64_mod
    → Returns
        (sum_ledgers roots ledgers rounds i s)
        (λ s'. s'.tx_count ≡ (s.tx_count + size (drop i ledgers)) % u64_mod)
unfolding sum_ledgers
sum_ledgers-count roots ledgers zero i s e h b =
    (s, refl, mod_none s.tx_count (size (drop i ledgers)) b (size-drop_all ledgers i (omega arith)))
sum_ledgers-count roots ledgers (suc rounds) i s e h b =
    let (root, root_eq) = get_elem?-some roots i (omega arith) in
    let (l, l_eq) = get_elem?-some ledgers i (omega arith) in
    let next : Summary = record {
      block_hash_data = s.block_hash_data ++ hash_bytes root;
      tx_count = (s.tx_count + length l) % u64_mod;
    } in
    let (s', run, count) =
      sum_ledgers-count roots ledgers rounds (i + 1) next (omega arith) h
        (mod_lt (s.tx_count + length l)) in
    (
      s',
      (rw root_eq (rw l_eq run)),
      count
          ∙ mod_step s.tx_count (length l) (size (drop (i + 1) ledgers))
          ∙ ap (λ z. (s.tx_count + z) % u64_mod) (sym (size-drop ledgers i l l_eq)),
    )

-- With a root and a list of transactions for each ledger, `NewBanknoteBlock` returns a block with the
-- given number, ledgers and roots, and its count is the number of transactions listed in the core
-- ledger and all peripheral ledgers, modulo 2^64.
pub new_banknote_block-counts :
    (keccak256 : Bytes → Hash) (ledgers : List (List BanknoteTx)) (normal_txs : List BanknoteTx)
    (block_number : ℕ) (all_tx_hash croot : Hash) (proots : List Hash)
    → length ledgers ≤ length proots
    → Returns
        (new_banknote_block keccak256
          (length ledgers)
          ledgers
          normal_txs
          block_number
          all_tx_hash
          croot
          proots)
        (λ b.
          (b.banknote_tx_count ≡ (length normal_txs + size ledgers) % u64_mod)
          × (b.block_number ≡ block_number)
          × (b.c_ledger ≡ normal_txs)
          × (b.p_ledgers ≡ ledgers)
          × (b.cledger_state_root ≡ croot)
          × (b.pledger_state_roots ≡ proots))
unfolding new_banknote_block
new_banknote_block-counts keccak256 ledgers normal_txs block_number all_tx_hash croot proots h =
    let start : Summary = record {
      block_hash_data = hash_bytes all_tx_hash ++ hash_bytes croot;
      tx_count = length normal_txs % u64_mod;
    } in
    let (s, run, count) =
      sum_ledgers-count proots ledgers (length ledgers) 0 start (omega arith) h
        (mod_lt (length normal_txs)) in
    let b : BanknoteBlock = record {
      block_number = block_number;
      banknote_block_hash = keccak256 s.block_hash_data;
      tx_hash = 0;
      cledger_state_root = croot;
      pledger_state_roots = proots;
      c_ledger = normal_txs;
      p_ledgers = ledgers;
      banknote_tx_count = s.tx_count;
    } in
    (
      b,
      rw run refl,
      (count ∙ mod_start (length normal_txs) (size ledgers), refl, refl, refl, refl, refl),
    )
