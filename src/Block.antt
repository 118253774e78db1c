-- ===== src/Block.antt =====
-- banknoteChain/banknote_block.go: the banknote part of a block.
pub mod Count
use banknote_chain.Base.{
  ℕ, zero, suc, ◌+◌, ◌%◌, ◌/◌, List, [], ◌∷◌, ◌++◌, length, get_elem?, replicate,
}
use banknote_chain.Base.Outcome.{Outcome, ok, index_out_of_range, require, ◌>>=◌}
use banknote_chain.Base.Go.{Hash, Bytes, u64_mod}
use banknote_chain.Tx.{BanknoteTx}

pub record BanknoteBlock : Type 0 where
  pub block_number : ℕ
  pub banknote_block_hash : Hash
  pub tx_hash : Hash
  pub cledger_state_root : Hash
  pub pledger_state_roots : List Hash
  pub c_ledger : List BanknoteTx
  pub p_ledgers : List (List BanknoteTx)
  pub banknote_tx_count : ℕ

-- The low `k` bytes of a number, most significant first; `Hash.Bytes()` has 32.
unfoldable pub be_bytes : ℕ → ℕ → Bytes
be_bytes zero h = []
be_bytes (suc k) h = be_bytes k (h / 256) ++ h % 256 ∷ []

abbrev pub hash_bytes : Hash → Bytes
hash_bytes h = be_bytes 32 h

-- What the loop over the ledgers builds up: the bytes to hash, and a uint64 count.
pub record Summary : Type 0 where
  pub block_hash_data : Bytes
  pub tx_count : ℕ

-- The rounds from `i` on, `rounds` of them.
unfoldable pub sum_ledgers :
    List Hash → List (List BanknoteTx) → (rounds i : ℕ) → Summary → Outcome Summary
sum_ledgers roots ledgers zero i s = ok s
sum_ledgers roots ledgers (suc rounds) i s =
    require index_out_of_range (get_elem? roots i) >>= λ root.
    require index_out_of_range (get_elem? ledgers i) >>= λ ledger.
    sum_ledgers roots ledgers rounds (i + 1) (record {
      block_hash_data = s.block_hash_data ++ hash_bytes root;
      tx_count = (s.tx_count + length ledger) % u64_mod;
    })

-- `keccak256` is go-ethereum's `crypto.Keccak256Hash`. `TxHash` is left at its zero value.
unfoldable pub new_banknote_block :
    (keccak256 : Bytes → Hash)
    → ℕ
    → List (List BanknoteTx)
    → List BanknoteTx
    → ℕ
    → Hash
    → Hash
    → List Hash
    → Outcome BanknoteBlock
new_banknote_block keccak256 pledger_number ledgers normal_txs block_number all_tx_hash croot
      proots =
    do
      s ← sum_ledgers proots ledgers pledger_number 0 (record {
        block_hash_data = hash_bytes all_tx_hash ++ hash_bytes croot;
        tx_count = length normal_txs % u64_mod;
      })
      ok (record {
        block_number = block_number;
        banknote_block_hash = keccak256 s.block_hash_data;
        tx_hash = 0;
        cledger_state_root = croot;
        pledger_state_roots = proots;
        c_ledger = normal_txs;
        p_ledgers = ledgers;
        banknote_tx_count = s.tx_count;
      })

unfoldable pub new_genisis_banknote_block : ℕ → List Hash → BanknoteBlock
new_genisis_banknote_block pledger_number roots = record {
  block_number = 0;
  banknote_block_hash = 0;
  tx_hash = 0;
  cledger_state_root = 0;
  pledger_state_roots = roots;
  c_ledger = [];
  p_ledgers = replicate pledger_number [];
  banknote_tx_count = 0;
}
