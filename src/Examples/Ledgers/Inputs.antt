-- ===== src/Examples/Ledgers/Inputs.antt =====
-- A configuration, a state and transactions.
use banknote_chain.Base.{ℕ, refl, false, none, some, List, [], ◌∷◌, arith}
use banknote_chain.Base.Int.{ℤ, pos}
use banknote_chain.Config.{Config, banknote, leader}
use banknote_chain.Examples.Codec.Instances.{account_gob}
use banknote_chain.Examples.Trie.{MapTrie, map_lib}
use banknote_chain.Ledger.{new_account, load_account}
use banknote_chain.Ledger.View.{Accounts, Reads}
use banknote_chain.Pool.{ActiveBanknotePool, new_active_banknote_pool}
use banknote_chain.Pool.Refinement.{Holds, new_active_banknote_pool-Holds}
use banknote_chain.State.{BanknoteChainState}
use banknote_chain.Tx.{BanknoteTx, BanknoteTxType, bg, bt, br, bs, nt}

abbrev pub two_ledgers : Config
two_ledgers = record {
  init_balance = pos 100;
  node_id = 0;
  storage_path = [];
  drop_database = false;
  tx_pool_size = 4;
  peer_count = 1;
  banknote_chain_pledger_number = 2;
  p_account_modify_chan_size = 16;
  pledger_inner_chan_size = 16;
  tx_count_per_block = 4;
  exp_mode = banknote;
  node_mode = leader;
  exp_block_number = 2;
  core_limit = 1;
}

abbrev pub no_notes : ActiveBanknotePool
unfolding new_active_banknote_pool
no_notes = new_active_banknote_pool 2

pub no_notes-Holds : Holds no_notes (λ _. none)
unfolding no_notes
no_notes-Holds = new_active_banknote_pool-Holds 2 (omega arith)

abbrev pub start : BanknoteChainState map_lib
start = record {
  current_block_number = 0;
  cledger_state_root = 0;
  pledger_state_roots = 0 ∷ 0 ∷ [];
  triedbs = [] ∷ [] ∷ [] ∷ [];
  active_banknotes_pool = no_notes;
}

abbrev pub start_trie : MapTrie
start_trie = record { base = 0; entries = [] }

abbrev pub start_accounts : Accounts
start_accounts a = new_account (pos 100)

pub start_trie-Reads : Reads map_lib account_gob (pos 100) start_trie start_accounts
unfolding load_account
start_trie-Reads a = refl

abbrev pub tx_of : BanknoteTxType → ℕ → ℕ → ℕ → ℕ → ℤ → BanknoteTx
tx_of type hash from to banknote_hash amount = record {
  tx_hash = hash;
  from = from;
  to = to;
  banknote_hash = banknote_hash;
  banknote_origin_id_in_csv = [];
  amount = some amount;
  banknote_tx_type = type;
  creator = 0;
  banknote_hash1_new_for_split = 0;
  banknote_hash1_new_origin_id_in_csv = [];
  amount1_new_for_split = none;
  banknote_hash2_new_for_split = 0;
  banknote_hash2_new_origin_id_in_csv = [];
  amount2_new_for_split = none;
}

abbrev pub split_of : ℕ → ℕ → ℕ → ℕ → ℕ → ℕ → BanknoteTx
split_of hash from to banknote_hash new1 new2 =
    record (tx_of bs hash from to banknote_hash (pos 9)) {
      banknote_hash1_new_for_split = new1;
      amount1_new_for_split = some (pos 4);
      banknote_hash2_new_for_split = new2;
      amount2_new_for_split = some (pos 5);
    }

-- The second payment is of more than its source has.
abbrev pub paid : List BanknoteTx
paid = tx_of nt 11 1 2 0 (pos 30) ∷ tx_of nt 12 2 3 0 (pos 500) ∷ []

-- A block for ledger 0: two banknotes made, one of them split with a source that is not active, one
-- handed over, and one recycled.
abbrev pub noted : List BanknoteTx
noted =
    tx_of bg 20 1 0 70 (pos 9)
    ∷ tx_of bg 22 1 0 71 (pos 9)
    ∷ split_of 24 1 2 75 72 73
    ∷ tx_of bt 26 1 5 70 (pos 9)
    ∷ tx_of br 28 1 6 71 (pos 9)
    ∷ []
