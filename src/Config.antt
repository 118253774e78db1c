-- ===== src/Config.antt =====
-- utils/config.go: the settings that the modelled code reads. Sizes and counts are Go ints that a
-- configuration gives as numbers that are not negative; `init_balance` is never nil.
pub mod Json
use banknote_chain.Base.{ℕ, Bool}
use banknote_chain.Base.Go.{Bytes}
use banknote_chain.Base.Int.{ℤ}

-- The values that `ExpMode` and `NodeMode` are compared with, and any other text.
pub data ExpMode : Type 0 where
  origin banknote scalability other_exp_mode : ExpMode

pub data NodeMode : Type 0 where
  leader peer other_node_mode : NodeMode

pub record Config : Type 0 where
  pub init_balance : ℤ
  pub node_id : ℕ
  pub storage_path : Bytes
  pub drop_database : Bool
  pub tx_pool_size : ℕ
  pub peer_count : ℕ
  pub banknote_chain_pledger_number : ℕ
  pub p_account_modify_chan_size : ℕ
  pub pledger_inner_chan_size : ℕ
  pub tx_count_per_block : ℕ
  pub exp_mode : ExpMode
  pub node_mode : NodeMode
  pub exp_block_number : ℕ
  pub core_limit : ℕ
