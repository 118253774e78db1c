-- ===== src/Config/Json.antt =====
-- utils/config.go, `NewConfigFromJson`.
use banknote_chain.Base.{◌^◌, [], ◌∷◌, Option, false}
use banknote_chain.Base.Go.{Bytes}
use banknote_chain.Base.Int.{pos}
use banknote_chain.Base.Outcome.{Outcome, log_panic, require, ◌>>=◌}
use banknote_chain.Config.{Config, other_exp_mode, other_node_mode}

-- `"config_leader.json"`
abbrev pub leader_path : Bytes
leader_path =
    99 ∷ 111 ∷ 110 ∷ 102 ∷ 105 ∷ 103 ∷ 95 ∷ 108 ∷ 101 ∷ 97 ∷ 100 ∷ 101 ∷ 114 ∷ 46 ∷ 106 ∷ 115 ∷ 111
    ∷ 110 ∷ []

abbrev pub path_or_default : Bytes → Bytes
path_or_default [] = leader_path
path_or_default (b ∷ path) = b ∷ path

-- The settings before the file is read: an initial balance of 10^44, and Go's zero values.
abbrev pub initial_config : Config
initial_config = record {
  init_balance = pos (10 ^ 44);
  node_id = 0;
  storage_path = [];
  drop_database = false;
  tx_pool_size = 0;
  peer_count = 0;
  banknote_chain_pledger_number = 0;
  p_account_modify_chan_size = 0;
  pledger_inner_chan_size = 0;
  tx_count_per_block = 0;
  exp_mode = other_exp_mode;
  node_mode = other_node_mode;
  exp_block_number = 0;
  core_limit = 0;
}

-- `unmarshal` is `json.Unmarshal` into given settings. Either error is a panic with a text.
unfoldable pub new_config_from_json :
    (read_file : Bytes → Option Bytes) (unmarshal : Bytes → Config → Option Config)
    → Bytes
    → Outcome Config
new_config_from_json read_file unmarshal path = do
  file ← require log_panic (read_file (path_or_default path))
  require log_panic (unmarshal file initial_config)
