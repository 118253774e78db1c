-- ===== src/Program.antt =====
-- cmd/main.go: what the program starts, how the leader waits for its peers, and how a peer takes
-- blocks from the network.
pub mod Delivery
use banknote_chain.Base.{
  ℕ, List, [], ◌∷◌, ◌++◌, Option, none, some, Bool, true, false, not, ◌&&◌, ◌==◌, leb,
  if◌then◌else◌,
}
use banknote_chain.Base.Int.{ℤ, sub_ℕ}
use banknote_chain.Base.Outcome.{Outcome, ok, panic, nil_dereference, log_panic, require, ◌>>=◌}
use banknote_chain.Base.Go.{Bytes, Gob}
use banknote_chain.Config.{Config, NodeMode, leader, peer, other_node_mode}
use banknote_chain.Config.Json.{new_config_from_json}
use banknote_chain.Generator.Dataset.{eq_text}
use banknote_chain.Storage.{decode_b, Block}

-- `main` starts a leader or a peer, or exits with a code.
pub data Started : Type 0 where
  leads follows : Started
  exits : ℕ → Started

unfoldable pub start_mode : NodeMode → Started
start_mode leader = leads
start_mode peer = follows
start_mode other_node_mode = exits 1

-- The path that `main` removes: never `"/"`.
unfoldable pub removed_path : Config → Option Bytes
removed_path config =
    if config.drop_database && not (eq_text config.storage_path (47 ∷ []))
    then some config.storage_path
    else none

-- What `main` has done when it begins to wait for a signal: the number of cores is limited, or not,
-- a path is removed, or not, and a node is started.
pub record Launch : Type 0 where
  pub config : Config
  pub max_procs : Option ℕ
  pub removed : Option Bytes
  pub started : Started

-- `main`, on the path of the settings.
unfoldable pub launch :
    (read_file : Bytes → Option Bytes) (unmarshal : Bytes → Config → Option Config)
    → Bytes
    → Outcome Launch
launch read_file unmarshal path = new_config_from_json read_file unmarshal path >>= λ config.
    ok (record {
      config = config;
      max_procs = if config.core_limit == 0 then none else some config.core_limit;
      removed = removed_path config;
      started = start_mode config.node_mode;
    })

-- The leader asks for the number of its peers until there are enough; `counts` are the answers, and
-- none is that it still waits.
unfoldable pub wait_for_peers : ℕ → List ℕ → Option (List ℕ)
wait_for_peers peer_count [] = none
wait_for_peers peer_count (n ∷ counts) =
    let later = wait_for_peers peer_count counts in if leb peer_count n then some counts else later

-- `startLeader` up to the start of its goroutines. A publisher that could not be set up is nil, and
-- its topic is asked for peers all the same.
unfoldable pub start_leader : {P : Type 0} → Option P → ℕ → List ℕ → Outcome (Option (List ℕ))
start_leader publisher peer_count counts =
    require nil_dereference publisher >>= λ _. ok (wait_for_peers peer_count counts)

-- `startPeer` tries to subscribe until it succeeds.
unfoldable pub first_subscriber : {S : Type 0} → List (Option S) → Option S
first_subscriber [] = none
first_subscriber (none ∷ tries) = first_subscriber tries
first_subscriber (some s ∷ tries) = some s

-- What the subscription gives: an error with a nil message, or a message from a node.
pub data Received (PeerId : Type 0) : Type 0 where
  failed : Received PeerId
  message : PeerId → Bytes → Received PeerId

-- `blk.Header.MessageDelayTime`
abbrev pub delayed : ℕ → Block → Block
delayed arrival b = record b {
  header = record b.header { message_delay_time = sub_ℕ arrival b.header.proposed_time };
}

module _ {PeerId : Type 0} (same_peer : PeerId → PeerId → Bool) (gb : Gob Block) where
  -- One round of the loop of `startPeer`, with the blocks that were sent to `ToBeAddedBlocks` so
  -- far. An error is logged, and the nil message is asked for its sender.
  unfoldable pub receive : PeerId → Received PeerId → ℕ → List Block → Outcome (List Block)
  receive own failed arrival blocks = panic nil_dereference
  receive own (message from payload) arrival blocks =
      if same_peer from own
      then ok blocks
      else (decode_b gb payload >>= λ b. ok (blocks ++ delayed arrival b ∷ []))

  unfoldable pub receive_all :
      PeerId → List (Received PeerId × ℕ) → List Block → Outcome (List Block)
  receive_all own [] blocks = ok blocks
  receive_all own ((m, arrival) ∷ ms) blocks =
      receive own m arrival blocks >>= λ blocks'. receive_all own ms blocks'
