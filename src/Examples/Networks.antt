-- ===== src/Examples/Networks.antt =====
-- network/p2p.go with keys, files and hosts made of texts.
use banknote_chain.Base.{◌≡◌, refl, sym, ap, List, [], ◌∷◌, Option, none, some, Bool, true, false}
use banknote_chain.Base.Go.{Bytes}
use banknote_chain.Base.Outcome.{Returns}
use banknote_chain.Examples.Stores.{stored, log_lib, log_lib-IsKeyValueLib}
use banknote_chain.Network.{
  value, KeyLib, FileLib, P2pLib, Publisher, any_address, load_or_create_private_key,
  create_private_key, new_publisher, new_subscriber, subscribe_to,
}
use banknote_chain.Network.Dial.{IsP2pLib, new_subscriber-dials}
use banknote_chain.Network.Keys.{IsKeyLib, IsFileLib, load_or_create_private_key-again}

-- A key is the bytes that are drawn.
abbrev text_keys : KeyLib
text_keys = record {
  PrivKey = Bytes;
  Randomness = Bytes;
  generate_key = some;
  marshal = some;
  unmarshal = some;
}

text_keys-IsKeyLib : IsKeyLib text_keys
text_keys-IsKeyLib = record { unmarshal-marshal = λ key bytes h. sym h }

abbrev is_some : Option Bytes → Bool
is_some none = false
is_some (some _) = true

abbrev log_files : FileLib
log_files = record {
  Files = List (Bytes × Bytes);
  exists_file = λ files path. is_some (stored files path);
  read_file = stored;
  write_file = log_lib.put;
}

log_files-IsFileLib : IsFileLib log_files
log_files-IsFileLib = record {
  exists-write = λ files files' path bytes h.
      ap is_some (log_lib-IsKeyValueLib.get-put_self files files' path bytes h);
  read-write =
      λ files files' path bytes h. log_lib-IsKeyValueLib.get-put_self files files' path bytes h;
}

-- A host is its identity, which is the key or else what is drawn.
abbrev identity : Option Bytes → Bytes → Bytes
identity none random = random
identity (some key) random = key

abbrev text_hosts : P2pLib text_keys
text_hosts = record {
  Host = Bytes;
  PeerId = Bytes;
  Multiaddr = Bytes;
  PubSub = Bytes;
  Topic = Bytes;
  Subscription = Bytes;
  new_host = λ key address random. some (identity key random);
  host_id = λ h. h;
  new_multiaddr = some;
  new_gossip_sub = λ h size. some h;
  join = λ ps name. some name;
  subscribe = some;
  connect = λ h id address. true;
}

text_hosts-IsP2pLib : IsP2pLib text_hosts
text_hosts-IsP2pLib = record { key_id = λ key. key; host_id-key = λ key address random h made. cc }

abbrev publisher : Publisher text_keys log_files text_hosts
publisher = record { host = 7 ∷ []; ps = 7 ∷ []; topic = 1 ∷ [] }

-- The key file is made by the first of them.
makes_key :
    load_or_create_private_key text_keys log_files (7 ∷ []) (2 ∷ []) []
    ≡ value (7 ∷ [], (2 ∷ [], 7 ∷ []) ∷ [])
unfolding load_or_create_private_key create_private_key
makes_key = refl

load_or_create_private_key-again_example :
    load_or_create_private_key text_keys log_files (8 ∷ []) (2 ∷ []) ((2 ∷ [], 7 ∷ []) ∷ [])
    ≡ value (7 ∷ [], (2 ∷ [], 7 ∷ []) ∷ [])
load_or_create_private_key-again_example =
    load_or_create_private_key-again text_keys-IsKeyLib log_files-IsFileLib (7 ∷ []) (8 ∷ [])
      (2 ∷ []) [] ((2 ∷ [], 7 ∷ []) ∷ []) (7 ∷ []) makes_key

publishes :
    new_publisher text_keys log_files text_hosts (7 ∷ []) (1 ∷ []) (2 ∷ []) any_address []
    ≡ value (publisher, (2 ∷ [], 7 ∷ []) ∷ [])
unfolding new_publisher load_or_create_private_key create_private_key
publishes = refl

new_subscriber-dials_example :
    Returns
      (new_subscriber text_keys log_files text_hosts
        (8 ∷ [])
        (1 ∷ [])
        (2 ∷ [])
        (3 ∷ [])
        ((2 ∷ [], 7 ∷ []) ∷ []))
      λ r.
        (r.0
          ≡ subscribe_to text_keys log_files text_hosts (8 ∷ []) (1 ∷ []) (7 ∷ []) (some (3 ∷ [])))
        × (r.1 ≡ (2 ∷ [], 7 ∷ []) ∷ [])
new_subscriber-dials_example =
    new_subscriber-dials text_keys-IsKeyLib log_files-IsFileLib text_hosts-IsP2pLib (7 ∷ [])
      (8 ∷ []) (1 ∷ []) (2 ∷ []) any_address (3 ∷ []) [] ((2 ∷ [], 7 ∷ []) ∷ []) publisher publishes
      (λ key. (key, refl))
