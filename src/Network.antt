-- ===== src/Network.antt =====
-- network/p2p.go: the key file of the leader, and how a publisher and a subscriber are set up over
-- libp2p and its gossip service, which are parameters.
pub mod Keys
pub mod Dial
use banknote_chain.Base.{
  ℕ, ◌*◌, List, [], ◌∷◌, Option, none, some, Bool, true, false, if◌then◌else◌,
}
use banknote_chain.Base.Go.{Bytes}
use banknote_chain.Base.Outcome.{Outcome, ok, nil_dereference, require, ◌>>=◌}

-- The errors that the functions return, one for each text.
pub data NetworkError : Type 0 where
  no_key no_marshal no_write no_read no_unmarshal : NetworkError
  no_host no_pubsub no_topic no_subscription no_connection : NetworkError

-- Go's pair of a value and an error.
pub data Result (A : Type 0) : Type 0 where
  value : A → Result A
  error : NetworkError → Result A

infixl 5 ◌>>>◌
abbrev pub ◌>>>◌ : {A B : Type 0} → Result A → (A → Result B) → Result B
value a >>> f = f a
error e >>> f = error e

abbrev pub or_error : {A : Type 0} → NetworkError → Option A → Result A
or_error e none = error e
or_error e (some a) = value a

-- The ed25519 keys of libp2p's crypto package. `Randomness` is what a call draws.
pub record KeyLib : Type 1 where
  pub PrivKey : Type 0
  pub Randomness : Type 0
  pub generate_key : Randomness → Option PrivKey
  pub marshal : PrivKey → Option Bytes
  pub unmarshal : Bytes → Option PrivKey

-- The operating system's files, by their paths. `exists_file` is false where `os.Stat` reports that
-- the file does not exist.
pub record FileLib : Type 1 where
  pub Files : Type 0
  pub exists_file : Files → Bytes → Bool
  pub read_file : Files → Bytes → Option Bytes
  pub write_file : Files → Bytes → Bytes → Option Files

-- libp2p. An error is `none`. A host has the identity of the key that it is given, or a random one.
pub record P2pLib (K : KeyLib) : Type 1 where
  pub Host : Type 0
  pub PeerId : Type 0
  pub Multiaddr : Type 0
  pub PubSub : Type 0
  pub Topic : Type 0
  pub Subscription : Type 0
  pub new_host : Option K.PrivKey → Bytes → K.Randomness → Option Host
  pub host_id : Host → PeerId
  pub new_multiaddr : Bytes → Option Multiaddr
  pub new_gossip_sub : Host → ℕ → Option PubSub
  pub join : PubSub → Bytes → Option Topic
  pub subscribe : Topic → Option Subscription
  pub connect : Host → PeerId → Option Multiaddr → Bool

module _ (K : KeyLib) (F : FileLib) where
  unfoldable pub create_private_key : K.Randomness → Bytes → F.Files → Result (K.PrivKey × F.Files)
  create_private_key random path files = or_error no_key (K.generate_key random) >>> λ key.
      or_error no_marshal (K.marshal key) >>> λ bytes.
      or_error no_write (F.write_file files path bytes) >>> λ files'. value (key, files')

  unfoldable pub load_private_key : Bytes → F.Files → Result (K.PrivKey × F.Files)
  load_private_key path files = or_error no_read (F.read_file files path) >>> λ bytes.
      or_error no_unmarshal (K.unmarshal bytes) >>> λ key. value (key, files)

  -- `loadOrCreatePrivateKey`
  unfoldable pub load_or_create_private_key :
      K.Randomness → Bytes → F.Files → Result (K.PrivKey × F.Files)
  load_or_create_private_key random path files =
      if F.exists_file files path
      then load_private_key path files
      else create_private_key random path files

-- 100 MB, and 10000 MB for a subscriber.
abbrev pub max_message_size : ℕ
max_message_size = 100 * 1024 * 1024

abbrev pub max_received_size : ℕ
max_received_size = 10000 * 1024 * 1024

-- `"/ip4/0.0.0.0/tcp/0"`
abbrev pub any_address : Bytes
any_address =
    47 ∷ 105 ∷ 112 ∷ 52 ∷ 47 ∷ 48 ∷ 46 ∷ 48 ∷ 46 ∷ 48 ∷ 46 ∷ 48 ∷ 47 ∷ 116 ∷ 99 ∷ 112 ∷ 47 ∷ 48 ∷ []

module _ (K : KeyLib) (F : FileLib) (P : P2pLib K) where
  pub record Publisher : Type 0 where
    pub host : P.Host
    pub ps : P.PubSub
    pub topic : P.Topic

  pub record Subscriber : Type 0 where
    pub host : P.Host
    pub ps : P.PubSub
    pub sub : P.Subscription

  unfoldable pub new_publisher :
      K.Randomness → Bytes → Bytes → Bytes → F.Files → Result (Publisher × F.Files)
  new_publisher random topic_name key_path listen_address files =
      load_or_create_private_key K F random key_path files >>> λ (key, files').
      or_error no_host (P.new_host (some key) listen_address random) >>> λ h.
      or_error no_pubsub (P.new_gossip_sub h max_message_size) >>> λ ps.
      or_error no_topic (P.join ps topic_name) >>> λ topic.
      value (record { host = h; ps = ps; topic = topic }, files')

  -- `ConnectToPeer`
  unfoldable pub connect_to_peer : P.Host → P.PeerId → Option P.Multiaddr → Result (Unit {0})
  connect_to_peer h id address = if P.connect h id address then value tt else error no_connection

  -- The error of the key is overwritten by that of the host, which without a key gets a random identity.
  abbrev pub key_or_nil : Result (K.PrivKey × F.Files) → Option K.PrivKey
  key_or_nil (value (key, _)) = some key
  key_or_nil (error _) = none

  -- The key file may have been made.
  abbrev pub files_after : Result (K.PrivKey × F.Files) → F.Files → F.Files
  files_after (value (_, files')) files = files'
  files_after (error _) files = files

  -- The rest of `NewSubscriber`, with the identity and the address of the publisher.
  unfoldable pub subscribe_to :
      K.Randomness → Bytes → P.PeerId → Option P.Multiaddr → Result Subscriber
  subscribe_to random topic_name id address =
      or_error no_host (P.new_host none any_address random) >>> λ h.
      or_error no_pubsub (P.new_gossip_sub h max_received_size) >>> λ ps.
      or_error no_topic (P.join ps topic_name) >>> λ topic.
      or_error no_subscription (P.subscribe topic) >>> λ sub.
      connect_to_peer h id address >>> λ _. value (record { host = h; ps = ps; sub = sub })

  -- The identity of the publisher's host is taken before the error is looked at, so a host that
  -- could not be made is a nil that is dereferenced; after that there is no error. An address that
  -- does not parse is a nil address.
  unfoldable pub new_subscriber :
      K.Randomness → Bytes → Bytes → Bytes → F.Files → Outcome (Result Subscriber × F.Files)
  new_subscriber random topic_name key_path publisher_ip files = do
    let key = load_or_create_private_key K F random key_path files
    publisher_h ← require nil_dereference (P.new_host (key_or_nil key) any_address random)
    ok (
      subscribe_to random topic_name (P.host_id publisher_h) (P.new_multiaddr publisher_ip),
      files_after key files,
    )
