-- ===== src/Network/Dial.antt =====
-- network/p2p.go, `NewSubscriber`: whom a subscriber connects to.
use banknote_chain.Base.{◌≡◌, refl, sym, ap, ◌∙◌, some}
use banknote_chain.Base.Go.{Bytes}
use banknote_chain.Base.Outcome.{Returns}
use banknote_chain.Network.{
  Result, value, error, ◌>>>◌, KeyLib, FileLib, P2pLib, no_host, no_pubsub, no_topic,
  load_or_create_private_key, Publisher, new_publisher, new_subscriber, subscribe_to,
  max_message_size, any_address,
}
use banknote_chain.Network.Keys.{
  IsKeyLib, IsFileLib, value_of, or_error-value, load_or_create_private_key-again,
}

-- What libp2p documents: the identity of a host that is given a key is the one of that key.
pub record IsP2pLib {K : KeyLib} (P : P2pLib K) : Type 0 where
  pub key_id : K.PrivKey → P.PeerId
  pub host_id-key :
      (key : K.PrivKey) (address : Bytes) (random : K.Randomness) (h : P.Host)
      → P.new_host (some key) address random ≡ some h
      → P.host_id h ≡ key_id key

load_value :
    {A B : Type 0} (r : Result A) (f : A → Result B) {b : B}
    → (r >>> f) ≡ value b
    → (a : A) × (r ≡ value a) × (f a ≡ value b)
load_value (value a) f h = (a, refl, h)
load_value (error e) f h = absurd (cc)

module _ {K : KeyLib} {F : FileLib} {P : P2pLib K} (is_k : IsKeyLib K) (is_f : IsFileLib F)
    (is_p : IsP2pLib P) where
  -- The publisher has the identity of the key in the file that it leaves.
  new_publisher-key :
      (random : K.Randomness) (topic_name path address : Bytes) (files files' : F.Files)
      (pub_host : Publisher K F P)
      → new_publisher K F P random topic_name path address files ≡ value (pub_host, files')
      → (key : K.PrivKey) × (load_or_create_private_key K F random path files ≡ value (key, files'))
        × (P.host_id pub_host.host ≡ is_p.key_id key)
  unfolding new_publisher
  new_publisher-key random topic_name path address files files' pub_host h =
      let ((key, left), loaded, h₁) =
        load_value (load_or_create_private_key K F random path files) _ h in
      let (host, hosted, h₂) = or_error-value no_host (P.new_host (some key) address random) _ h₁ in
      let (ps, _, h₃) = or_error-value no_pubsub (P.new_gossip_sub host max_message_size) _ h₂ in
      let (topic, _, h₄) = or_error-value no_topic (P.join ps topic_name) _ h₃ in
      let same = value_of h₄ in
      (
        key,
        loaded ∙ ap (λ r. value (key, r.1)) same,
        ap (λ r. P.host_id (r.0).host) (sym same) ∙ is_p.host_id-key key address random host hosted,
      )

  -- After a publisher was set up with a key file, a subscriber that has the file, on a machine where
  -- a host can be made, subscribes with the identity of the publisher's host, whatever randomness
  -- either draws, and leaves the files as they are.
  pub new_subscriber-dials :
      (random random' : K.Randomness) (topic_name path address publisher_ip : Bytes)
      (files files' : F.Files) (publisher : Publisher K F P)
      → new_publisher K F P random topic_name path address files ≡ value (publisher, files')
      → ((key : K.PrivKey) → (h : P.Host) × (P.new_host (some key) any_address random' ≡ some h))
      → Returns (new_subscriber K F P random' topic_name path publisher_ip files') λ r.
        (r.0
          ≡ subscribe_to K F P random' topic_name
              (P.host_id publisher.host)
              (P.new_multiaddr publisher_ip))
        × (r.1 ≡ files')
  unfolding new_subscriber
  new_subscriber-dials random random' topic_name path address publisher_ip files files' publisher h
        hosts =
      let (key, loaded, identity) =
        new_publisher-key random topic_name path address files files' publisher h in
      let again =
        load_or_create_private_key-again is_k is_f random random' path files files' key loaded in
      let (host, hosted) = hosts key in
      let same : P.host_id host ≡ P.host_id publisher.host =
        is_p.host_id-key key any_address random' host hosted ∙ sym identity in
      (
        (
          subscribe_to K F P random' topic_name (P.host_id host) (P.new_multiaddr publisher_ip),
          files',
        ),
        rw (again, hosted) refl,
        (
          ap (λ z. subscribe_to K F P random' topic_name z (P.new_multiaddr publisher_ip)) same,
          refl,
        ),
      )
