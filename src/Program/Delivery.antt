-- ===== src/Program/Delivery.antt =====
-- From the adder of a leader to the queue of a peer.
use mathlib.Core.List.{append_assoc, append-nil}
use banknote_chain.Base.{
  ℕ, suc, ◌≡◌, refl, sym, ap, ◌∙◌, List, [], ◌∷◌, ◌++◌, map, length, some, Bool, true, false, arith,
}
use banknote_chain.Base.Int.{ℤ}
use banknote_chain.Base.Outcome.{Outcome, ok, Returns}
use banknote_chain.Base.Go.{Hash, Address, Bytes, Gob, IsGob, TrieLib}
use banknote_chain.Account.{AccountState}
use banknote_chain.Chain.{BlockChain}
use banknote_chain.Node.{Node, Reaches, here, next, start_node, propose}
use banknote_chain.Node.Effects.{
  Effect, has_read, has_generated, has_sent, has_added, turn-Effect, broadcasts,
}
use banknote_chain.Processor.StateTrie.{ModifySet}
use banknote_chain.Program.{Received, message, delayed, receive, receive_all}
use banknote_chain.State.{LedgerDir}
use banknote_chain.Storage.{BlockHeader, Block, KeyValueLib}
use banknote_chain.Transaction.{Transaction}
use banknote_chain.Tx.{BanknoteTx}

-- The blocks of the second list whose broadcast did not fail, in their order, each with the time of
-- its proposal.
data Sent : List Bool → List Block → List Block → Type 0 where
  no_more : Sent [] [] []
  sent :
      {ds : List Bool} {ts bs : List Block} (now : ℕ) (b : Block)
      → Sent ds ts bs
      → Sent (true ∷ ds) (propose now b ∷ ts) (b ∷ bs)
  lost :
      {ds : List Bool} {ts bs : List Block} (b : Block)
      → Sent ds ts bs
      → Sent (false ∷ ds) ts (b ∷ bs)

Sent-snoc :
    {ds : List Bool} {ts bs : List Block} (now : ℕ) (b : Block)
    → Sent ds ts bs
    → Sent (ds ++ true ∷ []) (ts ++ propose now b ∷ []) (bs ++ b ∷ [])
Sent-snoc now b no_more = sent now b no_more
Sent-snoc now b (sent t c s) = sent t c (Sent-snoc now b s)
Sent-snoc now b (lost c s) = lost c (Sent-snoc now b s)

Sent-lost :
    {ds : List Bool} {ts bs : List Block} (b : Block)
    → Sent ds ts bs
    → Sent (ds ++ false ∷ []) ts (bs ++ b ∷ [])
Sent-lost b no_more = lost b no_more
Sent-lost b (sent t c s) = sent t c (Sent-lost b s)
Sent-lost b (lost c s) = lost c (Sent-lost b s)

-- The blocks of the second list whose broadcast did not fail, in their order, each with the time of
-- its proposal and with its delay.
pub data Arrived : List Bool → List Block → List Block → Type 0 where
  no_more : Arrived [] [] []
  arrived :
      {ds : List Bool} {qs bs : List Block} (now arrival : ℕ) (b : Block)
      → Arrived ds qs bs
      → Arrived (true ∷ ds) (delayed arrival (propose now b) ∷ qs) (b ∷ bs)
  lost :
      {ds : List Bool} {qs bs : List Block} (b : Block)
      → Arrived ds qs bs
      → Arrived (false ∷ ds) qs (b ∷ bs)

length-map : {A B : Type 0} (f : A → B) (xs : List A) → length (map f xs) ≡ length xs
length-map f [] = refl
length-map f (x ∷ xs) = ap suc (length-map f xs)

-- The messages of one sender, with the times at which they arrive.
abbrev pub incoming : {PeerId : Type 0} → PeerId → List Bytes → List ℕ → List (Received PeerId × ℕ)
incoming from [] arrivals = []
incoming from (m ∷ ms) [] = []
incoming from (m ∷ ms) (a ∷ arrivals) = (message from m, a) ∷ incoming from ms arrivals

module _ {PeerId : Type 0} (same_peer : PeerId → PeerId → Bool) (gb : Gob Block)
    (is_gb : IsGob gb) where
  receive_all-Arrived :
      (own from : PeerId) (ds : List Bool) (ts bs before : List Block) (arrivals : List ℕ)
      → same_peer from own ≡ false
      → Sent ds ts bs
      → length arrivals ≡ length ts
      → (qs : List Block) × (receive_all same_peer gb own
            (incoming from (map is_gb.stream ts) arrivals)
            before
          ≡ ok (before ++ qs))
        × Arrived ds qs bs
  unfolding receive_all receive
  receive_all-Arrived own from [] [] [] before arrivals other no_more len =
      ([], ap ok (sym (append-nil before)), no_more)
  receive_all-Arrived own from (false ∷ ds) ts (b ∷ bs) before arrivals other (lost c s) len =
      let (qs, run, a) = receive_all-Arrived own from ds ts bs before arrivals other s len in
      (qs, run, lost b a)
  receive_all-Arrived own from ds (t ∷ ts) [] before arrivals other s len = elim s [ ]
  receive_all-Arrived own from (d ∷ ds) [] [] before arrivals other s len = elim s [ ]
  receive_all-Arrived own from [] ts (b ∷ bs) before arrivals other s len = elim s [ ]
  receive_all-Arrived own from (true ∷ ds) [] (b ∷ bs) before arrivals other s len = elim s [ ]
  receive_all-Arrived own from (true ∷ ds) (t ∷ ts) (b ∷ bs) before [] other (sent now c s) len =
      absurd (omega arith)
  receive_all-Arrived own from (true ∷ ds) (t ∷ ts) (b ∷ bs) before (a ∷ arrivals) other
        (sent now c s) len =
      let first = delayed a (propose now c) in
      let (qs, run, rest) =
        receive_all-Arrived own from ds ts bs (before ++ first ∷ []) arrivals other s
          (omega arith) in
      (
        first ∷ qs,
        rw (other, is_gb.decodes (propose now c))
            (run ∙ ap ok (append_assoc before (first ∷ []) qs)),
        arrived now a c rest,
      )

map-snoc :
    {gb : Gob Block} (is_gb : IsGob gb) (ts : List Block) (b : Block)
    → map is_gb.stream (ts ++ b ∷ []) ≡ map is_gb.stream ts ++ is_gb.stream b ∷ []
map-snoc is_gb [] b = refl
map-snoc is_gb (t ∷ ts) b = ap (λ r. is_gb.stream t ∷ r) (map-snoc is_gb ts b)

-- A leader's messages are those of some of its added blocks, in their order.
module _ {T : TrieLib} {D : KeyValueLib} {R : Type 0} (gb : Gob Block) (is_gb : IsGob gb) where
  abbrev Broadcast : List Bool → Node T D R → Type 0
  Broadcast ds s = (ts : List Block) × Sent ds ts s.added × (s.messages ≡ map is_gb.stream ts)

  Effect-Broadcast :
      {s t : Node T D R} {ds new : List Bool}
      → Effect gb s new t
      → Broadcast ds s
      → Broadcast (ds ++ new) t
  Effect-Broadcast {ds} (has_read r batches) v = rw (append-nil ds) v
  Effect-Broadcast {ds} (has_generated b c rest live free number parent current config) v =
      rw (append-nil ds) v
  Effect-Broadcast {ds} (has_sent b held) v = rw (append-nil ds) v
  Effect-Broadcast (has_added b rest c ms false queued number hash config kept) (ts, s, e) =
      (ts, Sent-lost b s, kept ∙ e)
  Effect-Broadcast (has_added b rest c ms true queued number hash config (now, m, encoded, told))
        (ts, s, e) =
      let same : some m ≡ some (is_gb.stream (propose now b)) =
        sym encoded ∙ is_gb.encodes (propose now b) in
      let m_eq : m ≡ is_gb.stream (propose now b) = cc in
      (
        ts ++ propose now b ∷ [],
        Sent-snoc now b s,
        told
            ∙ ap (λ l. l ++ m ∷ []) e
            ∙ ap (λ z. map is_gb.stream ts ++ z ∷ []) m_eq
            ∙ sym (map-snoc is_gb ts (propose now b)),
      )

module _ {PeerId : Type 0} (same_peer : PeerId → PeerId → Bool) (T : TrieLib) (D : KeyValueLib)
    (R : Type 0) (gh : Gob BlockHeader) (gb : Gob Block) (gt : Gob Transaction) (is_gb : IsGob gb)
    (sha256 : Bytes → Bytes) (memory_database : T.Database) (open_database : LedgerDir → T.Database)
    (g : Gob AccountState) (range_order : ModifySet → List (Address × ℤ)) (keccak256 : Bytes → Hash)
    (read_item : R → Outcome (List BanknoteTx × R)) (fixed_time : ℕ) where
  -- Of each block that a run adds, in their order, whether its broadcast went through.
  abbrev pub sent_flags :
      {s t : Node T D R}
      → Reaches T D R gh gb gt sha256 memory_database open_database g range_order keccak256
          read_item fixed_time s t
      → List Bool
  sent_flags here = []
  sent_flags (next x before h) = sent_flags before ++ broadcasts x

  Reaches-Broadcast :
      (c : BlockChain T D) (r : R) (s : Node T D R)
      (run : Reaches T D R gh gb gt sha256 memory_database open_database g range_order keccak256
        read_item fixed_time
        (start_node T D R c r)
        s)
      → Broadcast gb is_gb (sent_flags run) s
  Reaches-Broadcast c r s here = ([], no_more, refl)
  Reaches-Broadcast c r s (next {t} x before h) =
      Effect-Broadcast gb is_gb
        (turn-Effect T D R gh gb gt sha256 memory_database open_database g range_order keccak256
          read_item fixed_time x t s h)
        (Reaches-Broadcast c r t before)

  -- A peer other than the leader, whose network brings it the leader's messages in their order at
  -- any times, does not fault. It queues blocks that the leader has added, in the order in which it
  -- has added them, each as it was but for the time of its proposal and its delay. Left out are those
  -- for whose adding there was no publisher or whose broadcast failed, and no others.
  pub receive_all-delivers :
      (c : BlockChain T D) (r : R) (s : Node T D R) (own from : PeerId) (arrivals : List ℕ)
      (run : Reaches T D R gh gb gt sha256 memory_database open_database g range_order keccak256
        read_item fixed_time
        (start_node T D R c r)
        s)
      → same_peer from own ≡ false
      → length arrivals ≡ length s.messages
      → Returns
          (receive_all same_peer gb own (incoming from s.messages arrivals) [])
          λ qs. Arrived (sent_flags run) qs s.added
  receive_all-delivers c r s own from arrivals run other len =
      let (ts, told, e) = Reaches-Broadcast c r s run in
      let (qs, received, a) =
        receive_all-Arrived same_peer gb is_gb own from _ ts s.added [] arrivals other told
          (len ∙ ap length e ∙ length-map is_gb.stream ts) in
      (qs, ap (λ ms. receive_all same_peer gb own (incoming from ms arrivals) []) e ∙ received, a)
