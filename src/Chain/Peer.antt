-- ===== src/Chain/Peer.antt =====
-- chain/blockchain.go, `AddBlock` on a node that follows a leader.
use banknote_chain.Pool.Refinement.{Notes}
use banknote_chain.Storage.{Block}
use banknote_chain.Transaction.{Transaction}
