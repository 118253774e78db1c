-- ===== src/Storage.antt =====
-- storage/storage.go and core/block.go: blocks in a key-value store.
pub mod Laws
use banknote_chain.Base.{ℕ, List, [], ◌∷◌, ◌++◌, Option, none, some, ◌≡◌, ◌≢◌}
use banknote_chain.Base.Outcome.{Outcome, ok, panic, log_panic, require, ◌>>=◌}
use banknote_chain.Base.Go.{Bytes, Gob}
use banknote_chain.Base.Int.{ℤ}
use banknote_chain.Block.{BanknoteBlock}
use banknote_chain.Transaction.{Transaction}

-- The times count from Go's zero time.
pub record BlockHeader : Type 0 where
  pub parent_block_hash : Bytes
  pub state_root : Bytes
  pub tx_root : Bytes
  pub number : ℕ
  pub time : ℕ
  pub miner : ℕ
  pub total_tx_count : ℕ
  pub proposed_time : ℕ
  pub message_delay_time : ℤ

pub record Block : Type 0 where
  pub header : BlockHeader
  pub body : List Transaction
  pub hash : Bytes
  pub banknote_block : Option BanknoteBlock

-- `Encode` of a header and of a block, and `DecodeBH` and `DecodeB`
abbrev pub encode_bh : Gob BlockHeader → BlockHeader → Outcome Bytes
encode_bh gh bh = require log_panic (gh.gob_encode bh)

abbrev pub decode_bh : Gob BlockHeader → Bytes → Outcome BlockHeader
decode_bh gh b = require log_panic (gh.gob_decode b)

abbrev pub encode_b : Gob Block → Block → Outcome Bytes
encode_b gb b = require log_panic (gb.gob_encode b)

abbrev pub decode_b : Gob Block → Bytes → Outcome Block
decode_b gb b = require log_panic (gb.gob_decode b)

-- go-ethereum's `ethdb.Database`. An error is `none`; a key that is not there is an error.
pub record KeyValueLib : Type 1 where
  pub Database : Type 0
  pub get : Database → Bytes → Option Bytes
  pub put : Database → Bytes → Bytes → Option Database

-- What it documents: a write succeeds, and changes what its key holds.
pub record IsKeyValueLib (D : KeyValueLib) : Type 0 where
  pub puts : (db : D.Database) (k v : Bytes) → D.put db k v ≢ none
  pub get-put_self :
      (db db' : D.Database) (k v : Bytes) → D.put db k v ≡ some db' → D.get db' k ≡ some v
  pub get-put_ne :
      (db db' : D.Database) (k j v : Bytes)
      → D.put db k v ≡ some db'
      → k ≢ j
      → D.get db' j ≡ D.get db j

-- The key prefixes are the letters H and K, and one key is a word by itself.
unfoldable pub header_key : Bytes → Bytes
header_key hash = 72 ∷ hash

unfoldable pub block_key : Bytes → Bytes
block_key hash = 75 ∷ hash

-- `"OnlyNewestBlock"`
unfoldable pub newest_key : Bytes
newest_key =
    79 ∷ 110 ∷ 108 ∷ 121 ∷ 78 ∷ 101 ∷ 119 ∷ 101 ∷ 115 ∷ 116 ∷ 66 ∷ 108 ∷ 111 ∷ 99 ∷ 107 ∷ []

module _ (D : KeyValueLib) (gh : Gob BlockHeader) (gb : Gob Block) where
  unfoldable pub update_newest_block : D.Database → Bytes → Outcome D.Database
  update_newest_block db hash = require log_panic (D.put db newest_key hash)

  unfoldable pub add_block_header : D.Database → Bytes → BlockHeader → Outcome D.Database
  add_block_header db hash bh = do
    encoded ← encode_bh gh bh
    require log_panic (D.put db (header_key hash) encoded)

  -- The write of the block itself: in `StoreBlock` a goroutine of its own.
  unfoldable pub put_block : D.Database → Block → Outcome D.Database
  put_block db b = do
    encoded ← encode_b gb b
    require log_panic (D.put db (block_key b.hash) encoded)

  -- What `StoreBlock` does before it returns, beside the goroutine.
  unfoldable pub store_block : D.Database → Block → Outcome D.Database
  store_block db b = do db₁ ← add_block_header db b.hash b.header; update_newest_block db₁ b.hash

  unfoldable pub store_block_sync : D.Database → Block → Outcome D.Database
  store_block_sync db b = do
    db₁ ← put_block db b
    db₂ ← add_block_header db₁ b.hash b.header
    update_newest_block db₂ b.hash

  -- The error of the two readers is `none`; bytes that do not decode are a panic.
  unfoldable pub get_block_header : D.Database → Bytes → Outcome (Option BlockHeader)
  get_block_header db hash = elim (D.get db (header_key hash)) [
    | none ↦ ok none
    | some e ↦ decode_bh gh e >>= λ bh. ok (some bh)
  ]

  unfoldable pub get_block : D.Database → Bytes → Outcome (Option Block)
  get_block db hash = elim (D.get db (block_key hash)) [
    | none ↦ ok none
    | some e ↦ decode_b gb e >>= λ b. ok (some b)
  ]

  unfoldable pub get_newest_block_hash : D.Database → Option Bytes
  get_newest_block_hash db = D.get db newest_key
