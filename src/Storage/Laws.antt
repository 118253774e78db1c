-- ===== src/Storage/Laws.antt =====
-- What the store gives back.
use banknote_chain.Base.{ℕ, [], ◌∷◌, some, ◌≡◌, ◌≢◌, refl, ap, ◌∙◌, some_of_ne_none, arith}
use banknote_chain.Base.Outcome.{ok, log_panic, require, Returns}
use banknote_chain.Base.Go.{Bytes, Gob, IsGob}
use banknote_chain.Storage.{
  BlockHeader, Block, KeyValueLib, IsKeyValueLib, header_key, block_key, newest_key,
  update_newest_block, add_block_header, put_block, store_block, store_block_sync, get_block_header,
  get_block, get_newest_block_hash,
}

abbrev first : Bytes → ℕ
first [] = 0
first (b ∷ bs) = b

tail : Bytes → Bytes
tail [] = []
tail (b ∷ bs) = bs

first_ne : (k j : Bytes) → first k ≢ first j → k ≢ j
first_ne k j h e = h (ap first e)

block_key_ne : (h k : Bytes) → h ≢ k → block_key h ≢ block_key k
unfolding block_key tail
block_key_ne h k n e = n (ap tail e)

module _ (D : KeyValueLib) (lib : IsKeyValueLib D) (gh : Gob BlockHeader) (gb : Gob Block)
    (is_gh : IsGob gh) (is_gb : IsGob gb) where
  -- A write, and what is read after it.
  abbrev Wrote : D.Database → D.Database → Bytes → Bytes → Type 0
  Wrote db db' k v = (D.get db' k ≡ some v) × ((j : Bytes) → k ≢ j → D.get db' j ≡ D.get db j)

  put-Wrote :
      (db : D.Database) (k v : Bytes)
      → Returns (require log_panic (D.put db k v)) (λ db'. Wrote db db' k v)
  put-Wrote db k v =
      let (db', e) = some_of_ne_none (D.put db k v) (lib.puts db k v) in
      (db', rw e refl, (lib.get-put_self db db' k v e, λ j n. lib.get-put_ne db db' k j v e n))

  put_block-Wrote :
      (db : D.Database) (b : Block)
      → Returns (put_block D gh gb db b) (λ db'. Wrote db db' (block_key b.hash) (is_gb.stream b))
  unfolding put_block
  put_block-Wrote db b = rw (is_gb.encodes b) (put-Wrote db (block_key b.hash) (is_gb.stream b))

  -- The part of `StoreBlock` that is done when it returns.
  store_block-Wrote :
      (db : D.Database) (b : Block)
      → Returns (store_block D gh gb db b) (λ db'.
        (D.get db' newest_key ≡ some b.hash)
        × (D.get db' (header_key b.hash) ≡ some (is_gh.stream b.header))
        × ((j : Bytes) → D.get db' (block_key j) ≡ D.get db (block_key j)))
  unfolding store_block add_block_header update_newest_block header_key block_key newest_key
  store_block-Wrote db b =
      let (db₁, e₁, (here₁, else₁)) = put-Wrote db (header_key b.hash) (is_gh.stream b.header) in
      let (db₂, e₂, (here₂, else₂)) = put-Wrote db₁ newest_key b.hash in
      (
        db₂,
        rw (is_gh.encodes b.header) (rw e₁ e₂),
        (
          here₂,
          else₂ (header_key b.hash) (first_ne newest_key (header_key b.hash) (omega arith)) ∙ here₁,
          λ j.
              else₂ (block_key j) (first_ne newest_key (block_key j) (omega arith))
              ∙ else₁ (block_key j) (first_ne (header_key b.hash) (block_key j) (omega arith)),
        ),
      )

  get_block-congr :
      (db db' : D.Database) (h : Bytes)
      → D.get db' (block_key h) ≡ D.get db (block_key h)
      → get_block D gh gb db' h ≡ get_block D gh gb db h
  unfolding get_block
  get_block-congr db db' h e = rw (get_block, e) refl

  get_block-stream :
      (db : D.Database) (b : Block)
      → D.get db (block_key b.hash) ≡ some (is_gb.stream b)
      → get_block D gh gb db b.hash ≡ ok (some b)
  unfolding get_block
  get_block-stream db b e = rw (get_block, e) (rw (is_gb.decodes b) refl)

  get_block_header-stream :
      (db : D.Database) (h : Bytes) (bh : BlockHeader)
      → D.get db (header_key h) ≡ some (is_gh.stream bh)
      → get_block_header D gh gb db h ≡ ok (some bh)
  unfolding get_block_header
  get_block_header-stream db h bh e = rw (get_block_header, e) (rw (is_gh.decodes bh) refl)

  -- `StoreBlockSync` returns, and then the newest hash is that of the block, the block and its header
  -- are read back as they were, and a block of any other hash is read as before.
  pub store_block_sync-reads :
      (db : D.Database) (b : Block)
      → Returns (store_block_sync D gh gb db b) (λ db'.
        (get_newest_block_hash D gh gb db' ≡ some b.hash)
        × (get_block D gh gb db' b.hash ≡ ok (some b))
        × (get_block_header D gh gb db' b.hash ≡ ok (some b.header))
        × ((h : Bytes) → b.hash ≢ h → get_block D gh gb db' h ≡ get_block D gh gb db h))
  unfolding store_block_sync store_block get_newest_block_hash
  store_block_sync-reads db b =
      let (db₁, e₁, (here, else)) = put_block-Wrote db b in
      let (db₂, e₂, (newest, header, blocks)) = store_block-Wrote db₁ b in
      (
        db₂,
        rw e₁ e₂,
        (
          newest,
          get_block-stream db₂ b (blocks b.hash ∙ here),
          get_block_header-stream db₂ b.hash b.header header,
          λ h n. get_block-congr db db₂ h (blocks h ∙ else (block_key h) (block_key_ne b.hash h n)),
        ),
      )

  -- `StoreBlock` returns, and then the newest hash is that of the block and its header is read back, but
  -- every block is read as before, so that this block is not there if it was not. Once the goroutine has
  -- written, the block is read back too, and the newest hash is still its own.
  pub store_block-reads_late :
      (db : D.Database) (b : Block)
      → Returns (store_block D gh gb db b) (λ db₁.
        (get_newest_block_hash D gh gb db₁ ≡ some b.hash)
        × (get_block_header D gh gb db₁ b.hash ≡ ok (some b.header))
        × ((h : Bytes) → get_block D gh gb db₁ h ≡ get_block D gh gb db h)
        × Returns (put_block D gh gb db₁ b) (λ db₂.
          (get_block D gh gb db₂ b.hash ≡ ok (some b))
          × (get_newest_block_hash D gh gb db₂ ≡ some b.hash)))
  unfolding get_newest_block_hash block_key newest_key
  store_block-reads_late db b =
      let (db₁, e₁, (newest, header, blocks)) = store_block-Wrote db b in
      let (db₂, e₂, (here, else)) = put_block-Wrote db₁ b in
      (
        db₁,
        e₁,
        (
          newest,
          get_block_header-stream db₁ b.hash b.header header,
          λ h. get_block-congr db db₁ h (blocks h),
          (
            db₂,
            e₂,
            (
              get_block-stream db₂ b here,
              else newest_key (first_ne (block_key b.hash) newest_key (omega arith)) ∙ newest,
            ),
          ),
        ),
      )
