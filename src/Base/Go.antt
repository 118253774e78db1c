-- ===== src/Base/Go.antt =====
-- Go's fixed-size values, and the two facilities that the program takes from libraries for its
-- storage: gob encoding (standard library) and go-ethereum's Merkle Patricia trie.
use banknote_chain.Base.{ℕ, ◌^◌, ◌%◌, ◌+◌, ◌≡◌, ◌≢◌, Option, none, some, List, []}

-- `common.Hash` and `common.Address` are byte arrays of a fixed length: each is the number that
-- its bytes write, most significant byte first. The zero value of either is 0.
abbrev pub Hash : Type 0
Hash = ℕ

abbrev pub Address : Type 0
Address = ℕ

abbrev pub Bytes : Type 0
Bytes = List ℕ

abbrev pub u64_mod : ℕ
u64_mod = 2 ^ 64

-- `n++` on a uint64
abbrev pub increment : ℕ → ℕ
increment n = (n + 1) % u64_mod

-- gob at one type. An encoder or a decoder may report an error, which is `none`.
pub record Gob (A : Type 0) : Type 0 where
  pub gob_encode : A → Option Bytes
  pub gob_decode : Bytes → Option A

-- What the program relies on: a value encodes to a stream that is not empty and decodes to it.
pub record IsGob {A : Type 0} (g : Gob A) : Type 0 where
  pub stream : A → Bytes
  pub encodes : (a : A) → g.gob_encode a ≡ some (stream a)
  pub decodes : (a : A) → g.gob_decode (stream a) ≡ some a
  pub fills : (a : A) → stream a ≢ []

-- The operations of `trie.Trie` and `trie.Database`. A key is always an address or a hash of a
-- fixed length. An error is `none`, and so is the nil node set of a commit.
pub record TrieLib : Type 1 where
  pub Trie : Type 0
  pub Database : Type 0
  pub NodeSet : Type 0
  pub new_trie : Hash → Database → Option Trie
  pub new_empty : Database → Trie
  pub get : Trie → ℕ → Option Bytes
  pub update : Trie → ℕ → Bytes → Trie
  pub root_hash : Trie → Hash
  pub commit : Trie → Hash × Option NodeSet
  pub update_database : Database → NodeSet → Option Database
  pub commit_database : Database → Hash → Option Database

-- A trie got from another by writes.
pub data Updated (T : TrieLib) (t : T.Trie) : T.Trie → Type 0 where
  unchanged : Updated T t t
  written : {u : T.Trie} → Updated T t u → (k : ℕ) (v : Bytes) → Updated T t (T.update u k v)

-- What go-ethereum documents: a trie is a map from keys to values that are not empty; the empty
-- trie can always be opened; the database takes writes; and a committed trie can be opened again
-- at its root with the same contents.
pub record IsTrieLib (T : TrieLib) : Type 0 where
  pub get-update_self :
      (t : T.Trie) (k : ℕ) (v : Bytes) → v ≢ [] → T.get (T.update t k v) k ≡ some v
  pub get-update_ne :
      (t : T.Trie) (k j : ℕ) (v : Bytes) → k ≢ j → T.get (T.update t k v) j ≡ T.get t j
  pub empty_opens :
      (db : T.Database) → T.new_trie (T.root_hash (T.new_empty db)) db ≡ some (T.new_empty db)
  pub get-empty : (db : T.Database) (k : ℕ) → T.get (T.new_empty db) k ≡ none
  pub updates : (db : T.Database) (n : T.NodeSet) → T.update_database db n ≢ none
  pub commits : (db : T.Database) (r : Hash) → T.commit_database db r ≢ none
  pub reopens :
      (root : Hash) (db : T.Database) (t u : T.Trie)
      → T.new_trie root db ≡ some t
      → Updated T t u
      → (n : T.NodeSet) (root' : Hash) (db₁ db₂ : T.Database) → T.commit u ≡ (root', some n)
      → T.update_database db n ≡ some db₁
      → T.commit_database db₁ root' ≡ some db₂
      → (w : T.Trie) × (T.new_trie root' db₂ ≡ some w) × ((k : ℕ) → T.get w k ≡ T.get u k)
  pub reopens_clean :
      (root : Hash) (db : T.Database) (t u : T.Trie)
      → T.new_trie root db ≡ some t
      → Updated T t u
      → (root' : Hash) → T.commit u ≡ (root', none)
      → (w : T.Trie) × (T.new_trie root' db ≡ some w) × ((k : ℕ) → T.get w k ≡ T.get u k)
