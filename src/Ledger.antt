-- ===== src/Ledger.antt =====
-- The account ledgers: what chain/blockchain.go (`ProcessTxs`) and chain/banknote_processor.go
-- (`ProcessCoreLedgerTx`) do to a state trie.
pub mod View
pub mod Spec
pub mod Payment
use banknote_chain.Base.{
  ℕ, ◌+◌, ◌≡◌, Bool, true, false, ◌||◌, Option, none, some, List, [], ◌∷◌, ◌==◌, if◌then◌else◌,
}
use banknote_chain.Base.Int.{ℤ}
use banknote_chain.Base.Outcome.{Outcome, ok, panic, log_panic, require, ◌>>=◌}
use banknote_chain.Base.Go.{Hash, Address, Bytes, Gob, TrieLib, increment}
use banknote_chain.Account
use banknote_chain.Account.{AccountState, deduct, deposit, encode, decode_as}

-- `&core.AccountState{Nonce: 0, Balance: ib}` with `ib` a copy of the configured balance
abbrev pub new_account : ℤ → AccountState
new_account init_balance = record {
  ac_address = [];
  nonce = 0;
  balance = init_balance;
  storage_root = [];
  code_hash = [];
  banknote_hashes = [];
}

-- `modified_account_map[a] = true`, on the keys of the map
abbrev pub contains : Address → List Address → Bool
contains a [] = false
contains a (b ∷ m) = a == b || contains a m

unfoldable pub mark_modified : Address → List Address → List Address
mark_modified a m = if contains a m then m else a ∷ m

module _ (T : TrieLib) (g : Gob AccountState) (init_balance : ℤ) where
  -- `st.Get(addr)`, and the state that is decoded or made new
  unfoldable pub load_account : T.Trie → Address → Outcome AccountState
  load_account st a = elim (T.get st a) [
    | none ↦ ok (new_account init_balance)
    | some enc ↦ decode_as g enc
  ]

  -- `s.Nonce++; st.Update(addr, s.Encode())`
  unfoldable pub store_account : T.Trie → Address → AccountState → Outcome T.Trie
  store_account st a s = do
    enc ← encode g (record s { nonce = increment s.nonce })
    ok (T.update st a enc)

  -- One round of the loop. What `Deduct` returns is not looked at.
  unfoldable pub pay : T.Trie → Address → Address → Option ℤ → Outcome T.Trie
  pay st from to amount = do
    s ← load_account st from
    (s', done) ← deduct s amount
    st' ← store_account st from s'
    r ← load_account st' to
    r' ← deposit r amount
    store_account st' to r'

-- `st.Commit(false)`, and the nodes written to the database if there are any
module _ (T : TrieLib) where
  unfoldable pub commit_trie : T.Trie → T.Database → Outcome (Hash × T.Database)
  commit_trie st db =
      let (rt, ns) = T.commit st in
      elim ns [
        | none ↦ ok (rt, db)
        | some nodes ↦ do
          db₁ ← require log_panic (T.update_database db nodes)
          db₂ ← require log_panic (T.commit_database db₁ rt)
          ok (rt, db₂)
      ]
