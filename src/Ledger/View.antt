-- ===== src/Ledger/View.antt =====
-- A state trie seen as a function from addresses to account states.
use banknote_chain.Base.{
  ℕ, ◌≡◌, ◌∙◌, ◌≢◌, some, ◌==◌, if◌then◌else◌, arith, Option, Option-cases, some_of_ne_none, inl,
  inr, Bool-cases, ==_iff, false,
}
use banknote_chain.Base.Int.{ℤ}
use banknote_chain.Base.Outcome.{ok, Returns}
use banknote_chain.Base.Go.{
  Hash, Address, Gob, IsGob, TrieLib, IsTrieLib, Updated, unchanged, written, increment,
}
use banknote_chain.Account.{AccountState, encode, decode_as}
use banknote_chain.Ledger.{load_account, store_account, commit_trie}

abbrev pub Accounts : Type 0
Accounts = Address → AccountState

abbrev pub put : Accounts → Address → AccountState → Accounts
put f a s b = if a == b then s else f b

abbrev pub bump : AccountState → AccountState
bump s = record s { nonce = increment s.nonce }

ne_of_eq_false : (a b : ℕ) → (a == b) ≡ false → a ≢ b
ne_of_eq_false a b h = ground arith

module _ (T : TrieLib) (g : Gob AccountState) (init_balance : ℤ) where
  -- Every account loads as `f` says.
  abbrev pub Reads : T.Trie → Accounts → Type 0
  Reads st f = (a : Address) → load_account T g init_balance st a ≡ ok (f a)

module _ {T : TrieLib} {g : Gob AccountState} (init_balance : ℤ) (lawful : IsTrieLib T)
    (codec : IsGob g) where
  -- A stored account is the one that loads at its address; the others load as before.
  load_account-update :
      (st : T.Trie) (a b : Address) (s : AccountState)
      → load_account T g init_balance (T.update st a (codec.stream s)) b
        ≡ (if a == b then ok s else load_account T g init_balance st b)
  unfolding load_account decode_as
  load_account-update st a b s = elim (Bool-cases (a == b)) [
    | inl same ↦
        let e : a ≡ b = (==_iff a b).0 same in
        rw (same, ← e, lawful.get-update_self st a (codec.stream s) (codec.fills s), load_account)
          (rw codec.decodes)
    | inr other ↦ rw (
      other,
      lawful.get-update_ne st a b (codec.stream s) (ne_of_eq_false a b other),
      load_account,
    )
  ]

  -- A stored account reads back with its nonce raised, and the others are untouched.
  pub store_account-Reads :
      (st : T.Trie) (f : Accounts) (a : Address) (s : AccountState)
      → Reads T g init_balance st f
      → Returns
          (store_account T g init_balance st a s)
          λ st'. Updated T st st' × Reads T g init_balance st' (put f a (bump s))
  unfolding store_account encode
  store_account-Reads st f a s reads = (
    T.update st a (codec.stream (bump s)),
    rw codec.encodes,
    (
      written unchanged a (codec.stream (bump s)),
      λ b. load_account-update st a b (bump s) ∙ ground (arith, reads b),
    ),
  )

  pub Updated-trans : {t u v : T.Trie} → Updated T t u → Updated T u v → Updated T t v
  Updated-trans p unchanged = p
  Updated-trans p (written q k v) = written (Updated-trans p q) k v

  -- Two tries with the same contents read the same.
  pub Reads-congr :
      (t u : T.Trie) (f : Accounts)
      → ((k : ℕ) → T.get u k ≡ T.get t k)
      → Reads T g init_balance t f
      → Reads T g init_balance u f
  unfolding load_account
  Reads-congr t u f same reads a = rw (same a, load_account) (reads a)

-- A committed trie opens again at the root and in the database that the commit returns.
pub commit_trie-opens :
    {T : TrieLib} (lawful : IsTrieLib T) (root : Hash) (db : T.Database) (t u : T.Trie)
    → T.new_trie root db ≡ some t
    → Updated T t u
    → Returns
        (commit_trie T u db)
        λ r. (w : T.Trie) × (T.new_trie r.0 r.1 ≡ some w) × ((k : ℕ) → T.get w k ≡ T.get u k)
unfolding commit_trie
commit_trie-opens {T} lawful root db t u opens by = elim (Option-cases ns) [
  | inl clean ↦ (
    (rt, db),
    rw (clean, commit_trie),
    lawful.reopens_clean root db t u opens by rt (λ i. (rt, clean i)),
  )
  | inr (nodes, dirty) ↦
      let (db₁, e₁) = some_of_ne_none (T.update_database db nodes) (lawful.updates db nodes) in
      let (db₂, e₂) = some_of_ne_none (T.commit_database db₁ rt) (lawful.commits db₁ rt) in
      (
        (rt, db₂),
        rw (dirty, commit_trie, e₁, e₂),
        lawful.reopens root db t u opens by nodes rt db₁ db₂ (λ i. (rt, dirty i)) e₁ e₂,
      )
]
  where
    rt : Hash
    rt = (T.commit u).0

    ns : Option T.NodeSet
    ns = (T.commit u).1
