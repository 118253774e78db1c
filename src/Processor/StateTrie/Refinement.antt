-- ===== src/Processor/StateTrie/Refinement.antt =====
-- `ProcessPeripheralLedgerTxStateTrie` changes each account that a record names by its net amount.
use banknote_chain.Base.{
  ℕ, zero, suc, ◌≡◌, ◌∙◌, refl, sym, ap, Bool, true, false, List, [], ◌∷◌, Option, none, some, ◌==◌,
  if◌then◌else◌, arith, get_elem?, set, Bool-cases, List-cases, inl, inr, ==_refl, length,
  length-set, get_elem?-set_ne, ◌≢◌,
}
use banknote_chain.Base.Int.{ℤ, pos, ◌+ℤ◌, ◌-ℤ◌, leb_ℤ, ltb_ℤ, abs, int_laws}
use banknote_chain.Base.Outcome.{ok, Returns}
use banknote_chain.Base.Go.{Hash, Address, Gob, IsGob, TrieLib, IsTrieLib, Updated, unchanged}
use banknote_chain.Account.{AccountState, deduct, deposit}
use banknote_chain.Config.{Config}
use banknote_chain.Ledger.View.{
  Accounts, Reads, put, bump, store_account-Reads, Updated-trans, Reads-congr, commit_trie-opens,
}
use banknote_chain.Processor.StateTrie.{
  AccountModify, ModifySet, find, change_balance, write_changes,
  process_peripheral_ledger_tx_state_trie,
}
use banknote_chain.Processor.StateTrie.Netting.{
  HaveAmounts, Distinct, touched, net, collect-net, shifted,
}
use banknote_chain.State.{BanknoteChainState}

-- A negative net amount is taken off only from an account that holds more than that; any other is
-- added.
abbrev pub adjusted : ℤ → AccountState → AccountState
adjusted v s =
    if ltb_ℤ v (pos 0)
    then (if leb_ℤ s.balance (abs v) then s else record s { balance = s.balance -ℤ abs v })
    else record s { balance = s.balance +ℤ v }

change_balance-adjusted : (v : ℤ) (s : AccountState) → change_balance v s ≡ ok (adjusted v s)
unfolding change_balance deduct deposit
change_balance-adjusted v s = elim (Bool-cases (leb_ℤ s.balance (abs v))) [
  | inl e ↦ rw e (elim (Bool-cases (ltb_ℤ v (pos 0))) [ inl n ↦ rw n | inr n ↦ rw n ])
  | inr e ↦ rw e (elim (Bool-cases (ltb_ℤ v (pos 0))) [ inl n ↦ rw n | inr n ↦ rw n ])
]

-- The accounts after the changes of a map.
abbrev pub altered : Option ℤ → AccountState → AccountState
altered none s = s
altered (some v) s = bump (adjusted v s)

abbrev pub changed : Accounts → (Address → Option ℤ) → Accounts
changed f m a = altered (m a) (f a)

-- Every named account is changed once, by its net amount.
abbrev pub netted : Accounts → List AccountModify → Accounts
netted f rs a = if touched a rs then bump (adjusted (net a rs) (f a)) else f a

altered-shifted :
    (b : Bool) (v : ℤ) (s : AccountState)
    → altered (shifted none b v) s ≡ (if b then bump (adjusted v s) else s)
altered-shifted true v s = let e : pos 0 +ℤ v ≡ v = omega int_laws in rw e
altered-shifted false v s = refl

changed-put :
    (f : Accounts) (addr : Address) (v : ℤ) (es : List (Address × ℤ)) (a : Address)
    → find addr es ≡ none
    → changed (put f addr (bump (adjusted v (f addr)))) (λ b. find b es) a
      ≡ changed f (λ b. find b ((addr, v) ∷ es)) a
changed-put f addr v es a new = elim (Bool-cases (addr == a)) [
  | inl same ↦ let e : addr ≡ a = ground arith in rw (same, ← e, new, ==_refl addr)
  | inr other ↦ let e : (a == addr) ≡ false = ground arith in rw (other, e)
]

set_at {ℓ} :
    {A : Type ℓ} (xs : List A) (i : ℕ) (a b : A)
    → get_elem? xs i ≡ some a
    → get_elem? (set xs i b) i ≡ some b
set_at [] i a b h = cc
set_at (x ∷ xs) zero a b h = refl
set_at (x ∷ xs) (suc i) a b h = set_at xs i a b h

-- Go visits each key of a map once, with its value, in any order.
pub record IsRange (range_order : ModifySet → List (Address × ℤ)) : Type 0 where
  pub once : (m : ModifySet) → Distinct m → Distinct (range_order m)
  pub same : (m : ModifySet) (a : Address) → find a (range_order m) ≡ find a m

-- The core ledger's database and the other peripheral ledgers are as before.
abbrev pub OthersKept : (T : TrieLib) → ℕ → BanknoteChainState T → BanknoteChainState T → Type 0
OthersKept T i s s' =
    (length s'.pledger_state_roots ≡ length s.pledger_state_roots)
    × (get_elem? s'.triedbs 0 ≡ get_elem? s.triedbs 0)
    × ((j : ℕ)
        → i ≢ j
        → (get_elem? s'.pledger_state_roots j ≡ get_elem? s.pledger_state_roots j)
          × (get_elem? s'.triedbs (suc j) ≡ get_elem? s.triedbs (suc j)))

others_kept :
    (T : TrieLib) (i : ℕ) (rt : Hash) (db : T.Database) (s : BanknoteChainState T)
    → OthersKept T i s (record s {
      pledger_state_roots = set s.pledger_state_roots i rt;
      triedbs = set s.triedbs (suc i) db;
    })
others_kept T i rt db s = (
  length-set s.pledger_state_roots i rt,
  get_elem?-set_ne s.triedbs (suc i) 0 db (omega arith),
  λ j n. (
    get_elem?-set_ne s.pledger_state_roots i j rt n,
    get_elem?-set_ne s.triedbs (suc i) (suc j) db (λ e. n (omega arith)),
  ),
)

module _ {T : TrieLib} {g : Gob AccountState} (lawful : IsTrieLib T) (codec : IsGob g) where
  write_changes-Reads :
      (init_balance : ℤ) (es : List (Address × ℤ)) (st : T.Trie) (f : Accounts)
      → Distinct es
      → Reads T g init_balance st f
      → Returns
          (write_changes T g init_balance es st)
          λ st'. Updated T st st' × Reads T g init_balance st' (changed f (λ a. find a es))
  unfolding write_changes
  write_changes-Reads b [] st f d reads = (st, refl, (unchanged, reads))
  write_changes-Reads b ((addr, v) ∷ es) st f d reads =
      let (st₁, run₁, (u₁, reads₁)) =
        store_account-Reads b lawful codec st f addr (adjusted v (f addr)) reads in
      let (st₂, run₂, (u₂, reads₂)) =
        write_changes-Reads b es st₁ (put f addr (bump (adjusted v (f addr)))) d.1 reads₁ in
      (
        st₂,
        rw (reads addr, change_balance-adjusted v (f addr), run₁) run₂,
        (Updated-trans b lawful codec u₁ u₂, λ a. reads₂ a ∙ ap ok (changed-put f addr v es a d.0)),
      )

  -- The call on the trie that its caller opened, whose records all carry an amount, does not
  -- fault, whatever the order in which Go visits the map. If some account is named, the ledger's
  -- new root opens in its database: every named account has its net change applied once and its
  -- nonce raised once, and every other account is as it was. The core ledger, the other
  -- peripheral ledgers and the pool are not touched.
  pub process_peripheral_ledger_tx_state_trie-refines :
      (range_order : ModifySet → List (Address × ℤ))
      → IsRange range_order
      → (ledger_id : ℕ) (root : Hash) (t : T.Trie) (db : T.Database) (rs : List AccountModify)
        (s : BanknoteChainState T) (config : Config) (f : Accounts)
      → T.new_trie root db ≡ some t
      → Reads T g config.init_balance t f
      → HaveAmounts rs
      → get_elem? s.pledger_state_roots ledger_id ≡ some root
      → get_elem? s.triedbs (suc ledger_id) ≡ some db
      → Returns
          (process_peripheral_ledger_tx_state_trie T g range_order ledger_id t db rs s config)
          λ s'.
            (root' : Hash) × (db' : T.Database) × (t' : T.Trie) × (get_elem? s'.pledger_state_roots
                ledger_id
              ≡ some root')
            × (get_elem? s'.triedbs (suc ledger_id) ≡ some db')
            × (T.new_trie root' db' ≡ some t')
            × Reads T g config.init_balance t' (netted f rs)
            × (s'.cledger_state_root ≡ s.cledger_state_root)
            × (s'.active_banknotes_pool ≡ s.active_banknotes_pool)
            × OthersKept T ledger_id s s'
  unfolding process_peripheral_ledger_tx_state_trie
  process_peripheral_ledger_tx_state_trie-refines range_order range i root t db rs s config f opens
        reads amounts at_root at_db =
      let (m, run, (distinct, finds)) = collect-net rs [] amounts tt in
      let (u, run', (by, reads')) =
        write_changes-Reads config.init_balance (range_order m) t f (range.once m distinct) reads in
      let after : (a : Address) → changed f (λ b. find b (range_order m)) a ≡ netted f rs a = λ a.
        ap (λ o. altered o (f a)) (range.same m a ∙ finds a)
        ∙ altered-shifted (touched a rs) (net a rs) (f a) in
      elim (List-cases (range_order m)) [
        | inl idle ↦ (
          s,
          rw (run, run', idle),
          (
            root,
            db,
            t,
            at_root,
            at_db,
            opens,
            λ a. reads a ∙ ap ok (ap (λ es. altered (find a es) (f a)) (sym idle) ∙ after a),
            refl,
            refl,
            (refl, refl, λ j n. (refl, refl)),
          ),
        )
        | inr (e, es, busy) ↦
            let ((rt, db'), done, (w, opens', same)) =
              commit_trie-opens lawful root db t u opens by in
            (
              record s {
                pledger_state_roots = set s.pledger_state_roots i rt;
                triedbs = set s.triedbs (suc i) db';
              },
              rw (run, run', busy, done),
              (
                rt,
                db',
                w,
                set_at s.pledger_state_roots i root rt at_root,
                set_at s.triedbs (suc i) db db' at_db,
                opens',
                λ a.
                    Reads-congr config.init_balance lawful codec u w _ same reads' a
                    ∙ ap ok (after a),
                refl,
                refl,
                others_kept T i rt db' s,
              ),
            )
      ]
