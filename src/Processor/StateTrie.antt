-- ===== src/Processor/StateTrie.antt =====
-- chain/banknote_processor.go, `ProcessPeripheralLedgerTxStateTrie`: the balance changes of a
-- peripheral ledger are netted for each account, and then written to its state trie.
pub mod Netting
pub mod Refinement
use banknote_chain.Base.{
  ℕ, ◌+◌, List, [], ◌∷◌, Option, none, some, ◌==◌, if◌then◌else◌, get_elem?, set, suc,
}
use banknote_chain.Base.Int.{ℤ, pos, ◌+ℤ◌, ◌-ℤ◌, ltb_ℤ, abs}
use banknote_chain.Base.Outcome.{
  Outcome, ok, index_out_of_range, nil_dereference, log_panic, require, ◌>>=◌,
}
use banknote_chain.Base.Go.{Address, Gob, TrieLib}
use banknote_chain.Account.{AccountState, deduct, deposit}
use banknote_chain.Config.{Config}
use banknote_chain.Ledger.{load_account, store_account, commit_trie}
use banknote_chain.State.{BanknoteChainState}

-- The fields of `BanknoteTx` that a record on the channel sets. An address that is left out is 0.
pub record AccountModify : Type 0 where
  pub from : Address
  pub to : Address
  pub amount : Option ℤ

-- `accountModifySet`
abbrev pub ModifySet : Type 0
ModifySet = List (Address × ℤ)

abbrev pub find : Address → ModifySet → Option ℤ
find a [] = none
find a ((b, v) ∷ m) = if a == b then some v else find a m

abbrev pub assign : Address → ℤ → ModifySet → ModifySet
assign a v [] = (a, v) ∷ []
assign a v (e ∷ m) = if a == e.0 then (a, v) ∷ m else e ∷ assign a v m

-- The first `if`. A nil amount is replaced by 0 in the record only if the account is new here.
unfoldable pub modify_from : AccountModify → ModifySet → Outcome (AccountModify × ModifySet)
modify_from r m =
    let seen : Outcome (AccountModify × ModifySet) = elim (find r.from m) [
      | none ↦
          let amount : ℤ = elim r.amount [ none ↦ pos 0 | some v ↦ v ] in
          ok (record r { amount = some amount }, assign r.from (pos 0 -ℤ amount) m)
      | some am ↦
          require nil_dereference r.amount >>= λ amount. ok (r, assign r.from (am -ℤ amount) m)
    ] in
    if r.from == 0 then ok (r, m) else seen

-- The second `if`.
unfoldable pub modify_to : AccountModify → ModifySet → Outcome ModifySet
modify_to r m =
    let seen : Outcome ModifySet = require nil_dereference r.amount >>= λ amount.
    elim (find r.to m) [
      | none ↦ ok (assign r.to (pos 0 +ℤ amount) m)
      | some am ↦ ok (assign r.to (am +ℤ amount) m)
    ] in
    if r.to == 0 then ok m else seen

unfoldable pub collect : List AccountModify → ModifySet → Outcome ModifySet
collect [] m = ok m
collect (r ∷ rs) m = modify_from r m >>= λ (r', m₁). modify_to r' m₁ >>= λ m₂. collect rs m₂

-- The balance change of one account. What `Deduct` returns is not looked at.
unfoldable pub change_balance : ℤ → AccountState → Outcome AccountState
change_balance amount s =
    let lowered = deduct s (some (abs amount)) >>= λ (s', done). ok s' in
    if ltb_ℤ amount (pos 0) then lowered else deposit s (some amount)

module _ (T : TrieLib) (g : Gob AccountState) where
  unfoldable pub write_changes : ℤ → List (Address × ℤ) → T.Trie → Outcome T.Trie
  write_changes init_balance [] st = ok st
  write_changes init_balance ((addr, amount) ∷ es) st =
      load_account T g init_balance st addr >>= λ s. change_balance amount s >>= λ s'.
      store_account T g init_balance st addr s' >>= λ st'. write_changes init_balance es st'

  -- `range_order` is the order in which Go visits the map. The trie and its database are those
  -- that the caller opened.
  unfoldable pub process_peripheral_ledger_tx_state_trie :
      (ModifySet → List (Address × ℤ))
      → ℕ
      → T.Trie
      → T.Database
      → List AccountModify
      → BanknoteChainState T
      → Config
      → Outcome (BanknoteChainState T)
  process_peripheral_ledger_tx_state_trie range_order ledger_id st db records s cc = do
    m ← collect records []
    st' ← write_changes cc.init_balance (range_order m) st
    let committed = do
      (rt, db') ← commit_trie T st' db
      ok (record s {
        pledger_state_roots = set s.pledger_state_roots ledger_id rt;
        triedbs = set s.triedbs (suc ledger_id) db';
      })
    elim (range_order m) [ [] ↦ ok s | _ ∷ _ ↦ committed ]
