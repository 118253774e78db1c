-- ===== src/Account.antt =====
-- core/account.go: the state of one account, and the two operations on its balance.
pub mod Laws
use banknote_chain.Base.{ℕ, Bool, true, false, Option, none, some, List, ◌≡◌, if◌then◌else◌}
use banknote_chain.Base.Int.{ℤ, ◌+ℤ◌, ◌-ℤ◌, leb_ℤ}
use banknote_chain.Base.Outcome.{Outcome, ok, panic, nil_dereference, log_panic, require}
use banknote_chain.Base.Go.{Hash, Bytes, Gob}

-- The program makes a state only with a balance, and gob keeps it, so `balance` is never nil.
pub record AccountState : Type 0 where
  pub ac_address : Bytes
  pub nonce : ℕ
  pub balance : ℤ
  pub storage_root : Bytes
  pub code_hash : Bytes
  pub banknote_hashes : List Hash

-- A `*big.Int` argument may be nil, and `Cmp` and `Add` then fault.
unfoldable pub deduct : AccountState → Option ℤ → Outcome (AccountState × Bool)
deduct s none = panic nil_dereference
deduct s (some v) =
    if leb_ℤ s.balance v then ok (s, false) else ok (record s { balance = s.balance -ℤ v }, true)

unfoldable pub deposit : AccountState → Option ℤ → Outcome AccountState
deposit s none = panic nil_dereference
deposit s (some v) = ok (record s { balance = s.balance +ℤ v })

unfoldable pub encode : Gob AccountState → AccountState → Outcome Bytes
encode g s = require log_panic (g.gob_encode s)

unfoldable pub decode_as : Gob AccountState → Bytes → Outcome AccountState
decode_as g b = require log_panic (g.gob_decode b)
