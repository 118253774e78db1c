-- ===== src/Banknote.antt =====
-- banknoteChain/banknote.go: banknotes, and the ledger that a hash belongs to.
use banknote_chain.Base.{ℕ, ◌%◌, ◌<◌, ◌≡◌, Option, ◌==◌, if◌then◌else◌, arith}
use banknote_chain.Base.Int.{ℤ}
use banknote_chain.Base.Outcome.{Outcome, ok, panic, divide_by_zero, ◌>>=◌}
use banknote_chain.Base.Go.{Hash, Address, u64_mod}
use banknote_chain.Config.{Config}

-- The mutex is never taken. A pointer to a banknote is held by the pool alone, so a value serves.
pub record Banknote : Type 0 where
  pub banknote_hash : Hash
  pub value : Option ℤ
  pub owner : Address
  pub ledger_id : ℕ
  pub turn_over_count : ℕ

-- `banknoteHash.Big().Uint64() % uint64(PLedgerNumber)`: the low 64 bits of the hash
unfoldable pub get_ledger_hash_by_id : ℕ → Hash → Outcome ℕ
get_ledger_hash_by_id n h = if n == 0 then panic divide_by_zero else ok (h % u64_mod % n)

unfoldable pub new_banknote : Hash → Option ℤ → Address → Config → Outcome Banknote
new_banknote banknote_hash banknote_value owner cc = do
  ledger ← get_ledger_hash_by_id cc.banknote_chain_pledger_number banknote_hash
  ok (record {
    banknote_hash = banknote_hash;
    value = banknote_value;
    owner = owner;
    ledger_id = ledger;
    turn_over_count = 0;
  })

-- The ledger of a hash, where there are ledgers.
unfoldable pub ledger_of : ℕ → Hash → ℕ
ledger_of n h = h % u64_mod % n

-- With at least one ledger the call returns a ledger's index.
pub get_ledger_hash_by_id-eq :
    (n : ℕ) (h : Hash) → 0 < n → get_ledger_hash_by_id n h ≡ ok (ledger_of n h)
unfolding get_ledger_hash_by_id ledger_of
get_ledger_hash_by_id-eq n h p = ground arith

pub ledger_of-lt : (n : ℕ) (h : Hash) → 0 < n → ledger_of n h < n
unfolding ledger_of
ledger_of-lt n h p = grind arith
