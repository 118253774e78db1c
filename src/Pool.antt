-- ===== src/Pool.antt =====
-- banknoteChain/banknote_pool.go: the active banknotes, one `sync.Map` for each peripheral ledger.
pub mod Refinement
use banknote_chain.Base.{
  ℕ, ◌≡◌, Option, none, some, List, [], ◌∷◌, ◌==◌, if◌then◌else◌, get_elem?, set, replicate,
}
use banknote_chain.Base.Outcome.{Outcome, ok, index_out_of_range, require, ◌>>=◌}
use banknote_chain.Base.Go.{Hash}
use banknote_chain.Banknote.{Banknote, get_ledger_hash_by_id}

-- `sync.Map`, as an association list with one entry for a key
abbrev pub SyncMap : Type 0
SyncMap = List (Hash × Banknote)

abbrev pub load : Hash → SyncMap → Option Banknote
load k [] = none
load k ((j, b) ∷ m) = if k == j then some b else load k m

abbrev pub store : Hash → Banknote → SyncMap → SyncMap
store k b [] = (k, b) ∷ []
store k b (e ∷ m) = if k == e.0 then (k, b) ∷ m else e ∷ store k b m

abbrev pub delete : Hash → SyncMap → SyncMap
delete k [] = []
delete k (e ∷ m) = let rest = delete k m in if k == e.0 then rest else e ∷ rest

pub record ActiveBanknotePool : Type 0 where
  pub pool_size : ℕ
  pub banknotes_maps : List SyncMap
  pub banknote_chain_pledger_number : ℕ

unfoldable pub new_active_banknote_pool : ℕ → ActiveBanknotePool
new_active_banknote_pool n = record {
  pool_size = 0;
  banknotes_maps = replicate n [];
  banknote_chain_pledger_number = n;
}

-- The map of a hash, with its index.
unfoldable pub banknotes_pool : ActiveBanknotePool → Hash → Outcome (ℕ × SyncMap)
banknotes_pool bp h = do
  id ← get_ledger_hash_by_id bp.banknote_chain_pledger_number h
  m ← require index_out_of_range (get_elem? bp.banknotes_maps id)
  ok (id, m)

unfoldable pub add_banknote : ActiveBanknotePool → Banknote → Outcome ActiveBanknotePool
add_banknote bp b = do
  (id, m) ← banknotes_pool bp b.banknote_hash
  ok (record bp { banknotes_maps = set bp.banknotes_maps id (store b.banknote_hash b m) })

unfoldable pub set_banknote : ActiveBanknotePool → Banknote → Outcome ActiveBanknotePool
set_banknote bp b = do
  (id, m) ← banknotes_pool bp b.banknote_hash
  ok (record bp { banknotes_maps = set bp.banknotes_maps id (store b.banknote_hash b m) })

unfoldable pub remove_banknote : ActiveBanknotePool → Hash → Outcome ActiveBanknotePool
remove_banknote bp h = do
  (id, m) ← banknotes_pool bp h
  ok (record bp { banknotes_maps = set bp.banknotes_maps id (delete h m) })

unfoldable pub get_banknote : ActiveBanknotePool → Hash → Outcome (Option Banknote)
get_banknote bp h = do (_, m) ← banknotes_pool bp h; ok (load h m)
