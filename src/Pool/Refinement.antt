-- ===== src/Pool/Refinement.antt =====
-- The sharded pool refines one partial map from hashes to banknotes.
use banknote_chain.Base.{
  ℕ, ◌<◌, ◌≡◌, ◌≢◌, ◌∙◌, sym, ap, ==_ne, Option, none, some, [], ◌∷◌, ◌==◌, if◌then◌else◌, arith,
  get_elem?, set, length, get_elem?-some, get_elem?-set_self, get_elem?-set_ne, length-set,
  length-replicate, get_elem?-replicate,
}
use banknote_chain.Base.Outcome.{ok, Returns}
use native.Mathlib.Decide.{ℕ_discrete}
use banknote_chain.Base.Go.{Hash}
use banknote_chain.Banknote.{Banknote, ledger_of, get_ledger_hash_by_id-eq, ledger_of-lt}
use banknote_chain.Pool.{
  SyncMap, load, store, delete, ActiveBanknotePool, new_active_banknote_pool, banknotes_pool,
  add_banknote, set_banknote, remove_banknote, get_banknote,
}

-- A map for each of at least one ledger.
pub record IsSharded (bp : ActiveBanknotePool) : Type 0 where
  pub some_ledger : 0 < bp.banknote_chain_pledger_number
  pub one_each : length bp.banknotes_maps ≡ bp.banknote_chain_pledger_number

abbrev pub Notes : Type 0
Notes = Hash → Option Banknote

-- `k` is bound to `v`, or to nothing.
abbrev pub assign : Notes → Hash → Option Banknote → Notes
assign f k v h = if k == h then v else f h

-- The pool holds the banknotes that `f` gives.
abbrev pub Holds : ActiveBanknotePool → Notes → Type 0
Holds bp f = IsSharded bp × ((h : Hash) → get_banknote bp h ≡ ok (f h))

load-store :
    (k j : Hash) (b : Banknote) (m : SyncMap)
    → load j (store k b m) ≡ (if k == j then some b else load j m)
load-store k j b [] = ground arith
load-store k j b (e ∷ m) = ground (arith, load-store k j b m)

load-delete : (k j : Hash) (m : SyncMap) → load j (delete k m) ≡ (if k == j then none else load j m)
load-delete k j [] = ground arith
load-delete k j (e ∷ m) = ground (arith, load-delete k j m)

shard_number : ActiveBanknotePool → Hash → ℕ
shard_number bp h = ledger_of bp.banknote_chain_pledger_number h

shard :
    (bp : ActiveBanknotePool) (h : Hash)
    → IsSharded bp
    → (m : SyncMap) × (get_elem? bp.banknotes_maps (shard_number bp h) ≡ some m)
      × (banknotes_pool bp h ≡ ok (shard_number bp h, m))
unfolding banknotes_pool shard_number
shard bp h s =
    let lt = ledger_of-lt bp.banknote_chain_pledger_number h s.some_ledger in
    let (m, e) = get_elem?-some bp.banknotes_maps (shard_number bp h) (omega (arith, lt)) in
    (m, e, rw (get_ledger_hash_by_id-eq bp.banknote_chain_pledger_number h s.some_ledger, e))

-- A write of `v` at `k` that replaces the map of `k` by `m'`.
abbrev rewritten : ActiveBanknotePool → Hash → SyncMap → ActiveBanknotePool
rewritten bp k m' = record bp { banknotes_maps = set bp.banknotes_maps (shard_number bp k) m' }

rewritten-IsSharded :
    (bp : ActiveBanknotePool) (k : Hash) (m' : SyncMap)
    → IsSharded bp
    → IsSharded (rewritten bp k m')
rewritten-IsSharded bp k m' s = record {
  some_ledger = s.some_ledger;
  one_each = length-set bp.banknotes_maps (shard_number bp k) m' ∙ s.one_each;
}

get_banknote-shard :
    (bp : ActiveBanknotePool) (h : Hash) (m : SyncMap)
    → IsSharded bp
    → get_elem? bp.banknotes_maps (shard_number bp h) ≡ some m
    → get_banknote bp h ≡ ok (load h m)
unfolding get_banknote banknotes_pool shard_number
get_banknote-shard bp h m s e =
    rw (get_ledger_hash_by_id-eq bp.banknote_chain_pledger_number h s.some_ledger, e)

-- Reading after such a write: in the map of `k`, and in any other.
read_same_shard :
    (bp : ActiveBanknotePool) (k j : Hash) (m' : SyncMap)
    → IsSharded bp
    → shard_number bp k ≡ shard_number bp j
    → get_banknote (rewritten bp k m') j ≡ ok (load j m')
read_same_shard bp k j m' s same =
    get_banknote-shard (rewritten bp k m') j m' (rewritten-IsSharded bp k m' s) (
      unfold shard_number in
      rw (← same) (
        get_elem?-set_self bp.banknotes_maps _ m'
          (omega (arith, ledger_of-lt bp.banknote_chain_pledger_number k s.some_ledger))))

read_other_shard :
    (bp : ActiveBanknotePool) (k j : Hash) (m' : SyncMap)
    → IsSharded bp
    → shard_number bp k ≢ shard_number bp j
    → get_banknote (rewritten bp k m') j ≡ get_banknote bp j
unfolding shard_number
read_other_shard bp k j m' s differ =
    let (mj, e, _) = shard bp j s in
    get_banknote-shard (rewritten bp k m') j mj (rewritten-IsSharded bp k m' s)
      (get_elem?-set_ne bp.banknotes_maps (shard_number bp k) (shard_number bp j) m' differ ∙ e)
    ∙ sym (get_banknote-shard bp j mj s e)

ok_injective : {A : Type 0} {a b : A} → ok a ≡ ok b → a ≡ b
ok_injective e = cc

rewritten-Holds :
    (bp : ActiveBanknotePool) (f : Notes) (k : Hash) (v : Option Banknote) (m m' : SyncMap)
    → Holds bp f
    → get_elem? bp.banknotes_maps (shard_number bp k) ≡ some m
    → ((j : Hash) → load j m' ≡ (if k == j then v else load j m))
    → Holds (rewritten bp k m') (assign f k v)
rewritten-Holds bp f k v m m' (s, holds) e reads = (rewritten-IsSharded bp k m' s, at)
  where
    at : (j : Hash) → get_banknote (rewritten bp k m') j ≡ ok (assign f k v j)
    at j = elim (ℕ_discrete (shard_number bp k) (shard_number bp j)) [
      | yes same ↦
          let found = get_banknote-shard bp j m s (rw (← same) e) in
          let old : load j m ≡ f j = ok_injective (sym found ∙ holds j) in
          read_same_shard bp k j m' s same ∙ ap ok (reads j ∙ (rw old))
      | no differ ↦
          read_other_shard bp k j m' s differ
          ∙ holds j
          ∙ ap ok (rw (==_ne k j (λ eq. differ (ap (shard_number bp) eq))))
    ]

module _ (bp : ActiveBanknotePool) (f : Notes) (held : Holds bp f) where
  -- Adding a banknote binds its hash to it, and leaves every other hash as it was.
  pub add_banknote-Holds :
      (b : Banknote)
      → Returns (add_banknote bp b) λ bp'. Holds bp' (assign f b.banknote_hash (some b))
  unfolding add_banknote
  add_banknote-Holds b =
      let (m, e, run) = shard bp b.banknote_hash held.0 in
      (
        rewritten bp b.banknote_hash (store b.banknote_hash b m),
        rw run,
        rewritten-Holds bp f b.banknote_hash (some b) m _ held e
            (λ j. load-store b.banknote_hash j b m),
      )

  pub set_banknote-Holds :
      (b : Banknote)
      → Returns (set_banknote bp b) λ bp'. Holds bp' (assign f b.banknote_hash (some b))
  unfolding set_banknote
  set_banknote-Holds b =
      let (m, e, run) = shard bp b.banknote_hash held.0 in
      (
        rewritten bp b.banknote_hash (store b.banknote_hash b m),
        rw run,
        rewritten-Holds bp f b.banknote_hash (some b) m _ held e
            (λ j. load-store b.banknote_hash j b m),
      )

  -- Removing a hash unbinds it alone.
  pub remove_banknote-Holds :
      (h : Hash) → Returns (remove_banknote bp h) λ bp'. Holds bp' (assign f h none)
  unfolding remove_banknote
  remove_banknote-Holds h =
      let (m, e, run) = shard bp h held.0 in
      (
        rewritten bp h (delete h m),
        rw run,
        rewritten-Holds bp f h none m _ held e (λ j. load-delete h j m),
      )

-- A new pool is well formed and empty.
pub new_active_banknote_pool-Holds :
    (n : ℕ) → 0 < n → Holds (new_active_banknote_pool n) (λ _. none)
unfolding new_active_banknote_pool get_banknote banknotes_pool
new_active_banknote_pool-Holds n p = (
  record { some_ledger = p; one_each = length-replicate n [] },
  λ h. rw (
    get_ledger_hash_by_id-eq n h p,
    get_elem?-replicate {A = SyncMap} n (ledger_of n h) [] (ledger_of-lt n h p),
  ),
)
