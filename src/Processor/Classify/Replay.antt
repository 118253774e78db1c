-- ===== src/Processor/Classify/Replay.antt =====
-- chain/blockchain.go, `AddBlock`: a peer takes the transactions from the block and classifies them
-- again.
use mathlib.Core.List.{append-nil}
use banknote_chain.Base.{
  ℕ, zero, suc, ◌+◌, ◌≤◌, ◌<◌, ◌≡◌, refl, sym, ap, ◌∙◌, subst, List, [], ◌∷◌, ◌++◌, Bool, true,
  false, not, ◌&&◌, get_elem?, length, keep, keep-append, keep_self, keep-none, keep-All, All,
  All-map, ◌==◌, ==_ne, ==_iff, some, inl, inr, Bool-cases, arith, map,
}
use banknote_chain.Base.Outcome.{ok, Returns}
use banknote_chain.Base.Go.{Hash, Bytes}
use banknote_chain.Block.{new_banknote_block}
use banknote_chain.Block.Count.{new_banknote_block-counts}
use banknote_chain.Banknote.{ledger_of}
use banknote_chain.Processor.Classify.{
  Classified, is_nt, classify, all_tx_hash, seal_block, concat, replayed,
}
use banknote_chain.Processor.Classify.Laws.{listed, applied, classify-sorts}
use banknote_chain.Processor.Peripheral.{is_br}
use banknote_chain.Tx.{BanknoteTx}
use banknote_chain.Tx.Sort.{less, insert_sorted, sort_banknote_txs}

-- Two lists of the same length with the same elements.
pub list_ext :
    (xs ys : List (List BanknoteTx))
    → length xs ≡ length ys
    → ((i : ℕ) → i < length ys → get_elem? xs i ≡ get_elem? ys i)
    → xs ≡ ys
list_ext [] [] h f = refl
list_ext [] (y ∷ ys) h f = absurd (omega arith)
list_ext (x ∷ xs) [] h f = absurd (omega arith)
list_ext (x ∷ xs) (y ∷ ys) h f =
    let rest : xs ≡ ys = list_ext xs ys (omega arith) (λ i p. f (suc i) (omega arith)) in
    let first : some x ≡ some y = f 0 (omega arith) in cc

insert_sorted-All :
    (P : BanknoteTx → Type 0) (x : BanknoteTx) (ys : List BanknoteTx)
    → P x
    → All P ys
    → All P (insert_sorted x ys)
unfolding insert_sorted
insert_sorted-All P x [] p h = (p, tt)
insert_sorted-All P x (y ∷ ys) p h = elim (Bool-cases (less y x)) [
  | inl e ↦ rw e (h.0, insert_sorted-All P x ys p h.1)
  | inr e ↦ rw e (p, h)
]

pub sort-All :
    (P : BanknoteTx → Type 0) (xs : List BanknoteTx) → All P xs → All P (sort_banknote_txs xs)
unfolding sort_banknote_txs
sort-All P [] h = tt
sort-All P (x ∷ xs) h = insert_sorted-All P x (sort_banknote_txs xs) h.0 (sort-All P xs h.1)

and-parts : (a b : Bool) → (a && b) ≡ true → (a ≡ true) × (b ≡ true)
and-parts true b h = (refl, h)
and-parts false b h = ground arith

not-true : (b : Bool) → not b ≡ true → b ≡ false
not-true true h = sym h
not-true false h = refl

listed-parts :
    (n k : ℕ) (x : BanknoteTx)
    → listed n k x ≡ true
    → (is_br x ≡ false) × (is_nt x ≡ false) × (ledger_of n x.tx_hash ≡ k)
listed-parts n k x e =
    let (recycled, rest) = and-parts (not (is_br x)) (applied n k x) e in
    let (normal, same) = and-parts (not (is_nt x)) (ledger_of n x.tx_hash == k) rest in
    (
      not-true (is_br x) recycled,
      not-true (is_nt x) normal,
      (==_iff (ledger_of n x.tx_hash) k).0 same,
    )

pub applied-picks : (n k i : ℕ) (x : BanknoteTx) → listed n k x ≡ true → applied n i x ≡ (k == i)
applied-picks n k i x e =
    let (recycled, normal, ledger) = listed-parts n k x e in rw normal (ap (λ z. z == i) ledger)

listed-picks : (n k i : ℕ) (x : BanknoteTx) → listed n k x ≡ true → listed n i x ≡ (k == i)
listed-picks n k i x e =
    let (recycled, normal, ledger) = listed-parts n k x e in rw recycled (applied-picks n k i x e)

module _ (n : ℕ) where
  -- Every list from ledger `k` on holds transactions that its ledger lists.
  abbrev pub Filed : ℕ → List (List BanknoteTx) → Type 0
  Filed k [] = Unit
  Filed k (l ∷ ls) = All (λ x. listed n k x ≡ true) l × Filed (k + 1) ls

  Filed-sorted :
      (txs : List BanknoteTx) (k : ℕ) (ls : List (List BanknoteTx))
      → ((i : ℕ) → i < length ls → get_elem? ls i ≡ some (keep (listed n (k + i)) txs))
      → Filed k (map sort_banknote_txs ls)
  Filed-sorted txs k [] f = tt
  Filed-sorted txs k (l ∷ ls) f =
      let first : some l ≡ some (keep (listed n k) txs) =
        subst (λ z. some l ≡ some (keep (listed n z) txs)) (omega arith) (f 0 (omega arith)) in
      let l_eq : l ≡ keep (listed n k) txs = cc in
      let shift : (i : ℕ)
          → i < length ls
          → get_elem? ls i ≡ some (keep (listed n (k + 1 + i)) txs) =
        λ i h.
          subst (λ z. get_elem? ls i ≡ some (keep (listed n z) txs)) (omega arith)
            (f (suc i) (omega arith)) in
      (
        sort-All (λ x. listed n k x ≡ true) l
            (subst (All (λ x. listed n k x ≡ true)) (sym l_eq) (keep-All (listed n k) txs)),
        Filed-sorted txs (k + 1) ls shift,
      )

  module _ (q : ℕ → BanknoteTx → Bool)
      (picks : (k i : ℕ) (x : BanknoteTx) → listed n k x ≡ true → q i x ≡ (k == i)) where
    keep-earlier :
        (k i : ℕ) (ls : List (List BanknoteTx)) → i < k → Filed k ls → keep (q i) (concat ls) ≡ []
    unfolding concat
    keep-earlier k i [] h f = refl
    keep-earlier k i (l ∷ ls) h f =
        keep-append (q i) l (concat ls)
        ∙ ap (λ r. r ++ keep (q i) (concat ls))
            (keep-none (q i) l (
              All-map (λ x. listed n k x ≡ true) (λ x. q i x ≡ false) l
                (λ x e. picks k i x e ∙ ==_ne k i (omega arith)) f.0))
        ∙ keep-earlier (k + 1) i ls (omega arith) f.1

    -- What a ledger finds in the lists put together is its own list.
    keep-own :
        (k i : ℕ) (ls : List (List BanknoteTx))
        → i < length ls
        → Filed k ls
        → get_elem? ls i ≡ some (keep (q (k + i)) (concat ls))
    unfolding concat
    keep-own k i [] h f = absurd (omega arith)
    keep-own k zero (l ∷ ls) h f =
        let here : keep (q (k + 0)) l ≡ l = keep_self (q (k + 0)) l (
          All-map (λ x. listed n k x ≡ true) (λ x. q (k + 0) x ≡ true) l
            (λ x e. picks k (k + 0) x e ∙ (==_iff k (k + 0)).1 (omega arith)) f.0) in
        let later : keep (q (k + 0)) (concat ls) ≡ [] =
          keep-earlier (k + 1) (k + 0) ls (omega arith) f.1 in
        ap some (
          sym (append-nil l)
          ∙ ap (λ r. l ++ r) (sym later)
          ∙ ap (λ r. r ++ keep (q (k + 0)) (concat ls)) (sym here)
          ∙ sym (keep-append (q (k + 0)) l (concat ls)))
    keep-own k (suc i) (l ∷ ls) h f =
        let here : keep (q (k + 1 + i)) l ≡ [] = keep-none (q (k + 1 + i)) l (
          All-map (λ x. listed n k x ≡ true) (λ x. q (k + 1 + i) x ≡ false) l
            (λ x e. picks k (k + 1 + i) x e ∙ ==_ne k (k + 1 + i) (λ e'. omega arith)) f.0) in
        let all : keep (q (k + 1 + i)) (l ++ concat ls) ≡ keep (q (k + 1 + i)) (concat ls) =
          keep-append (q (k + 1 + i)) l (concat ls)
          ∙ ap (λ r. r ++ keep (q (k + 1 + i)) (concat ls)) here in
        subst (λ z. get_elem? ls i ≡ some (keep (q z) (l ++ concat ls))) (omega arith)
          (keep-own (k + 1) i ls (omega arith) f.1 ∙ ap some (sym all))

    module _ (skips : (i : ℕ) (x : BanknoteTx) → is_nt x ≡ true → q i x ≡ false) where
      pub keep-own_block :
          (i : ℕ) (normal txs : List BanknoteTx) (ls : List (List BanknoteTx))
          → normal ≡ keep is_nt txs
          → i < length ls
          → Filed 0 ls
          → get_elem? ls i ≡ some (keep (q i) (normal ++ concat ls))
      keep-own_block i normal txs ls e h f =
          let is_normal : All (λ x. is_nt x ≡ true) normal =
            subst (All (λ x. is_nt x ≡ true)) (sym e) (keep-All is_nt txs) in
          let none_here : keep (q i) normal ≡ [] =
            keep-none (q i) normal
              (All-map (λ x. is_nt x ≡ true) (λ x. q i x ≡ false) normal (skips i) is_normal) in
          subst (λ z. get_elem? ls i ≡ some (keep (q z) (concat ls))) (omega arith)
            (keep-own 0 i ls h f)
          ∙ ap some (
              ap (λ r. r ++ keep (q i) (concat ls)) (sym none_here)
              ∙ sym (keep-append (q i) normal (concat ls)))

  keep-normal_none :
      (k : ℕ) (ls : List (List BanknoteTx)) → Filed k ls → keep is_nt (concat ls) ≡ []
  unfolding concat
  keep-normal_none k [] f = refl
  keep-normal_none k (l ∷ ls) f =
      keep-append is_nt l (concat ls)
      ∙ ap (λ r. r ++ keep is_nt (concat ls))
          (keep-none is_nt l (
            All-map (λ x. listed n k x ≡ true) (λ x. is_nt x ≡ false) l
              (λ x e. (listed-parts n k x e).1) f.0))
      ∙ keep-normal_none (k + 1) ls f.1

and-false : (b : Bool) → (b && false) ≡ false
and-false true = refl
and-false false = refl

is_nt_not_br : (x : BanknoteTx) → is_nt x ≡ true → is_br x ≡ false
is_nt_not_br x e = ground arith

pub length-map_sort : (ls : List (List BanknoteTx)) → length (map sort_banknote_txs ls) ≡ length ls
length-map_sort [] = refl
length-map_sort (l ∷ ls) = ap suc (length-map_sort ls)

-- The block of a classified list.
pub seal_block-lists :
    (keccak256 : Bytes → Hash) (n block_number : ℕ) (c : Classified) (croot : Hash)
    (proots : List Hash)
    → length c.block_per_ledger ≡ n
    → n ≤ length proots
    → Returns (seal_block keccak256 n block_number c croot proots) (λ b.
      (b.c_ledger ≡ c.normal_txs) × (b.p_ledgers ≡ map sort_banknote_txs c.block_per_ledger))
unfolding seal_block
seal_block-lists keccak256 n block_number c croot proots e h =
    let ledgers = map sort_banknote_txs c.block_per_ledger in
    let len : length ledgers ≡ n = length-map_sort c.block_per_ledger ∙ e in
    let (b, run, facts) =
      new_banknote_block-counts keccak256 ledgers c.normal_txs block_number
        (all_tx_hash keccak256 c.block_per_ledger) croot proots (omega arith) in
    (
      b,
      subst
          (λ z.
            new_banknote_block keccak256 z ledgers c.normal_txs block_number
              (all_tx_hash keccak256 c.block_per_ledger) croot proots
            ≡ ok b)
          len run,
      (facts.2, facts.3),
    )

-- Classified lists that are as the classification leaves them.
module _ (n : ℕ) (txs : List BanknoteTx) (c : Classified) (normal : c.normal_txs ≡ keep is_nt txs)
    (blocks : length c.block_per_ledger ≡ n)
    (at_ledger : (i : ℕ)
      → i < n
      → get_elem? c.block_per_ledger i ≡ some (keep (listed n i) txs)) where
  abbrev pub own_lists : List (List BanknoteTx)
  own_lists = map sort_banknote_txs c.block_per_ledger

  abbrev pub all_txs : List BanknoteTx
  all_txs = c.normal_txs ++ concat own_lists

  pub is_Filed : Filed n 0 own_lists
  is_Filed = Filed-sorted n txs 0 c.block_per_ledger (λ i h.
      subst (λ z. get_elem? c.block_per_ledger i ≡ some (keep (listed n z) txs)) (omega arith)
        (at_ledger i (omega arith)))

  pub all_txs-normal : keep is_nt all_txs ≡ c.normal_txs
  all_txs-normal =
      keep-append is_nt c.normal_txs (concat own_lists)
      ∙ ap (λ r. r ++ keep is_nt (concat own_lists))
          (keep_self is_nt c.normal_txs
            (subst (All (λ x. is_nt x ≡ true)) (sym normal) (keep-All is_nt txs)))
      ∙ ap (λ r. c.normal_txs ++ r) (keep-normal_none n 0 own_lists is_Filed)
      ∙ append-nil c.normal_txs

  pub classify-all_txs :
      0 < n
      → Returns (classify n all_txs) (λ c'.
        (c'.normal_txs ≡ c.normal_txs)
        × (c'.block_per_ledger ≡ own_lists)
        × (c'.actions_per_ledger ≡ own_lists))
  classify-all_txs p =
      let (c', run, (normal', bl, al, lists)) = classify-sorts n all_txs p in
      let len : length own_lists ≡ n = length-map_sort c.block_per_ledger ∙ blocks in
      (
        c',
        run,
        (
          normal' ∙ all_txs-normal,
          list_ext c'.block_per_ledger own_lists (bl ∙ sym len) (λ i h.
              (lists i (omega arith)).0
              ∙ sym (
                  keep-own_block n (listed n) (listed-picks n)
                    (λ j x e. rw e (and-false (not (is_br x)))) i c.normal_txs txs own_lists normal
                    h is_Filed)),
          list_ext c'.actions_per_ledger own_lists (al ∙ sym len) (λ i h.
              (lists i (omega arith)).1
              ∙ sym (
                  keep-own_block n (applied n) (applied-picks n) (λ j x e. rw e refl) i c.normal_txs
                    txs own_lists normal h is_Filed)),
        ),
      )

-- With at least one ledger and a state root for each, a leader's transactions are classified and
-- sealed in a block, and the transactions that a peer takes from that block are classified to
-- the lists of the block: the same normal transactions in the same order, and for each ledger
-- the list that the block shows, both to be listed and to be applied.
pub seal_block-replays :
    (keccak256 : Bytes → Hash) (n block_number : ℕ) (txs : List BanknoteTx) (croot : Hash)
    (proots : List Hash)
    → 0 < n
    → n ≤ length proots
    → Returns (classify n txs) (λ c.
      Returns (seal_block keccak256 n block_number c croot proots) (λ b.
        Returns (classify n (replayed b)) (λ c'.
          (c'.normal_txs ≡ b.c_ledger)
          × (c'.block_per_ledger ≡ b.p_ledgers)
          × (c'.actions_per_ledger ≡ b.p_ledgers))))
unfolding replayed
seal_block-replays keccak256 n block_number txs croot proots p h =
    let (c, run, (normal, bl, al, lists)) = classify-sorts n txs p in
    let (b, sealed, (cl, pl)) = seal_block-lists keccak256 n block_number c croot proots bl h in
    let (c', again, (normal', b', a')) =
      classify-all_txs n txs c normal bl (λ i q. (lists i q).0) p in
    let same : b.c_ledger ++ concat b.p_ledgers ≡ all_txs n txs c normal bl (λ i q. (lists i q).0) =
      ap (λ r. r ++ concat b.p_ledgers) cl ∙ ap (λ r. c.normal_txs ++ concat r) pl in
    (c, run, (b, sealed, (c', rw same again, (normal' ∙ sym cl, b' ∙ sym pl, a' ∙ sym pl))))

keep_br-none : (n k : ℕ) (ls : List (List BanknoteTx)) → Filed n k ls → keep is_br (concat ls) ≡ []
unfolding concat
keep_br-none n k [] f = refl
keep_br-none n k (l ∷ ls) f =
    keep-append is_br l (concat ls)
    ∙ ap (λ r. r ++ keep is_br (concat ls))
        (keep-none is_br l (
          All-map (λ x. listed n k x ≡ true) (λ x. is_br x ≡ false) l
            (λ x e. (listed-parts n k x e).0) f.0))
    ∙ keep_br-none n (k + 1) ls f.1

-- With at least one ledger and a state root for each, the transactions that a peer takes from the
-- block of any transactions hold none of type BR, although the leader's ledgers apply those of type
-- BR: ledger `i` of the leader applies all transactions of other types than NT whose hash belongs
-- to it.
pub replayed-recycles_none :
    (keccak256 : Bytes → Hash) (n block_number : ℕ) (txs : List BanknoteTx) (croot : Hash)
    (proots : List Hash)
    → 0 < n
    → n ≤ length proots
    → Returns (classify n txs) (λ c.
      Returns (seal_block keccak256 n block_number c croot proots) (λ b.
        (keep is_br (replayed b) ≡ [])
        × ((i : ℕ) → i < n → get_elem? c.actions_per_ledger i ≡ some (keep (applied n i) txs))))
unfolding replayed
replayed-recycles_none keccak256 n block_number txs croot proots p h =
    let (c, run, (normal, bl, al, lists)) = classify-sorts n txs p in
    let (b, sealed, (cl, pl)) = seal_block-lists keccak256 n block_number c croot proots bl h in
    let filed = is_Filed n txs c normal bl (λ i q. (lists i q).0) in
    let no_normal : keep is_br (keep is_nt txs) ≡ [] = keep-none is_br (keep is_nt txs) (
      All-map (λ x. is_nt x ≡ true) (λ x. is_br x ≡ false) (keep is_nt txs) is_nt_not_br
        (keep-All is_nt txs)) in
    let empty : keep is_br (c.normal_txs ++ concat (map sort_banknote_txs c.block_per_ledger))
        ≡ [] =
      keep-append is_br c.normal_txs (concat (map sort_banknote_txs c.block_per_ledger))
      ∙ ap (λ r. keep is_br r ++ keep is_br (concat (map sort_banknote_txs c.block_per_ledger)))
          normal
      ∙ ap (λ r. r ++ keep is_br (concat (map sort_banknote_txs c.block_per_ledger))) no_normal
      ∙ keep_br-none n 0 (map sort_banknote_txs c.block_per_ledger) filed in
    let same : b.c_ledger ++ concat b.p_ledgers
        ≡ c.normal_txs ++ concat (map sort_banknote_txs c.block_per_ledger) =
      ap (λ r. r ++ concat b.p_ledgers) cl ∙ ap (λ r. c.normal_txs ++ concat r) pl in
    (c, run, (b, sealed, (ap (keep is_br) same ∙ empty, λ i q. (lists i q).1)))
