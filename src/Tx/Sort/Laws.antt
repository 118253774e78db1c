-- ===== src/Tx/Sort/Laws.antt =====
-- The order of a ledger's transactions is determined by the transactions.
use mathlib.Core.List.{Mem, mem-cons, mem-cons_self, mem-cons_of_mem, not-mem-nil}
use mathlib.Core.List.Perm
use mathlib.Core.Logic.Or
use native.Mathlib.Bridge.{le_prop}
use banknote_chain.Base.{ℕ, ◌≤◌, ◌≡◌, sym, ap₂, List, [], ◌∷◌, Perm, arith, Bool-cases, inl, inr}
use banknote_chain.Tx.{BanknoteTx}
use banknote_chain.Tx.Sort.{less, insert_sorted, sort_banknote_txs}

-- No hash in the list is above `h`.
abbrev pub UpTo : ℕ → List BanknoteTx → Type 0
UpTo h [] = Unit
UpTo h (x ∷ xs) = (x.tx_hash ≤ h) × UpTo h xs

abbrev pub IsDescending : List BanknoteTx → Type 0
IsDescending [] = Unit
IsDescending (x ∷ xs) = UpTo x.tx_hash xs × IsDescending xs

UpTo-trans : (h k : ℕ) (xs : List BanknoteTx) → h ≤ k → UpTo h xs → UpTo k xs
UpTo-trans h k [] p u = tt
UpTo-trans h k (x ∷ xs) p u = (omega arith, UpTo-trans h k xs p u.1)

insert_sorted-UpTo :
    (h : ℕ) (x : BanknoteTx) (ys : List BanknoteTx)
    → x.tx_hash ≤ h
    → UpTo h ys
    → UpTo h (insert_sorted x ys)
unfolding insert_sorted
insert_sorted-UpTo h x [] p u = (p, tt)
insert_sorted-UpTo h x (y ∷ ys) p u = elim (Bool-cases (less y x)) [
  | inl e ↦ rw e (u.0, insert_sorted-UpTo h x ys p u.1)
  | inr e ↦ rw e (p, u)
]

insert_sorted-IsDescending :
    (x : BanknoteTx) (ys : List BanknoteTx) → IsDescending ys → IsDescending (insert_sorted x ys)
unfolding insert_sorted less
insert_sorted-IsDescending x [] d = (tt, tt)
insert_sorted-IsDescending x (y ∷ ys) d = elim (Bool-cases (less y x)) [
  | inl e ↦
      rw e
        (insert_sorted-UpTo y.tx_hash x ys (ground arith) d.0, insert_sorted-IsDescending x ys d.1)
  | inr e ↦
      let le : y.tx_hash ≤ x.tx_hash = ground arith in
      rw e ((le, UpTo-trans y.tx_hash x.tx_hash ys le d.0), d)
]

insert_sorted-perm : (x : BanknoteTx) (ys : List BanknoteTx) → Perm (insert_sorted x ys) (x ∷ ys)
unfolding insert_sorted
insert_sorted-perm x [] = Perm.rfl
insert_sorted-perm x (y ∷ ys) = elim (Bool-cases (less y x)) [
  | inl e ↦ rw e (Perm.trans (Perm.cons y (insert_sorted-perm x ys)) (Perm.swap x y ys))
  | inr e ↦ rw e Perm.rfl
]

-- The result has the same transactions, in descending order of their hashes.
pub sort_banknote_txs-sorts :
    (txs : List BanknoteTx)
    → Perm (sort_banknote_txs txs) txs × IsDescending (sort_banknote_txs txs)
unfolding sort_banknote_txs
sort_banknote_txs-sorts [] = (Perm.rfl, tt)
sort_banknote_txs-sorts (x ∷ xs) =
    let (same, ordered) = sort_banknote_txs-sorts xs in
    (
      Perm.trans (insert_sorted-perm x (sort_banknote_txs xs)) (Perm.cons x same),
      insert_sorted-IsDescending x (sort_banknote_txs xs) ordered,
    )

UpTo-mem : (h : ℕ) (x : BanknoteTx) (xs : List BanknoteTx) → UpTo h xs → Mem x xs → x.tx_hash ≤ h
UpTo-mem h x [] u m = absurd (not-mem-nil m)
UpTo-mem h x (y ∷ ys) u m = Or.elim le_prop (mem-cons.0 m) (λ e. rw e u.0) (UpTo-mem h x ys u.1)

-- Transactions of the list with one hash are one transaction.
abbrev pub HashesIdentify : List BanknoteTx → Type 0
HashesIdentify txs = (x y : BanknoteTx) → Mem x txs → Mem y txs → x.tx_hash ≡ y.tx_hash → x ≡ y

descending_unique :
    (xs ys : List BanknoteTx)
    → HashesIdentify xs
    → Perm xs ys
    → IsDescending xs
    → IsDescending ys
    → xs ≡ ys
descending_unique [] ys i p dx dy = Perm.nil-eq p
descending_unique (x ∷ xs) [] i p dx dy = Perm.eq-nil p
descending_unique (x ∷ xs) (y ∷ ys) i p dx dy =
    let y_in : Mem y (x ∷ xs) = (Perm.mem_iff p).1 mem-cons_self in
    let x_in : Mem x (y ∷ ys) = (Perm.mem_iff p).0 mem-cons_self in
    let above = UpTo-mem x.tx_hash y (x ∷ xs) (omega arith, dx.0) y_in in
    let below = UpTo-mem y.tx_hash x (y ∷ ys) (omega arith, dy.0) x_in in
    let same : x ≡ y = i x y mem-cons_self y_in (omega arith) in
    let tails = Perm.cons_inv (Perm.trans p (Perm.cons' (sym same) Perm.rfl)) in
    ap₂ ◌∷◌ same (
      descending_unique xs ys (λ a b ma mb. i a b (mem-cons_of_mem x ma) (mem-cons_of_mem x mb))
        tails dx.1 dy.1)

-- Where a hash identifies its transaction, any ordering by `Less` gives this list: it does not
-- depend on the sorting algorithm, nor on the order in which the transactions came.
pub sort_banknote_txs_unique :
    (txs ys : List BanknoteTx)
    → HashesIdentify txs
    → Perm ys txs
    → IsDescending ys
    → sort_banknote_txs txs ≡ ys
sort_banknote_txs_unique txs ys i p d =
    let (same, ordered) = sort_banknote_txs-sorts txs in
    descending_unique (sort_banknote_txs txs) ys
      (λ a b ma mb. i a b ((Perm.mem_iff same).0 ma) ((Perm.mem_iff same).0 mb))
      (Perm.trans same (Perm.symm p)) ordered d
