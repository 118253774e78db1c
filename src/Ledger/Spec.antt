-- ===== src/Ledger/Spec.antt =====
-- Payments on accounts seen as a function: what a ledger promises, with no trie and no encoding.
use banknote_chain.Base.{
  ◌≡◌, ◌≢◌, refl, List, [], ◌∷◌, if◌then◌else◌, arith, Bool-cases, inl, inr, ◌⊎◌,
}
use banknote_chain.Base.Int.{ℤ, pos, ◌+ℤ◌, ◌-ℤ◌, leb_ℤ, int_laws, parts_of_eq}
use banknote_chain.Base.Go.{Address}
use banknote_chain.Account.{AccountState}
use banknote_chain.Ledger.View.{Accounts, put, bump}

pub record Payment : Type 0 where
  pub source : Address
  pub target : Address
  pub amount : ℤ

-- A payer that does not hold more than the amount keeps what it has.
abbrev pub debited : ℤ → AccountState → AccountState
debited v s = if leb_ℤ s.balance v then s else record s { balance = s.balance -ℤ v }

abbrev pub credited : ℤ → AccountState → AccountState
credited v s = record s { balance = s.balance +ℤ v }

unfoldable pub settle : Accounts → Payment → Accounts
settle f p =
    let f' = put f p.source (bump (debited p.amount (f p.source))) in
    put f' p.target (bump (credited p.amount (f' p.target)))

unfoldable pub settle_all : Accounts → List Payment → Accounts
settle_all f [] = f
settle_all f (p ∷ ps) = settle_all (settle f p) ps

-- The amounts that are credited though no one was debited.
unfoldable pub minted : Accounts → List Payment → ℤ
unfolding settle
minted f [] = pos 0
minted f (p ∷ ps) =
    (if leb_ℤ (f p.source).balance p.amount then p.amount else pos 0) +ℤ minted (settle f p) ps

unfoldable pub total : List Address → Accounts → ℤ
total [] f = pos 0
total (a ∷ rest) f = (f a).balance +ℤ total rest f

-- `a` stands exactly once in the list.
abbrev pub Absent : Address → List Address → Type 0
Absent a [] = Unit {0}
Absent a (b ∷ bs) = (a ≢ b) × Absent a bs

abbrev pub Once : Address → List Address → Type 0
Once a [] = ⊥
Once a (b ∷ bs) = ((a ≡ b) × Absent a bs) ⊎ ((a ≢ b) × Once a bs)

put_self : (f : Accounts) (a b : Address) (s : AccountState) → a ≡ b → put f a s b ≡ s
put_self f a b s e = ground arith

put_ne : (f : Accounts) (a b : Address) (s : AccountState) → a ≢ b → put f a s b ≡ f b
put_ne f a b s e = ground arith

total-put-Absent :
    (xs : List Address) (f : Accounts) (a : Address) (s : AccountState)
    → Absent a xs
    → total xs (put f a s) ≡ total xs f
unfolding total
total-put-Absent [] f a s h = refl
total-put-Absent (b ∷ bs) f a s h = rw (put_ne f a b s h.0, total-put-Absent bs f a s h.1)

total-put :
    (xs : List Address) (f : Accounts) (a : Address) (s : AccountState)
    → Once a xs
    → total xs (put f a s) +ℤ (f a).balance ≡ total xs f +ℤ s.balance
unfolding total
total-put [] f a s h = absurd h
total-put (b ∷ bs) f a s (inl (e, rest)) =
    rw (put_self f a b s e, total-put-Absent bs f a s rest, e) (omega int_laws)
total-put (b ∷ bs) f a s (inr (ne, later)) =
    let ih = parts_of_eq (total-put bs f a s later) in rw (put_ne f a b s ne) (omega (int_laws, ih))

-- What one payment mints.
abbrev surplus : Accounts → Payment → ℤ
surplus f p = if leb_ℤ (f p.source).balance p.amount then p.amount else pos 0

debited_balance :
    (f : Accounts) (p : Payment)
    → (debited p.amount (f p.source)).balance +ℤ p.amount ≡ (f p.source).balance +ℤ surplus f p
debited_balance f p = elim (Bool-cases (leb_ℤ (f p.source).balance p.amount)) [
  | inl kept ↦ rw kept
  | inr taken ↦ rw taken (omega int_laws)
]

total-settle :
    (xs : List Address) (f : Accounts) (p : Payment)
    → Once p.source xs
    → Once p.target xs
    → total xs (settle f p) ≡ total xs f +ℤ surplus f p
unfolding settle
total-settle xs f p hs ht =
    let s' = bump (debited p.amount (f p.source)) in
    let f' = put f p.source s' in
    let r' = bump (credited p.amount (f' p.target)) in
    omega (
      int_laws,
      parts_of_eq (total-put xs f p.source s' hs),
      parts_of_eq (total-put xs f' p.target r' ht),
      parts_of_eq (debited_balance f p),
    )

-- Both ends of every payment are counted once.
abbrev pub Covers : List Address → List Payment → Type 0
Covers xs [] = Unit {0}
Covers xs (p ∷ ps) = Once p.source xs × Once p.target xs × Covers xs ps

-- A block of payments changes the sum of the balances by exactly what it mints.
pub total-settle_all :
    (xs : List Address) (f : Accounts) (ps : List Payment)
    → Covers xs ps
    → total xs (settle_all f ps) ≡ total xs f +ℤ minted f ps
unfolding settle_all minted
total-settle_all xs f [] h = omega int_laws
total-settle_all xs f (p ∷ ps) h =
    let later = parts_of_eq (total-settle_all xs (settle f p) ps h.2) in
    let now = parts_of_eq (total-settle xs f p h.0 h.1) in omega (int_laws, later, now)
