-- ===== src/Account/Laws.antt =====
-- How `deduct` and `deposit` move a balance.
use banknote_chain.Base.{true, false, some, ◌≡◌, refl, ◌⊎◌, inl, inr, arith, Bool-cases, leb→le}
use banknote_chain.Base.Int.{ℤ, ◌+ℤ◌, ◌-ℤ◌, ◌≤ℤ◌, ◌<ℤ◌, int_laws, pos, leb_ℤ}
use banknote_chain.Base.Outcome.{Returns}
use banknote_chain.Account.{AccountState, deduct}

lt_of_leb_ℤ : (a b : ℤ) → leb_ℤ a b ≡ false → b <ℤ a
lt_of_leb_ℤ a b h = ground arith

positive : (a b : ℤ) → leb_ℤ a b ≡ false → pos 0 <ℤ a -ℤ b
positive a b h = let gap = lt_of_leb_ℤ a b h in omega int_laws

-- A deduction succeeds exactly when the balance is strictly above the amount. Then the balance
-- falls by the amount and stays positive; otherwise the account is left as it was.
pub deduct_guard :
    (s : AccountState) (v : ℤ)
    → Returns (deduct s (some v)) λ r.
      (v <ℤ s.balance × (r.1 ≡ true) × (r.0.balance +ℤ v ≡ s.balance) × (pos 0 <ℤ r.0.balance))
      ⊎ (s.balance ≤ℤ v × (r.1 ≡ false) × (r.0 ≡ s))
unfolding deduct
deduct_guard s v = elim (Bool-cases (leb_ℤ s.balance v)) [
  | inl refused ↦ ((s, false), rw refused, inr (leb→le _ _ refused, refl, refl))
  | inr allowed ↦ (
    (record s { balance = s.balance -ℤ v }, true),
    rw allowed,
    inl (lt_of_leb_ℤ s.balance v allowed, refl, omega int_laws, positive s.balance v allowed),
  )
]
