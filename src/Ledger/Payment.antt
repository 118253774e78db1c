-- ===== src/Ledger/Payment.antt =====
-- One round of either ledger loop refines a payment on the accounts.
use banknote_chain.Base.{◌≡◌, refl, not, some, Bool-cases, inl, inr}
use banknote_chain.Base.Int.{ℤ, leb_ℤ}
use banknote_chain.Base.Outcome.{ok, Returns}
use banknote_chain.Base.Go.{Gob, IsGob, TrieLib, IsTrieLib, Updated}
use banknote_chain.Account.{AccountState, deduct, deposit}
use banknote_chain.Ledger.{pay}
use banknote_chain.Ledger.View.{Accounts, Reads, put, bump, store_account-Reads, Updated-trans}
use banknote_chain.Ledger.Spec.{Payment, debited, credited, settle}

deduct-debited :
    (s : AccountState) (v : ℤ) → deduct s (some v) ≡ ok (debited v s, not (leb_ℤ s.balance v))
unfolding deduct
deduct-debited s v = elim (Bool-cases (leb_ℤ s.balance v)) [ inl e ↦ rw e | inr e ↦ rw e ]

deposit-credited : (s : AccountState) (v : ℤ) → deposit s (some v) ≡ ok (credited v s)
unfolding deposit
deposit-credited s v = refl

module _ {T : TrieLib} {g : Gob AccountState} (init_balance : ℤ) (lawful : IsTrieLib T)
    (codec : IsGob g) where
  -- A round never faults when the amount is there, and leaves the accounts as the payment does.
  pub pay-Reads :
      (st : T.Trie) (f : Accounts) (p : Payment)
      → Reads T g init_balance st f
      → Returns
          (pay T g init_balance st p.source p.target (some p.amount))
          λ st'. Updated T st st' × Reads T g init_balance st' (settle f p)
  unfolding pay settle
  pay-Reads st f p reads =
      let s = debited p.amount (f p.source) in
      let f' = put f p.source (bump s) in
      let (st₁, run₁, (u₁, reads₁)) =
        store_account-Reads init_balance lawful codec st f p.source s reads in
      let (st₂, run₂, (u₂, reads₂)) =
        store_account-Reads init_balance lawful codec st₁ f' p.target
          (credited p.amount (f' p.target)) reads₁ in
      (
        st₂,
        rw
            (
              reads p.source,
              deduct-debited (f p.source) p.amount,
              run₁,
              reads₁ p.target,
              deposit-credited (f' p.target) p.amount,
            )
            run₂,
        (Updated-trans init_balance lawful codec u₁ u₂, reads₂),
      )
