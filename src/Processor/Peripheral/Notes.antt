-- ===== src/Processor/Peripheral/Notes.antt =====
-- What the phases do to the active banknotes, on the pool seen as one map.
use banknote_chain.Base.{
  ◌≡◌, ◌∙◌, ap, List, [], ◌∷◌, ◌++◌, Option, none, some, if◌then◌else◌, arith, Bool-cases, ==_iff,
  inl, inr, sym, refl, ◌==◌,
}
use banknote_chain.Base.Int.{ℤ}
use banknote_chain.Base.Outcome.{ok}
use banknote_chain.Base.Go.{Hash, Address}
use banknote_chain.Banknote.{Banknote, ledger_of}
use banknote_chain.Config.{Config}
use banknote_chain.Pool.{ActiveBanknotePool}
use banknote_chain.Pool.Refinement.{Notes, assign, Holds}
use banknote_chain.Processor.Peripheral.{is_init_banknote, Phases}
use banknote_chain.Tx.{BanknoteTx}

-- A banknote is bound to its own hash.
abbrev pub Keyed : Notes → Type 0
Keyed f = (h : Hash) (b : Banknote) → f h ≡ some b → b.banknote_hash ≡ h

pub assign-Keyed : (f : Notes) (b : Banknote) → Keyed f → Keyed (assign f b.banknote_hash (some b))
assign-Keyed f b k h c e = ground (arith, k h c)

pub assign-none-Keyed : (f : Notes) (j : Hash) → Keyed f → Keyed (assign f j none)
assign-none-Keyed f j k h c e = ground (arith, k h c)

pub Holds-congr :
    (bp : ActiveBanknotePool) (f f' : Notes) → Holds bp f → ((h : Hash) → f h ≡ f' h) → Holds bp f'
Holds-congr bp f f' (s, at) same = (s, λ h. at h ∙ ap ok (same h))

-- A phase: the steps in turn, and the hashes that they note.
abbrev pub all_notes : (Notes → BanknoteTx → Notes) → List BanknoteTx → Notes → Notes
all_notes step [] f = f
all_notes step (tx ∷ txs) f = all_notes step txs (step f tx)

abbrev pub all_noted :
    (Notes → BanknoteTx → Notes)
    → (Notes → BanknoteTx → List Hash)
    → List BanknoteTx
    → Notes
    → List Hash
all_noted step noted [] f = []
all_noted step noted (tx ∷ txs) f = noted f tx ++ all_noted step noted txs (step f tx)

-- What a split notes, by what it found at its source.
abbrev pub missing_hash : Option Banknote → BanknoteTx → List Hash
missing_hash none tx = tx.banknote_hash ∷ []
missing_hash (some _) tx = []

module _ (config : Config) where
  -- `NewBanknote`
  abbrev pub fresh : Hash → Option ℤ → Address → Banknote
  fresh h v owner = record {
    banknote_hash = h;
    value = v;
    owner = owner;
    ledger_id = ledger_of config.banknote_chain_pledger_number h;
    turn_over_count = 0;
  }

  abbrev pub bg_notes : Notes → BanknoteTx → Notes
  bg_notes f tx = assign f tx.banknote_hash (some (fresh tx.banknote_hash tx.amount tx.from))

  abbrev pub bs_notes : Notes → BanknoteTx → Notes
  bs_notes f tx =
      let h₁ = tx.banknote_hash1_new_for_split in
      let h₂ = tx.banknote_hash2_new_for_split in
      assign
        (assign (assign f tx.banknote_hash none) h₁
          (some (fresh h₁ tx.amount1_new_for_split tx.from)))
        h₂ (some (fresh h₂ tx.amount2_new_for_split tx.to))

  -- The banknote that a transfer of an inactive hash makes, if its amount is the initial one.
  abbrev pub made : Option ℤ → BanknoteTx → Option Banknote
  made none tx = none
  made (some v) tx =
      if is_init_banknote v then some (fresh tx.banknote_hash tx.amount tx.to) else none

  abbrev pub handed_over : Option Banknote → BanknoteTx → Option Banknote
  handed_over (some b) tx = some (record b { owner = tx.to })
  handed_over none tx = made tx.amount tx

  abbrev pub bt_notes : Notes → BanknoteTx → Notes
  bt_notes f tx = assign f tx.banknote_hash (handed_over (f tx.banknote_hash) tx)

  abbrev pub br_notes : Notes → BanknoteTx → Notes
  br_notes f tx = assign f tx.banknote_hash none

  abbrev pub missing_source : Notes → BanknoteTx → List Hash
  missing_source f tx = missing_hash (f tx.banknote_hash) tx

  abbrev pub without : List Hash → Notes → Notes
  without [] f = f
  without (h ∷ hs) f = without hs (assign f h none)

  -- The active banknotes after the phases. The sources that a split did not find go last.
  abbrev pub after_phases : Phases → Notes → Notes
  after_phases p f =
      let generated = all_notes bg_notes p.bg_txs f in
      let split = all_notes bs_notes p.bs_txs generated in
      let moved = all_notes bt_notes p.bt_txs split in
      without (all_noted bs_notes missing_source p.bs_txs generated)
        (all_notes br_notes p.br_txs moved)

  made-hash :
      (v : Option ℤ) (tx : BanknoteTx) (c : Banknote)
      → made v tx ≡ some c
      → c.banknote_hash ≡ tx.banknote_hash
  made-hash none tx c e = cc
  made-hash (some v) tx c e = elim (Bool-cases (is_init_banknote v)) [
    | inl s ↦
        let e' : some (fresh tx.banknote_hash tx.amount tx.to) ≡ some c = rw s at e in
        let same : fresh tx.banknote_hash tx.amount tx.to ≡ c = cc in
        sym (ap (λ b. b.banknote_hash) same)
    | inr s ↦ let e' : none ≡ some c = rw s at e in cc
  ]

  handed_over-hash :
      (o : Option Banknote) (tx : BanknoteTx)
      → ((b : Banknote) → o ≡ some b → b.banknote_hash ≡ tx.banknote_hash)
      → (c : Banknote) → handed_over o tx ≡ some c
      → c.banknote_hash ≡ tx.banknote_hash
  handed_over-hash none tx own c e = made-hash tx.amount tx c e
  handed_over-hash (some b) tx own c e =
      let same : record b { owner = tx.to } ≡ c = cc in
      sym (ap (λ d. d.banknote_hash) same) ∙ own b refl

  pub all_notes-Keyed :
      (step : Notes → BanknoteTx → Notes)
      → ((f : Notes) (tx : BanknoteTx) → Keyed f → Keyed (step f tx))
      → (txs : List BanknoteTx) (f : Notes) → Keyed f
      → Keyed (all_notes step txs f)
  all_notes-Keyed step rule [] f k = k
  all_notes-Keyed step rule (tx ∷ txs) f k = all_notes-Keyed step rule txs (step f tx) (rule f tx k)

  pub without-Keyed : (hs : List Hash) (f : Notes) → Keyed f → Keyed (without hs f)
  without-Keyed [] f k = k
  without-Keyed (h ∷ hs) f k = without-Keyed hs (assign f h none) (assign-none-Keyed f h k)

  bs_notes-Keyed : (f : Notes) (tx : BanknoteTx) → Keyed f → Keyed (bs_notes f tx)
  bs_notes-Keyed f tx k =
      let b₁ = fresh tx.banknote_hash1_new_for_split tx.amount1_new_for_split tx.from in
      let b₂ = fresh tx.banknote_hash2_new_for_split tx.amount2_new_for_split tx.to in
      assign-Keyed _ b₂ (assign-Keyed _ b₁ (assign-none-Keyed f tx.banknote_hash k))

  bt_notes-Keyed : (f : Notes) (tx : BanknoteTx) → Keyed f → Keyed (bt_notes f tx)
  bt_notes-Keyed f tx k j c e = elim (Bool-cases (tx.banknote_hash == j)) [
    | inl s ↦
        let e' : handed_over (f tx.banknote_hash) tx ≡ some c = rw s at e in
        handed_over-hash (f tx.banknote_hash) tx (k tx.banknote_hash) c e'
        ∙ (==_iff tx.banknote_hash j).0 s
    | inr s ↦ let e' : f j ≡ some c = rw s at e in k j c e'
  ]

  -- The phases leave each banknote under its own hash.
  pub after_phases-Keyed : (p : Phases) (f : Notes) → Keyed f → Keyed (after_phases p f)
  after_phases-Keyed p f k =
      let generated =
        all_notes-Keyed bg_notes
          (λ f' tx k'. assign-Keyed f' (fresh tx.banknote_hash tx.amount tx.from) k') p.bg_txs f
          k in
      let split = all_notes-Keyed bs_notes bs_notes-Keyed p.bs_txs _ generated in
      let moved = all_notes-Keyed bt_notes bt_notes-Keyed p.bt_txs _ split in
      without-Keyed (all_noted bs_notes missing_source p.bs_txs (all_notes bg_notes p.bg_txs f)) _ (
        all_notes-Keyed br_notes (λ f' tx k'. assign-none-Keyed f' tx.banknote_hash k') p.br_txs _
          moved)
