-- ===== src/Processor/Peripheral/Recycling.antt =====
-- Which banknotes the phases leave active: those that are recycled are gone, and those that no
-- transaction names are as they were.
use banknote_chain.Base.{
  ◌<◌, ◌≡◌, ◌≢◌, ◌∙◌, refl, sym, ap, List, [], ◌∷◌, All, Option, none, some, arith, Option-cases,
  inl, inr, ==_ne,
}
use banknote_chain.Base.Outcome.{ok, Returns}
use banknote_chain.Base.Go.{Hash}
use banknote_chain.Banknote.{Banknote}
use banknote_chain.Config.{Config}
use banknote_chain.Pool.{ActiveBanknotePool, get_banknote}
use banknote_chain.Pool.Refinement.{Notes, assign, Holds}
use banknote_chain.Processor.Peripheral.{Phases, run_phases}
use banknote_chain.Processor.Peripheral.Notes.{
  Keyed, bg_notes, bs_notes, bt_notes, br_notes, missing_source, handed_over, fresh, all_notes,
  all_noted, without,
}
use banknote_chain.Processor.Peripheral.Refinement.{HasAmount, run_phases-refines}
use banknote_chain.Tx.{BanknoteTx}

module _ (config : Config) where
  br_notes-none :
      (txs : List BanknoteTx) (f : Notes) (h : Hash)
      → f h ≡ none
      → all_notes (br_notes config) txs f h ≡ none
  br_notes-none [] f h e = e
  br_notes-none (tx ∷ txs) f h e = br_notes-none txs (br_notes config f tx) h (ground (arith, e))

  without-none : (hs : List Hash) (f : Notes) (h : Hash) → f h ≡ none → without config hs f h ≡ none
  without-none [] f h e = e
  without-none (k ∷ hs) f h e = without-none hs (assign f k none) h (ground (arith, e))

  br_notes-recycled :
      (hs : List Hash) (txs : List BanknoteTx) (f : Notes)
      → All
          (λ tx. without config hs (all_notes (br_notes config) txs f) tx.banknote_hash ≡ none)
          txs
  br_notes-recycled hs [] f = tt
  br_notes-recycled hs (tx ∷ txs) f = (
    without-none hs _ tx.banknote_hash
        (br_notes-none txs (br_notes config f tx) tx.banknote_hash (ground arith)),
    br_notes-recycled hs txs (br_notes config f tx),
  )

  without-gone : (hs : List Hash) (f : Notes) → All (λ h. without config hs f h ≡ none) hs
  without-gone [] f = tt
  without-gone (h ∷ hs) f =
      (without-none hs (assign f h none) h (ground arith), without-gone hs (assign f h none))

  All-read :
      {A : Type 0} (bp : ActiveBanknotePool) (f : Notes) (key : A → Hash) (xs : List A)
      → Holds bp f
      → All (λ x. f (key x) ≡ none) xs
      → All (λ x. get_banknote bp (key x) ≡ ok none) xs
  All-read bp f key [] held gone = tt
  All-read bp f key (x ∷ xs) held gone =
      (held.1 (key x) ∙ ap ok gone.0, All-read bp f key xs held gone.1)

  module _ (some_ledger : 0 < config.banknote_chain_pledger_number) (p : Phases)
      (bp : ActiveBanknotePool) (f : Notes) (amounts : All HasAmount p.bt_txs) (held : Holds bp f)
      (keyed : Keyed f) where
    -- With an amount in every transfer, after the phases no banknote that a transaction of the ledger
    -- recycles is active, and none of
    -- the hashes that a split named as its source when it was not active.
    pub run_phases-recycles : Returns (run_phases config p bp) λ w.
        All (λ tx. get_banknote w.pool tx.banknote_hash ≡ ok none) p.br_txs
        × All
            (λ h. get_banknote w.pool h ≡ ok none)
            (all_noted
              (bs_notes config)
              (missing_source config)
              p.bs_txs
              (all_notes (bg_notes config) p.bg_txs f))
    run_phases-recycles =
        let generated = all_notes (bg_notes config) p.bg_txs f in
        let split = all_notes (bs_notes config) p.bs_txs generated in
        let moved = all_notes (bt_notes config) p.bt_txs split in
        let recycled = all_notes (br_notes config) p.br_txs moved in
        let noted = all_noted (bs_notes config) (missing_source config) p.bs_txs generated in
        let (w, run, (holds, _)) =
          run_phases-refines config some_ledger p bp f amounts held keyed in
        (
          w,
          run,
          (
            All-read w.pool _ (λ tx. tx.banknote_hash) p.br_txs holds
                (br_notes-recycled noted p.br_txs moved),
            All-read w.pool _ (λ h. h) noted holds (without-gone noted recycled),
          ),
        )

  -- No transaction of the list has this hash as its own, or as one that a split makes.
  abbrev pub Unnamed : Hash → List BanknoteTx → Type 0
  Unnamed h txs = All (λ tx. tx.banknote_hash ≢ h) txs

  abbrev pub Unmade : Hash → List BanknoteTx → Type 0
  Unmade h txs =
      All (λ tx. (tx.banknote_hash1_new_for_split ≢ h) × (tx.banknote_hash2_new_for_split ≢ h)) txs

  assign_ne : (f : Notes) (k h : Hash) (v : Option Banknote) → k ≢ h → assign f k v h ≡ f h
  assign_ne f k h v ne = rw (==_ne k h ne)

  -- A phase whose step writes only at the transaction's own hash.
  own_hash_only :
      (value : Notes → BanknoteTx → Option Banknote) (txs : List BanknoteTx) (f : Notes) (h : Hash)
      → Unnamed h txs
      → all_notes (λ f' tx. assign f' tx.banknote_hash (value f' tx)) txs f h ≡ f h
  own_hash_only value [] f h u = refl
  own_hash_only value (tx ∷ txs) f h u =
      own_hash_only value txs (assign f tx.banknote_hash (value f tx)) h u.1
      ∙ assign_ne f tx.banknote_hash h (value f tx) u.0

  split_hashes_only :
      (txs : List BanknoteTx) (f : Notes) (h : Hash)
      → Unnamed h txs
      → Unmade h txs
      → all_notes (bs_notes config) txs f h ≡ f h
  split_hashes_only [] f h u m = refl
  split_hashes_only (tx ∷ txs) f h u m =
      split_hashes_only txs (bs_notes config f tx) h u.1 m.1
      ∙ rw (
        ==_ne tx.banknote_hash2_new_for_split h m.0.1,
        ==_ne tx.banknote_hash1_new_for_split h m.0.0,
        ==_ne tx.banknote_hash h u.0,
      )

  missing_named :
      (txs : List BanknoteTx) (f g : Notes) (h : Hash)
      → Unnamed h txs
      → without config (all_noted (bs_notes config) (missing_source config) txs f) g h ≡ g h
  missing_named [] f g h u = refl
  missing_named (tx ∷ txs) f g h u = elim (Option-cases (f tx.banknote_hash)) [
    | inl absent ↦ rw absent (
        missing_named txs (bs_notes config f tx) (assign g tx.banknote_hash none) h u.1
        ∙ assign_ne g tx.banknote_hash h none u.0)
    | inr (b, present) ↦ rw present (missing_named txs (bs_notes config f tx) g h u.1)
  ]

  module _ (some_ledger : 0 < config.banknote_chain_pledger_number) (p : Phases)
      (bp : ActiveBanknotePool) (f : Notes) (amounts : All HasAmount p.bt_txs) (held : Holds bp f)
      (keyed : Keyed f) where
    -- A banknote whose hash is named by no transaction of the ledger, neither as its own nor as one
    -- that a split makes, is active after the phases exactly as before.
    pub run_phases-keeps :
        (h : Hash)
        → Unnamed h p.bg_txs
        → Unnamed h p.bs_txs
        → Unmade h p.bs_txs
        → Unnamed h p.bt_txs
        → Unnamed h p.br_txs
        → Returns (run_phases config p bp) λ w. get_banknote w.pool h ≡ get_banknote bp h
    run_phases-keeps h ug us um ut ur =
        let generated = all_notes (bg_notes config) p.bg_txs f in
        let split = all_notes (bs_notes config) p.bs_txs generated in
        let moved = all_notes (bt_notes config) p.bt_txs split in
        let recycled = all_notes (br_notes config) p.br_txs moved in
        let (w, run, (holds, _)) =
          run_phases-refines config some_ledger p bp f amounts held keyed in
        (
          w,
          run,
          holds.1 h
              ∙ ap ok (
                  missing_named p.bs_txs generated recycled h us
                  ∙ own_hash_only (λ _ _. none) p.br_txs moved h ur
                  ∙ own_hash_only (λ f' tx. handed_over config (f' tx.banknote_hash) tx) p.bt_txs
                      split h ut
                  ∙ split_hashes_only p.bs_txs generated h us um
                  ∙ own_hash_only (λ _ tx. some (fresh config tx.banknote_hash tx.amount tx.from))
                      p.bg_txs f h ug)
              ∙ sym (held.1 h),
        )
