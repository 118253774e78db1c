-- ===== src/Processor/Peripheral/Refinement.antt =====
-- The four phases refine their steps on the map of active banknotes.
use mathlib.Core.List.{append-nil, append_assoc}
use banknote_chain.Base.{
  ◌<◌, ◌≡◌, ◌∙◌, refl, sym, ap, subst, List, [], ◌∷◌, ◌++◌, map, All, none, some,
}
use banknote_chain.Base.Int.{ℤ}
use banknote_chain.Base.Outcome.{Outcome, Returns}
use banknote_chain.Base.Go.{Hash}
use banknote_chain.Config.{Config}
use banknote_chain.Pool.{ActiveBanknotePool}
use banknote_chain.Pool.Refinement.{Notes, assign, Holds, remove_banknote-Holds}
use banknote_chain.Processor.StateTrie.{AccountModify}
use banknote_chain.Processor.Peripheral.{
  Work, bg_tx, bs_tx, bt_tx, br_tx, each, recycle, Phases, run_phases,
}
use banknote_chain.Processor.Peripheral.Notes.{
  Keyed, bg_notes, bs_notes, bt_notes, br_notes, missing_source, all_notes, all_noted, without,
  after_phases,
}
use banknote_chain.Processor.Peripheral.Steps.{
  Steps, bg_record, br_record, bg_tx-Steps, bs_tx-Steps, bt_tx-Steps, br_tx-Steps,
}
use banknote_chain.Tx.{BanknoteTx}

abbrev pub HasAmount : BanknoteTx → Type 0
HasAmount tx = (v : ℤ) × (tx.amount ≡ some v)

pub All-Unit : (txs : List BanknoteTx) → All (λ _. Unit {0}) txs
All-Unit [] = tt
All-Unit (tx ∷ txs) = (tt, All-Unit txs)

module _ (config : Config) where
  unfoldable pub all_sent : (BanknoteTx → List AccountModify) → List BanknoteTx → List AccountModify
  all_sent sent [] = []
  all_sent sent (tx ∷ txs) = sent tx ++ all_sent sent txs

  pub all_sent-map :
      (sent : BanknoteTx → AccountModify) (txs : List BanknoteTx)
      → all_sent (λ tx. sent tx ∷ []) txs ≡ map sent txs
  unfolding all_sent
  all_sent-map sent [] = refl
  all_sent-map sent (tx ∷ txs) = ap (◌∷◌ (sent tx)) (all_sent-map sent txs)

  all_sent-nil : (txs : List BanknoteTx) → all_sent (λ _. []) txs ≡ []
  unfolding all_sent
  all_sent-nil [] = refl
  all_sent-nil (tx ∷ txs) = all_sent-nil txs

  pub all_noted-nil :
      (step : Notes → BanknoteTx → Notes) (txs : List BanknoteTx) (f : Notes)
      → all_noted step (λ _ _. []) txs f ≡ []
  all_noted-nil step [] f = refl
  all_noted-nil step (tx ∷ txs) f = all_noted-nil step txs (step f tx)

  pub Steps-refl : (w : Work) (f : Notes) → Holds w.pool f → Keyed f → Steps config w w f [] []
  Steps-refl w f held keyed = record {
    holds = held;
    keyed = keyed;
    records = sym (append-nil w.account_modifies);
    recycled = sym (append-nil w.to_be_recycled);
  }

  pub Steps-trans :
      (w u v : Work) (f f' : Notes) (rs rs' : List AccountModify) (hs hs' : List Hash)
      → Steps config w u f rs hs
      → Steps config u v f' rs' hs'
      → Steps config w v f' (rs ++ rs') (hs ++ hs')
  Steps-trans w u v f f' rs rs' hs hs' p q = record {
    holds = q.holds;
    keyed = q.keyed;
    records = q.records ∙ ap (λ l. l ++ rs') p.records ∙ append_assoc w.account_modifies rs rs';
    recycled = q.recycled ∙ ap (λ l. l ++ hs') p.recycled ∙ append_assoc w.to_be_recycled hs hs';
  }

  -- A phase whose body refines a step refines the steps in turn.
  pub each-Steps :
      (body : Work → BanknoteTx → Outcome Work) (step : Notes → BanknoteTx → Notes)
      (sent : BanknoteTx → List AccountModify) (noted : Notes → BanknoteTx → List Hash)
      (Good : BanknoteTx → Type 0)
      → ((w : Work) (f : Notes)
          → Holds w.pool f
          → Keyed f
          → (tx : BanknoteTx) → Good tx
          → Returns (body w tx) λ w'. Steps config w w' (step f tx) (sent tx) (noted f tx))
      → (txs : List BanknoteTx) (w : Work) (f : Notes) → All Good txs
      → Holds w.pool f
      → Keyed f
      → Returns (each body txs w) λ w'.
        Steps config w w' (all_notes step txs f) (all_sent sent txs) (all_noted step noted txs f)
  unfolding each all_sent
  each-Steps body step sent noted Good rule [] w f good held keyed =
      (w, refl, Steps-refl w f held keyed)
  each-Steps body step sent noted Good rule (tx ∷ txs) w f good held keyed =
      let (u, run, s) = rule w f held keyed tx good.0 in
      let (v, run', s') =
        each-Steps body step sent noted Good rule txs u (step f tx) good.1 s.holds s.keyed in
      (v, rw run run', Steps-trans w u v (step f tx) _ _ _ _ _ s s')

  pub recycle-Holds :
      (hs : List Hash) (bp : ActiveBanknotePool) (f : Notes)
      → Holds bp f
      → Returns (recycle hs bp) λ bp'. Holds bp' (without config hs f)
  unfolding recycle
  recycle-Holds [] bp f held = (bp, refl, held)
  recycle-Holds (h ∷ hs) bp f held =
      let (bp₁, run, held₁) = remove_banknote-Holds bp f held h in
      let (bp₂, run', held₂) = recycle-Holds hs bp₁ (assign f h none) held₁ in
      (bp₂, rw run run', held₂)

  -- Whatever the order in which the workers of each phase take its transactions, the phases do not
  -- fault when the transfers have amounts; the pool then holds what the steps give on the map, and
  -- the state trie is sent one record for each generation and then one for each recycling.
  pub run_phases-refines :
      0 < config.banknote_chain_pledger_number
      → (p : Phases) (bp : ActiveBanknotePool) (f : Notes) → All HasAmount p.bt_txs
      → Holds bp f
      → Keyed f
      → Returns (run_phases config p bp) λ w.
        Holds w.pool (after_phases config p f)
        × (w.account_modifies ≡ map bg_record p.bg_txs ++ map br_record p.br_txs)
  unfolding run_phases
  run_phases-refines n p bp f amounts held keyed =
      let w₀ : Work = record { pool = bp; account_modifies = []; to_be_recycled = [] } in
      let (w₁, run₁, s₁) =
        each-Steps (bg_tx config) (bg_notes config) (λ tx. bg_record tx ∷ []) (λ _ _. [])
          (λ _. Unit) (λ w f' h k tx _. bg_tx-Steps config n w f' h k tx) p.bg_txs w₀ f
          (All-Unit p.bg_txs) held keyed in
      let (w₂, run₂, s₂) =
        each-Steps (bs_tx config) (bs_notes config) (λ _. []) (missing_source config) (λ _. Unit)
          (λ w f' h k tx _. bs_tx-Steps config n w f' h k tx) p.bs_txs w₁ _ (All-Unit p.bs_txs)
          s₁.holds s₁.keyed in
      let (w₃, run₃, s₃) =
        each-Steps (bt_tx config) (bt_notes config) (λ _. []) (λ _ _. []) HasAmount
          (λ w f' h k tx a. bt_tx-Steps config n w f' h k tx a) p.bt_txs w₂ _ amounts s₂.holds
          s₂.keyed in
      let (w₄, run₄, s₄) =
        each-Steps br_tx (br_notes config) (λ tx. br_record tx ∷ []) (λ _ _. []) (λ _. Unit)
          (λ w f' h k tx _. br_tx-Steps config n w f' h k tx) p.br_txs w₃ _ (All-Unit p.br_txs)
          s₃.holds s₃.keyed in
      let whole =
        Steps-trans w₀ w₃ w₄ _ _ _ _ _ _
          (Steps-trans w₀ w₂ w₃ _ _ _ _ _ _ (Steps-trans w₀ w₁ w₂ _ _ _ _ _ _ s₁ s₂) s₃) s₄ in
      let generated = all_notes (bg_notes config) p.bg_txs f in
      let moved =
        all_notes (bt_notes config) p.bt_txs (all_notes (bs_notes config) p.bs_txs generated) in
      let noted : w₄.to_be_recycled
          ≡ all_noted (bs_notes config) (missing_source config) p.bs_txs generated =
        whole.recycled ∙ simp (all_noted-nil, append-nil) in
      let (bp', run₅, held') = recycle-Holds w₄.to_be_recycled w₄.pool _ s₄.holds in
      (
        record w₄ { pool = bp' },
        rw (run₁, run₂, run₃, run₄, run₅),
        (
          subst (λ hs. Holds bp' (without config hs (all_notes (br_notes config) p.br_txs moved)))
              noted held',
          whole.records ∙ simp (all_sent-map, all_sent-nil, append-nil),
        ),
      )
