-- ===== src/Processor/Concurrent/Refinement.antt =====
-- The peripheral ledgers of a block, at work at the same time.
use mathlib.Core.List.{append-nil, append_assoc}
use banknote_chain.Base.{
  ℕ, ◌<◌, ◌≡◌, refl, sym, ap, ap₂, ◌∙◌, subst, List, [], ◌∷◌, ◌++◌, map, All, true,
}
use banknote_chain.Base.Go.{Hash}
use banknote_chain.Base.Outcome.{ok, Returns}
use banknote_chain.Config.{Config}
use banknote_chain.Pool.{ActiveBanknotePool}
use banknote_chain.Pool.Refinement.{Notes, Holds}
use banknote_chain.Processor.Concurrent.{
  Task, generation, splitting, moving, LedgerRun, start_run, work_of, run_turns, do_tasks,
  finish_run, finish_all, take_all,
}
use banknote_chain.Processor.Concurrent.Turns.{
  task_sent, tasks_sent, IsReady, to_send, task_notes, task_noted, turns_notes, body-Steps,
}
use banknote_chain.Processor.Concurrent.Runs.{Sends, run_turns-Agrees}
use banknote_chain.Processor.Peripheral.{Work, Phases, br_tx, fill_channels, fits, take_channels}
use banknote_chain.Processor.Peripheral.Notes.{Keyed, br_notes, without, all_notes, without-Keyed}
use banknote_chain.Processor.Peripheral.Refinement.{
  HasAmount, All-Unit, all_sent-map, all_noted-nil, Steps-refl, Steps-trans, each-Steps,
  recycle-Holds,
}
use banknote_chain.Processor.Peripheral.Steps.{Steps, bg_record, br_record, br_tx-Steps}
use banknote_chain.Processor.Peripheral.Whole.{sent}
use banknote_chain.Tx.{BanknoteTx}

tasks_sent-append : (ts us : List Task) → tasks_sent (ts ++ us) ≡ tasks_sent ts ++ tasks_sent us
tasks_sent-append [] us = refl
tasks_sent-append (t ∷ ts) us =
    ap (λ r. task_sent t ++ r) (tasks_sent-append ts us)
    ∙ sym (append_assoc (task_sent t) (tasks_sent ts) (tasks_sent us))

generations_sent : (txs : List BanknoteTx) → tasks_sent (map generation txs) ≡ map bg_record txs
generations_sent [] = refl
generations_sent (tx ∷ txs) = ap (λ r. bg_record tx ∷ r) (generations_sent txs)

splittings_sent : (txs : List BanknoteTx) → tasks_sent (map splitting txs) ≡ []
splittings_sent [] = refl
splittings_sent (tx ∷ txs) = splittings_sent txs

movings_sent : (txs : List BanknoteTx) → tasks_sent (map moving txs) ≡ []
movings_sent [] = refl
movings_sent (tx ∷ txs) = movings_sent txs

start_run-sent : (p : Phases) → to_send (start_run p) ≡ sent p
start_run-sent p =
    ap (λ r. r ++ map br_record p.br_txs)
      (tasks_sent-append (map generation p.bg_txs) (map splitting p.bs_txs ++ map moving p.bt_txs)
        ∙ ap₂ ◌++◌ (generations_sent p.bg_txs) (
            tasks_sent-append (map splitting p.bs_txs) (map moving p.bt_txs)
            ∙ ap₂ ◌++◌ (splittings_sent p.bs_txs) (movings_sent p.bt_txs))
        ∙ append-nil (map bg_record p.bg_txs))

movings-IsReady : (txs : List BanknoteTx) → All HasAmount txs → All IsReady (map moving txs)
movings-IsReady [] h = tt
movings-IsReady (tx ∷ txs) h = (h.0, movings-IsReady txs h.1)

splittings-IsReady :
    (txs : List BanknoteTx) (ts : List Task)
    → All IsReady ts
    → All IsReady (map splitting txs ++ ts)
splittings-IsReady [] ts h = h
splittings-IsReady (tx ∷ txs) ts h = (tt, splittings-IsReady txs ts h)

generations-IsReady :
    (txs : List BanknoteTx) (ts : List Task)
    → All IsReady ts
    → All IsReady (map generation txs ++ ts)
generations-IsReady [] ts h = h
generations-IsReady (tx ∷ txs) ts h = (tt, generations-IsReady txs ts h)

start_runs-Sends :
    (ps : List Phases) → All (λ p. All HasAmount p.bt_txs) ps → Sends ps (map start_run ps)
start_runs-Sends [] h = tt
start_runs-Sends (p ∷ ps) (h, rest) = (
  (
    start_run-sent p,
    generations-IsReady p.bg_txs _
        (splittings-IsReady p.bs_txs (map moving p.bt_txs) (movings-IsReady p.bt_txs h)),
  ),
  start_runs-Sends ps rest,
)

module _ (config : Config) where
  abbrev tasks_notes : List Task → Notes → Notes
  tasks_notes [] f = f
  tasks_notes (t ∷ ts) f = tasks_notes ts (task_notes config t f)

  abbrev tasks_noted : List Task → Notes → List Hash
  tasks_noted [] f = []
  tasks_noted (t ∷ ts) f = task_noted config t f ++ tasks_noted ts (task_notes config t f)

  -- What is left of a run, on the map.
  abbrev finish_notes : LedgerRun → Notes → Notes
  finish_notes l f =
      without config (l.to_be_recycled ++ tasks_noted l.tasks f)
        (all_notes (br_notes config) l.recyclings (tasks_notes l.tasks f))

  abbrev finish_all_notes : List LedgerRun → Notes → Notes
  finish_all_notes [] f = f
  finish_all_notes (l ∷ ls) f = finish_all_notes ls (finish_notes l f)

  -- The active banknotes after the turns of all ledgers.
  abbrev pub after_turns : List ℕ → List Phases → Notes → Notes
  after_turns turns ps f =
      let r = turns_notes config turns (map start_run ps) f in finish_all_notes r.0 r.1

  module _ (some_ledger : 0 < config.banknote_chain_pledger_number) where
    do_tasks-Steps :
        (ts : List Task) (w : Work) (f : Notes)
        → All IsReady ts
        → Holds w.pool f
        → Keyed f
        → Returns
            (do_tasks config ts w)
            λ w'. Steps config w w' (tasks_notes ts f) (tasks_sent ts) (tasks_noted ts f)
    unfolding do_tasks
    do_tasks-Steps [] w f ready held keyed = (w, refl, Steps-refl config w f held keyed)
    do_tasks-Steps (t ∷ ts) w f ready held keyed =
        let (u, run, s) = body-Steps config some_ledger t w f ready.0 held keyed in
        let (v, run', s') = do_tasks-Steps ts u (task_notes config t f) ready.1 s.holds s.keyed in
        (v, rw run run', Steps-trans config w u v (task_notes config t f) _ _ _ _ _ s s')

    finish_run-Holds :
        (l : LedgerRun) (bp : ActiveBanknotePool) (f : Notes)
        → All IsReady l.tasks
        → Holds bp f
        → Keyed f
        → Returns
            (finish_run config l bp)
            λ r. (r.0 ≡ to_send l) × Holds r.1 (finish_notes l f) × Keyed (finish_notes l f)
    unfolding finish_run
    finish_run-Holds l bp f ready held keyed =
        let (w, run, s) = do_tasks-Steps l.tasks (work_of l bp) f ready held keyed in
        let (w', run', s') =
          each-Steps config br_tx (br_notes config) (λ tx. br_record tx ∷ []) (λ _ _. [])
            (λ _. Unit) (λ u f' h k tx _. br_tx-Steps config some_ledger u f' h k tx) l.recyclings w
            (tasks_notes l.tasks f) (All-Unit l.recyclings) s.holds s.keyed in
        let (bp', run'', held') = recycle-Holds config w'.to_be_recycled w'.pool _ s'.holds in
        let left : w'.to_be_recycled ≡ l.to_be_recycled ++ tasks_noted l.tasks f =
          s'.recycled
          ∙ ap₂ ◌++◌ s.recycled
              (all_noted-nil config (br_notes config) l.recyclings (tasks_notes l.tasks f))
          ∙ append-nil _ in
        let moved = all_notes (br_notes config) l.recyclings (tasks_notes l.tasks f) in
        (
          (w'.account_modifies, bp'),
          rw (run, run', run'') refl,
          (
            s'.records
                ∙ ap₂ ◌++◌ s.records (all_sent-map config br_record l.recyclings)
                ∙ append_assoc l.account_modifies (tasks_sent l.tasks) (map br_record l.recyclings),
            subst (λ hs. Holds bp' (without config hs moved)) left held',
            without-Keyed config (l.to_be_recycled ++ tasks_noted l.tasks f) moved s'.keyed,
          ),
        )

    finish_all-Holds :
        (ps : List Phases) (ls : List LedgerRun) (bp : ActiveBanknotePool) (f : Notes)
        → Sends ps ls
        → Holds bp f
        → Keyed f
        → Returns
            (finish_all config ls bp)
            λ r. (r.0 ≡ map sent ps) × Holds r.1 (finish_all_notes ls f)
    unfolding finish_all
    finish_all-Holds [] [] bp f v held keyed = (([], bp), refl, (refl, held))
    finish_all-Holds [] (l ∷ ls) bp f v held keyed = absurd v
    finish_all-Holds (p ∷ ps) [] bp f v held keyed = absurd v
    finish_all-Holds (p ∷ ps) (l ∷ ls) bp f (own, others) held keyed =
        let (r, run, (records, held₁, keyed₁)) = finish_run-Holds l bp f own.1 held keyed in
        let (r', run', (later, held₂)) =
          finish_all-Holds ps ls r.1 (finish_notes l f) others held₁ keyed₁ in
        ((r.0 ∷ r'.0, r'.1), rw (run, run') refl, (ap₂ ◌∷◌ (records ∙ own.0) later, held₂))

    -- The turns, whatever their order, and what is left after them.
    pub ledgers-Holds :
        (turns : List ℕ) (ps : List Phases) (bp : ActiveBanknotePool) (f : Notes)
        → All (λ p. All HasAmount p.bt_txs) ps
        → Holds bp f
        → Keyed f
        → Returns (run_turns config turns (map start_run ps) bp) λ r.
          Returns
            (finish_all config r.0 r.1)
            λ q. (q.0 ≡ map sent ps) × Holds q.1 (after_turns turns ps f)
    ledgers-Holds turns ps bp f amounts held keyed =
        let ls = map start_run ps in
        let (r, run, ((same, held', keyed'), v)) =
          run_turns-Agrees config some_ledger ps turns ls bp f (start_runs-Sends ps amounts) held
            keyed in
        let (q, run', (records, held'')) =
          finish_all-Holds ps r.0 r.1 (turns_notes config turns ls f).1 v held' keyed' in
        (
          r,
          run,
          (
            q,
            run',
            (
              records,
              subst (λ z. Holds q.1 (finish_all_notes z (turns_notes config turns ls f).1)) same
                  held'',
            ),
          ),
        )

-- The channels of every ledger have places enough.
pub take_all-fits :
    (config : Config) (schedule : Phases → Phases) (ledgers : List (List BanknoteTx))
    → All (λ txs. fits config (fill_channels txs) ≡ true) ledgers
    → take_all config schedule ledgers ≡ ok (map (λ txs. schedule (fill_channels txs)) ledgers)
unfolding take_all take_channels
take_all-fits config schedule [] h = refl
take_all-fits config schedule (txs ∷ ledgers) (h, rest) =
    rw (h, take_all-fits config schedule ledgers rest) refl
