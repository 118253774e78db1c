-- ===== src/Processor/Concurrent/Runs.antt =====
-- The turns of all ledgers on one map; what each ledger sends to its state trie depends on its own
-- transactions alone.
use mathlib.Core.List.{append_assoc}
use banknote_chain.Base.{
  ℕ, zero, suc, ◌<◌, ◌-◌, ◌≡◌, refl, sym, ap, ap₂, ◌∙◌, subst, List, [], ◌∷◌, ◌++◌, map, All, Bool,
  true, false, ltb, if◌then◌else◌,
}
use banknote_chain.Base.Go.{Hash}
use banknote_chain.Base.Outcome.{Returns}
use banknote_chain.Config.{Config}
use banknote_chain.Pool.{ActiveBanknotePool}
use banknote_chain.Pool.Refinement.{Notes, Holds}
use banknote_chain.Processor.Concurrent.{Task, LedgerRun, turn_at, run_turns}
use banknote_chain.Processor.Peripheral.{Phases}
use banknote_chain.Processor.Peripheral.Notes.{Keyed}
use banknote_chain.Processor.Peripheral.Steps.{br_record}
use banknote_chain.Processor.Peripheral.Whole.{sent}
use banknote_chain.Processor.StateTrie.{AccountModify}
use banknote_chain.Tx.{BanknoteTx}
use banknote_chain.Processor.Concurrent.Turns.{
  task_sent, tasks_sent, IsReady, to_send, work_notes, drain_notes, step_notes, turn_notes,
  turns_notes, Agrees, step-Agrees,
}

-- A run will have sent what the phases of its ledger send, and its transfers have amounts.
abbrev pub Sends : List Phases → List LedgerRun → Type 0
Sends [] [] = Unit
Sends (p ∷ ps) (l ∷ ls) = ((to_send l ≡ sent p) × All IsReady l.tasks) × Sends ps ls
Sends [] (l ∷ ls) = ⊥
Sends (p ∷ ps) [] = ⊥

module _ (config : Config) where
  work_notes-Sends :
      (rs : List AccountModify) (l : LedgerRun) (ts : List Task) (txs : List BanknoteTx) (f : Notes)
      → ts ≡ l.tasks
      → txs ≡ l.recyclings
      → (to_send l ≡ rs) × All IsReady l.tasks
      → (to_send (work_notes config l ts txs f).0 ≡ rs)
        × All IsReady (work_notes config l ts txs f).0.tasks
  work_notes-Sends rs l [] [] f qt qr v = v
  work_notes-Sends rs l (t ∷ ts) txs f qt qr (e, ready) =
      let later = map br_record txs in
      (
        append_assoc l.account_modifies (task_sent t) (tasks_sent ts ++ later)
            ∙ ap (λ r. l.account_modifies ++ r)
                (sym (append_assoc (task_sent t) (tasks_sent ts) later))
            ∙ ap₂ (λ a b. l.account_modifies ++ (tasks_sent a ++ map br_record b)) qt qr
            ∙ e,
        (subst (All IsReady) (sym qt) ready).1,
      )
  work_notes-Sends rs l [] (tx ∷ txs) f qt qr (e, ready) = (
    append_assoc l.account_modifies (br_record tx ∷ []) (map br_record txs)
        ∙ ap₂ (λ a b. l.account_modifies ++ (tasks_sent a ++ map br_record b)) qt qr
        ∙ e,
    tt,
  )

  drain_notes-Sends :
      (rs : List AccountModify) (l : LedgerRun) (ts : List Task) (noted : List Hash) (f : Notes)
      → (to_send l ≡ rs) × All IsReady l.tasks
      → (to_send (drain_notes config l ts noted f).0 ≡ rs)
        × All IsReady (drain_notes config l ts noted f).0.tasks
  drain_notes-Sends rs l [] [] f v = v
  drain_notes-Sends rs l [] (h ∷ hs) f v = v
  drain_notes-Sends rs l (t ∷ ts) noted f v = v

  step_notes-Sends :
      (rs : List AccountModify) (worker : Bool) (l : LedgerRun) (f : Notes)
      → (to_send l ≡ rs) × All IsReady l.tasks
      → (to_send (step_notes config worker l f).0 ≡ rs)
        × All IsReady (step_notes config worker l f).0.tasks
  step_notes-Sends rs true l f v = work_notes-Sends rs l l.tasks l.recyclings f refl refl v
  step_notes-Sends rs false l f v = drain_notes-Sends rs l l.tasks l.to_be_recycled f v

  module _ (some_ledger : 0 < config.banknote_chain_pledger_number) where
    turn_at-Agrees :
        (ps : List Phases) (worker : Bool) (ls : List LedgerRun) (i : ℕ) (bp : ActiveBanknotePool)
        (f : Notes)
        → Sends ps ls
        → Holds bp f
        → Keyed f
        → Returns
            (turn_at config worker ls i bp)
            λ r. Agrees config r (turn_notes config worker ls i f) × Sends ps r.0
    unfolding turn_at
    turn_at-Agrees [] worker [] i bp f v held keyed = (([], bp), refl, ((refl, held, keyed), tt))
    turn_at-Agrees [] worker (l ∷ ls) i bp f v held keyed = absurd v
    turn_at-Agrees (p ∷ ps) worker [] i bp f v held keyed = absurd v
    turn_at-Agrees (p ∷ ps) worker (l ∷ ls) zero bp f (own, others) held keyed =
        let (r, run, (same, held', keyed')) =
          step-Agrees config some_ledger worker l bp f own.1 held keyed in
        (
          (r.0 ∷ ls, r.1),
          rw run refl,
          (
            (ap (λ z. z ∷ ls) same, held', keyed'),
            (
              subst (λ z. (to_send z ≡ sent p) × All IsReady z.tasks) (sym same)
                  (step_notes-Sends (sent p) worker l f own),
              others,
            ),
          ),
        )
    turn_at-Agrees (p ∷ ps) worker (l ∷ ls) (suc i) bp f (own, others) held keyed =
        let (r, run, ((same, held', keyed'), v)) =
          turn_at-Agrees ps worker ls i bp f others held keyed in
        ((l ∷ r.0, r.1), rw run refl, ((ap (λ z. l ∷ z) same, held', keyed'), (own, v)))

    pub run_turns-Agrees :
        (ps : List Phases) (turns : List ℕ) (ls : List LedgerRun) (bp : ActiveBanknotePool)
        (f : Notes)
        → Sends ps ls
        → Holds bp f
        → Keyed f
        → Returns
            (run_turns config turns ls bp)
            λ r. Agrees config r (turns_notes config turns ls f) × Sends ps r.0
    unfolding run_turns
    run_turns-Agrees ps [] ls bp f v held keyed = ((ls, bp), refl, ((refl, held, keyed), v))
    run_turns-Agrees ps (k ∷ ks) ls bp f v held keyed =
        let n = config.banknote_chain_pledger_number in
        let i = if ltb k n then k else k - n in
        let (r, run, ((same, held', keyed'), v')) =
          turn_at-Agrees ps (ltb k n) ls i bp f v held keyed in
        let next = (turn_notes config (ltb k n) ls i f).1 in
        let (r', run', (agrees, v'')) = run_turns-Agrees ps ks r.0 r.1 next v' held' keyed' in
        (
          r',
          rw run run',
          (subst (λ z. Agrees config r' (turns_notes config ks z next)) same agrees, v''),
        )
