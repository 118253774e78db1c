-- ===== src/Processor/Concurrent/Turns.antt =====
-- A turn of a ledger refines a turn on one map from hashes to banknotes.
use banknote_chain.Base.{
  ℕ, zero, suc, ◌<◌, ◌-◌, ◌≡◌, refl, ap₂, List, [], ◌∷◌, ◌++◌, map, All, Bool, true, none, false,
  ltb, if◌then◌else◌,
}
use banknote_chain.Base.Go.{Hash}
use banknote_chain.Base.Outcome.{Returns}
use banknote_chain.Config.{Config}
use banknote_chain.Pool.{ActiveBanknotePool}
use banknote_chain.Pool.Refinement.{Notes, assign, Holds, remove_banknote-Holds}
use banknote_chain.Processor.Concurrent.{
  Task, generation, splitting, moving, body, LedgerRun, work_of, after_work, work_next, drain_next,
  step,
}
use banknote_chain.Processor.Peripheral.{Work}
use banknote_chain.Processor.Peripheral.Notes.{
  Keyed, assign-none-Keyed, bg_notes, bs_notes, bt_notes, br_notes, missing_source,
}
use banknote_chain.Processor.Peripheral.Refinement.{HasAmount}
use banknote_chain.Processor.Peripheral.Steps.{
  Steps, bg_record, br_record, bg_tx-Steps, bs_tx-Steps, bt_tx-Steps, br_tx-Steps,
}
use banknote_chain.Processor.StateTrie.{AccountModify}
use banknote_chain.Tx.{BanknoteTx}

abbrev pub task_sent : Task → List AccountModify
task_sent (generation tx) = bg_record tx ∷ []
task_sent (splitting tx) = []
task_sent (moving tx) = []

abbrev pub IsReady : Task → Type 0
IsReady (generation tx) = Unit
IsReady (splitting tx) = Unit
IsReady (moving tx) = HasAmount tx

abbrev pub tasks_sent : List Task → List AccountModify
tasks_sent [] = []
tasks_sent (t ∷ ts) = task_sent t ++ tasks_sent ts

-- All that a ledger will have sent.
abbrev pub to_send : LedgerRun → List AccountModify
to_send l = l.account_modifies ++ (tasks_sent l.tasks ++ map br_record l.recyclings)

module _ (config : Config) where
  abbrev pub task_notes : Task → Notes → Notes
  task_notes (generation tx) f = bg_notes config f tx
  task_notes (splitting tx) f = bs_notes config f tx
  task_notes (moving tx) f = bt_notes config f tx

  abbrev pub task_noted : Task → Notes → List Hash
  task_noted (generation tx) f = []
  task_noted (splitting tx) f = missing_source config f tx
  task_noted (moving tx) f = []

  -- The turns on the map.
  abbrev pub work_notes : LedgerRun → List Task → List BanknoteTx → Notes → LedgerRun × Notes
  work_notes l (t ∷ ts) rs f = (
    record {
      tasks = ts;
      recyclings = rs;
      account_modifies = l.account_modifies ++ task_sent t;
      to_be_recycled = l.to_be_recycled ++ task_noted t f;
    },
    task_notes t f,
  )
  work_notes l [] (tx ∷ rs) f = (
    record {
      tasks = [];
      recyclings = rs;
      account_modifies = l.account_modifies ++ br_record tx ∷ [];
      to_be_recycled = l.to_be_recycled ++ [];
    },
    br_notes config f tx,
  )
  work_notes l [] [] f = (l, f)

  abbrev pub drain_notes : LedgerRun → List Task → List Hash → Notes → LedgerRun × Notes
  drain_notes l [] (h ∷ hs) f = (record l { to_be_recycled = hs }, assign f h none)
  drain_notes l [] [] f = (l, f)
  drain_notes l (t ∷ ts) noted f = (l, f)

  abbrev pub step_notes : Bool → LedgerRun → Notes → LedgerRun × Notes
  step_notes true l f = work_notes l l.tasks l.recyclings f
  step_notes false l f = drain_notes l l.tasks l.to_be_recycled f

  abbrev pub turn_notes : Bool → List LedgerRun → ℕ → Notes → List LedgerRun × Notes
  turn_notes worker [] i f = ([], f)
  turn_notes worker (l ∷ ls) zero f = let r = step_notes worker l f in (r.0 ∷ ls, r.1)
  turn_notes worker (l ∷ ls) (suc i) f = let r = turn_notes worker ls i f in (l ∷ r.0, r.1)

  abbrev pub turns_notes : List ℕ → List LedgerRun → Notes → List LedgerRun × Notes
  turns_notes [] ls f = (ls, f)
  turns_notes (k ∷ ks) ls f =
      let n = config.banknote_chain_pledger_number in
      let r = turn_notes (ltb k n) ls (if ltb k n then k else k - n) f in turns_notes ks r.0 r.1

  -- A pool that holds a map, for a run that is the same.
  abbrev pub Agrees : {A : Type 0} → A × ActiveBanknotePool → A × Notes → Type 0
  Agrees r q = (r.0 ≡ q.0) × Holds r.1 q.1 × Keyed q.1

  module _ (some_ledger : 0 < config.banknote_chain_pledger_number) where
    pub body-Steps :
        (t : Task) (w : Work) (f : Notes)
        → IsReady t
        → Holds w.pool f
        → Keyed f
        → Returns
            (body config t w)
            λ w'. Steps config w w' (task_notes t f) (task_sent t) (task_noted t f)
    unfolding body
    body-Steps (generation tx) w f ready held keyed =
        bg_tx-Steps config some_ledger w f held keyed tx
    body-Steps (splitting tx) w f ready held keyed =
        bs_tx-Steps config some_ledger w f held keyed tx
    body-Steps (moving tx) w f ready held keyed =
        bt_tx-Steps config some_ledger w f held keyed tx ready

    work_next-Agrees :
        (l : LedgerRun) (ts : List Task) (rs : List BanknoteTx) (bp : ActiveBanknotePool)
        (f : Notes)
        → ts ≡ l.tasks
        → rs ≡ l.recyclings
        → All IsReady ts
        → Holds bp f
        → Keyed f
        → Returns (work_next config l ts rs bp) λ r. Agrees r (work_notes l ts rs f)
    unfolding work_next
    work_next-Agrees l [] [] bp f qt qr ready held keyed = ((l, bp), refl, (refl, held, keyed))
    work_next-Agrees l (t ∷ ts) rs bp f qt qr ready held keyed =
        let (w, run, s) = body-Steps t (work_of l bp) f ready.0 held keyed in
        (
          after_work l ts rs w,
          rw run refl,
          (
            ap₂
                (λ a h. record {
                  tasks = ts;
                  recyclings = rs;
                  account_modifies = a;
                  to_be_recycled = h;
                })
                s.records s.recycled,
            s.holds,
            s.keyed,
          ),
        )
    work_next-Agrees l [] (tx ∷ rs) bp f qt qr ready held keyed =
        let (w, run, s) = br_tx-Steps config some_ledger (work_of l bp) f held keyed tx in
        (
          after_work l [] rs w,
          rw run refl,
          (
            ap₂
                (λ a h. record {
                  tasks = [];
                  recyclings = rs;
                  account_modifies = a;
                  to_be_recycled = h;
                })
                s.records s.recycled,
            s.holds,
            s.keyed,
          ),
        )

    drain_next-Agrees :
        (l : LedgerRun) (ts : List Task) (noted : List Hash) (bp : ActiveBanknotePool) (f : Notes)
        → Holds bp f
        → Keyed f
        → Returns (drain_next l ts noted bp) λ r. Agrees r (drain_notes l ts noted f)
    unfolding drain_next
    drain_next-Agrees l [] [] bp f held keyed = ((l, bp), refl, (refl, held, keyed))
    drain_next-Agrees l (t ∷ ts) noted bp f held keyed = ((l, bp), refl, (refl, held, keyed))
    drain_next-Agrees l [] (h ∷ hs) bp f held keyed =
        let (bp', run, held') = remove_banknote-Holds bp f held h in
        (
          (record l { to_be_recycled = hs }, bp'),
          rw run refl,
          (refl, held', assign-none-Keyed f h keyed),
        )

    pub step-Agrees :
        (worker : Bool) (l : LedgerRun) (bp : ActiveBanknotePool) (f : Notes)
        → All IsReady l.tasks
        → Holds bp f
        → Keyed f
        → Returns (step config worker l bp) λ r. Agrees r (step_notes worker l f)
    unfolding step
    step-Agrees true l bp f ready held keyed =
        work_next-Agrees l l.tasks l.recyclings bp f refl refl ready held keyed
    step-Agrees false l bp f ready held keyed =
        drain_next-Agrees l l.tasks l.to_be_recycled bp f held keyed
