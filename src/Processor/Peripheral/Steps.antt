-- ===== src/Processor/Peripheral/Steps.antt =====
-- One transaction of each phase refines its step on the map of active banknotes.
use mathlib.Core.List.{append-nil}
use banknote_chain.Base.{
  ◌<◌, ◌≡◌, ◌∙◌, refl, sym, ap, subst, List, [], ◌∷◌, ◌++◌, Option, none, some, arith, Option-cases,
  Bool-cases, inl, inr, true, false,
}
use banknote_chain.Base.Int.{ℤ}
use banknote_chain.Base.Outcome.{ok, require, nil_dereference, Returns}
use banknote_chain.Base.Go.{Hash, Address}
use banknote_chain.Banknote.{Banknote, new_banknote, get_ledger_hash_by_id-eq}
use banknote_chain.Config.{Config}
use banknote_chain.Pool.{remove_banknote}
use banknote_chain.Pool.Refinement.{
  Notes, assign, Holds, add_banknote-Holds, set_banknote-Holds, remove_banknote-Holds,
}
use banknote_chain.Processor.StateTrie.{AccountModify}
use banknote_chain.Processor.Peripheral.{
  Work, bg_tx, bs_source, bs_tx, bt_tx, br_tx, is_init_banknote,
}
use banknote_chain.Processor.Peripheral.Notes.{
  Keyed, assign-Keyed, assign-none-Keyed, Holds-congr, fresh, bg_notes, bs_notes, bt_notes,
  br_notes, handed_over, made, missing_hash,
}
use banknote_chain.Tx.{BanknoteTx}

-- What a generation and a recycling send to the state trie.
abbrev pub bg_record : BanknoteTx → AccountModify
bg_record tx = record { from = tx.from; to = 0; amount = tx.amount }

abbrev pub br_record : BanknoteTx → AccountModify
br_record tx = record { from = 0; to = tx.to; amount = tx.amount }

module _ (config : Config) where
  new_banknote-fresh :
      0 < config.banknote_chain_pledger_number
      → (h : Hash) (v : Option ℤ) (o : Address)
      → new_banknote h v o config ≡ ok (fresh config h v o)
  unfolding new_banknote
  new_banknote-fresh p h v o =
      rw (get_ledger_hash_by_id-eq config.banknote_chain_pledger_number h p)

  -- What a phase promises of its step: from a pool that holds `f` to one that holds `f'`, with some
  -- records sent and some hashes noted.
  pub record Steps (w w' : Work) (f' : Notes) (sent : List AccountModify) (noted : List Hash)
      : Type 0 where
    pub holds : Holds w'.pool f'
    pub keyed : Keyed f'
    pub records : w'.account_modifies ≡ w.account_modifies ++ sent
    pub recycled : w'.to_be_recycled ≡ w.to_be_recycled ++ noted

  module _ (some_ledger : 0 < config.banknote_chain_pledger_number) (w : Work) (f : Notes)
      (held : Holds w.pool f) (keyed : Keyed f) (tx : BanknoteTx) where
    pub bg_tx-Steps :
        Returns (bg_tx config w tx) λ w'. Steps w w' (bg_notes config f tx) (bg_record tx ∷ []) []
    unfolding bg_tx
    bg_tx-Steps =
        let b = fresh config tx.banknote_hash tx.amount tx.from in
        let (bp, run, holds) = add_banknote-Holds w.pool f held b in
        (
          _,
          rw (new_banknote-fresh some_ledger tx.banknote_hash tx.amount tx.from, run),
          record {
            holds = holds;
            keyed = assign-Keyed f b keyed;
            records = refl;
            recycled = sym (append-nil w.to_be_recycled);
          },
        )

    some_left : w.to_be_recycled ≡ w.to_be_recycled ++ []
    some_left = sym (append-nil w.to_be_recycled)

    none_sent : w.account_modifies ≡ w.account_modifies ++ []
    none_sent = sym (append-nil w.account_modifies)

    -- Removing the banknote that was found removes the hash that was asked for.
    removes :
        (b : Banknote)
        → f tx.banknote_hash ≡ some b
        → Returns
            (remove_banknote w.pool b.banknote_hash)
            λ bp. Holds bp (assign f tx.banknote_hash none)
    removes b present =
        rw (keyed tx.banknote_hash b present) (remove_banknote-Holds w.pool f held tx.banknote_hash)

    pub br_tx-Steps :
        Returns (br_tx w tx) λ w'. Steps w w' (br_notes config f tx) (br_record tx ∷ []) []
    unfolding br_tx
    br_tx-Steps = elim (Option-cases (f tx.banknote_hash)) [
      | inl absent ↦ (
        _,
        rw (held.1 tx.banknote_hash, absent),
        record {
          holds = Holds-congr w.pool f _ held (λ h. ground (arith, absent));
          keyed = assign-none-Keyed f tx.banknote_hash keyed;
          records = refl;
          recycled = some_left;
        },
      )
      | inr (b, present) ↦
          let (bp, run, holds) = removes b present in
          (
            _,
            rw (held.1 tx.banknote_hash, present, run),
            record {
              holds = holds;
              keyed = assign-none-Keyed f tx.banknote_hash keyed;
              records = refl;
              recycled = some_left;
            },
          )
    ]

    bs_source-Steps :
        Returns (bs_source w tx) λ w'.
          Steps w w' (assign f tx.banknote_hash none) [] (missing_hash (f tx.banknote_hash) tx)
    unfolding bs_source
    bs_source-Steps = elim (Option-cases (f tx.banknote_hash)) [
      | inl absent ↦ (
        record w { to_be_recycled = w.to_be_recycled ++ tx.banknote_hash ∷ [] },
        rw (held.1 tx.banknote_hash, absent),
        record {
          holds = Holds-congr w.pool f _ held (λ h. ground (arith, absent));
          keyed = assign-none-Keyed f tx.banknote_hash keyed;
          records = none_sent;
          recycled = rw absent;
        },
      )
      | inr (b, present) ↦
          let (bp, run, holds) = removes b present in
          (
            record w { pool = bp },
            rw (held.1 tx.banknote_hash, present, run),
            record {
              holds = holds;
              keyed = assign-none-Keyed f tx.banknote_hash keyed;
              records = none_sent;
              recycled = rw present some_left;
            },
          )
    ]

    pub bs_tx-Steps :
        Returns
          (bs_tx config w tx)
          λ w'. Steps w w' (bs_notes config f tx) [] (missing_hash (f tx.banknote_hash) tx)
    unfolding bs_tx
    bs_tx-Steps =
        let b₁ = fresh config tx.banknote_hash1_new_for_split tx.amount1_new_for_split tx.from in
        let b₂ = fresh config tx.banknote_hash2_new_for_split tx.amount2_new_for_split tx.to in
        let (w', run, s) = bs_source-Steps in
        let (bp₁, run₁, holds₁) = add_banknote-Holds w'.pool _ s.holds b₁ in
        let (bp₂, run₂, holds₂) = add_banknote-Holds bp₁ _ holds₁ b₂ in
        (
          record w' { pool = bp₂ },
          rw (
            run,
            new_banknote-fresh some_ledger tx.banknote_hash1_new_for_split tx.amount1_new_for_split
                tx.from,
            new_banknote-fresh some_ledger tx.banknote_hash2_new_for_split tx.amount2_new_for_split
                tx.to,
            run₁,
            run₂,
          ),
          record {
            holds = holds₂;
            keyed = assign-Keyed _ b₂ (assign-Keyed _ b₁ s.keyed);
            records = s.records;
            recycled = s.recycled;
          },
        )

    bt_made :
        (v : ℤ)
        → f tx.banknote_hash ≡ none
        → tx.amount ≡ some v
        → is_init_banknote v ≡ true
        → Returns (bt_tx config w tx) λ w'.
          Steps w w'
            (assign f tx.banknote_hash (some (fresh config tx.banknote_hash tx.amount tx.to)))
            []
            []
    unfolding bt_tx
    bt_made v absent e initial =
        let b = fresh config tx.banknote_hash tx.amount tx.to in
        let (bp₁, run₁, holds₁) = add_banknote-Holds w.pool f held b in
        let (bp₂, run₂, holds₂) = set_banknote-Holds bp₁ _ holds₁ b in
        let required : require nil_dereference tx.amount ≡ ok v = rw e in
        (
          record w { pool = bp₂ },
          rw (
            held.1 tx.banknote_hash,
            absent,
            required,
            initial,
            new_banknote-fresh some_ledger tx.banknote_hash tx.amount tx.to,
            run₁,
            run₂,
          ),
          record {
            holds = Holds-congr bp₂ _ _ holds₂ (λ h. ground arith);
            keyed = assign-Keyed f b keyed;
            records = none_sent;
            recycled = some_left;
          },
        )

    bt_passed :
        (v : ℤ)
        → f tx.banknote_hash ≡ none
        → tx.amount ≡ some v
        → is_init_banknote v ≡ false
        → Returns (bt_tx config w tx) λ w'. Steps w w' f [] []
    unfolding bt_tx
    bt_passed v absent e other =
        let required : require nil_dereference tx.amount ≡ ok v = rw e in
        (
          w,
          rw (held.1 tx.banknote_hash, absent, required, other),
          record { holds = held; keyed = keyed; records = none_sent; recycled = some_left },
        )

    bt_moved :
        (b : Banknote)
        → f tx.banknote_hash ≡ some b
        → Returns
            (bt_tx config w tx)
            λ w'. Steps w w' (assign f tx.banknote_hash (some (record b { owner = tx.to }))) [] []
    unfolding bt_tx
    bt_moved b present =
        let moved = record b { owner = tx.to } in
        let (bp, run, holds) = set_banknote-Holds w.pool f held moved in
        let same = keyed tx.banknote_hash b present in
        (
          record w { pool = bp },
          rw (held.1 tx.banknote_hash, present, run),
          record {
            holds = Holds-congr bp _ _ holds (λ h. ap (λ k. assign f k (some moved) h) same);
            keyed = subst (λ k. Keyed (assign f k (some moved))) same (assign-Keyed f moved keyed);
            records = none_sent;
            recycled = some_left;
          },
        )

    -- A transfer binds the hash to what is handed over, if the amount can be read.
    pub bt_tx-Steps :
        ((v : ℤ) × (tx.amount ≡ some v))
        → Returns (bt_tx config w tx) λ w'. Steps w w' (bt_notes config f tx) [] []
    bt_tx-Steps (v, e) = elim (Option-cases (f tx.banknote_hash)) [
      | inr (b, present) ↦ rw present (bt_moved b present)
      | inl absent ↦ elim (Bool-cases (is_init_banknote v)) [
        | inl initial ↦
            let result : handed_over config (f tx.banknote_hash) tx
                ≡ some (fresh config tx.banknote_hash tx.amount tx.to) =
              rw absent (ap (λ o. made config o tx) e ∙ rw initial) in
            subst (binds) (sym result) (bt_made v absent e initial)
        | inr other ↦
            let result : handed_over config (f tx.banknote_hash) tx ≡ none =
              rw absent (ap (λ o. made config o tx) e ∙ rw other) in
            let (w', run, s) = bt_passed v absent e other in
            subst (binds) (sym result) (
              w',
              run,
              record {
                holds = Holds-congr w'.pool f _ s.holds (λ h. ground (arith, absent));
                keyed = assign-none-Keyed f tx.banknote_hash keyed;
                records = s.records;
                recycled = s.recycled;
              },
            )
      ]
    ]
      where
        binds : Option Banknote → Type 0
        binds o = Returns (bt_tx config w tx) λ w'. Steps w w' (assign f tx.banknote_hash o) [] []
