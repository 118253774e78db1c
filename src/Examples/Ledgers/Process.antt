-- ===== src/Examples/Ledgers/Process.antt =====
-- A whole block on the genesis of the small chain.
use banknote_chain.Base.{
  true, ℕ, zero, suc, refl, List, [], ◌∷◌, ◌++◌, ◌≡◌, ◌<◌, arith, keep, All, All-keep,
}
use banknote_chain.Base.Go.{Bytes, Hash}
use banknote_chain.Banknote.{ledger_of}
use banknote_chain.Base.Int.{pos}
use banknote_chain.Examples.Codec.Instances.{account_gob}
use banknote_chain.Examples.Ledgers.Inputs.{
  two_ledgers, start, start_trie, start_accounts, start_trie-Reads, paid, noted,
}
use banknote_chain.Examples.Trie.{map_lib}
use banknote_chain.Ledger.Spec.{Payment}
use banknote_chain.Processor.Classify.Laws.{applied}
use banknote_chain.Processor.Classify.Refinement.{AllRead, HaveAllAmounts, phases_of}
use banknote_chain.Processor.Peripheral.{fill_channels, fits, is_bg, is_bt, is_br}
use banknote_chain.Processor.Peripheral.Refinement.{HasAmount}
use banknote_chain.Processor.StateTrie.Refinement.{IsRange}
use banknote_chain.Tx.{BanknoteTx}

abbrev digest : Bytes → Hash
digest bs = 8

abbrev pub mixed : List BanknoteTx
mixed = paid ++ noted

abbrev pub both_payments : List Payment
both_payments =
    record { source = 1; target = 2; amount = pos 30 }
    ∷ record { source = 2; target = 3; amount = pos 500 }
    ∷ []

pub all_read : AllRead map_lib account_gob two_ledgers start (λ i. start_accounts)
all_read zero h = (0, [], start_trie, refl, refl, refl, start_trie-Reads)
all_read (suc zero) h = (0, [], start_trie, refl, refl, refl, start_trie-Reads)
all_read (suc (suc i)) h = absurd (omega arith)

mixed_amounts : All HasAmount mixed
mixed_amounts = (
  (pos 30, refl),
  (
    (pos 500, refl),
    ((pos 9, refl), ((pos 9, refl), ((pos 9, refl), ((pos 9, refl), ((pos 9, refl), tt))))),
  ),
)

pub all_amounts : (i : ℕ) → i < 2 → HaveAllAmounts (phases_of (λ p. p) two_ledgers mixed i)
unfolding fill_channels
all_amounts i h =
    let own = All-keep HasAmount (applied 2 i) mixed mixed_amounts in
    (
      All-keep HasAmount is_bg (keep (applied 2 i) mixed) own,
      All-keep HasAmount is_bt (keep (applied 2 i) mixed) own,
      All-keep HasAmount is_br (keep (applied 2 i) mixed) own,
    )

pub all_places :
    (i : ℕ) → i < 2 → fits two_ledgers (fill_channels (keep (applied 2 i) mixed)) ≡ true
unfolding fill_channels ledger_of
all_places zero h = refl
all_places (suc zero) h = refl
all_places (suc (suc i)) h = absurd (omega arith)

pub whole_map-IsRange : IsRange (λ m. m)
whole_map-IsRange = record { once = λ m d. d; same = λ m a. refl }
