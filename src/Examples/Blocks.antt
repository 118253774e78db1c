-- ===== src/Examples/Blocks.antt =====
-- Blocks at concrete inputs: two normal transactions and five of ledger 0 with one that recycles.
use mathlib.Core.List.{Mem, mem-cons, not-mem-nil}
use mathlib.Core.List.Perm
use mathlib.Core.Logic.Or
use banknote_chain.Base.{
  ℕ, Perm, sym, ap, ◌∙◌, some, List, [], ◌∷◌, ◌++◌, ◌≡◌, ◌<◌, ◌%◌, ◌+◌, arith, length, get_elem?,
  keep,
}
use banknote_chain.Base.Go.{Hash, Bytes, u64_mod}
use banknote_chain.Base.Int.{pos}
use banknote_chain.Base.Outcome.{Returns}
use banknote_chain.Block.{new_banknote_block}
use banknote_chain.Block.Count.{size, new_banknote_block-counts}
use banknote_chain.Examples.Ledgers.Inputs.{tx_of, paid, noted}
use banknote_chain.Processor.Classify.{is_nt, classify, seal_block, replayed}
use banknote_chain.Processor.Classify.Laws.{listed, applied, classify-sorts}
use banknote_chain.Processor.Classify.Replay.{seal_block-replays, replayed-recycles_none}
use banknote_chain.Processor.Peripheral.{is_br}
use banknote_chain.Tx.{BanknoteTx, bt}
use banknote_chain.Tx.Sort.{sort_banknote_txs}
use banknote_chain.Tx.Sort.Laws.{
  IsDescending, HashesIdentify, sort_banknote_txs-sorts, sort_banknote_txs_unique,
}

abbrev summed : Bytes → Hash
summed [] = 0
summed (b ∷ bs) = b + summed bs

abbrev both : List BanknoteTx
both = paid ++ noted

classify-sorts_example : Returns (classify 2 both) (λ c.
    (c.normal_txs ≡ keep is_nt both)
    × (length c.block_per_ledger ≡ 2)
    × (length c.actions_per_ledger ≡ 2)
    × ((i : ℕ)
        → i < 2
        → (get_elem? c.block_per_ledger i ≡ some (keep (listed 2 i) both))
          × (get_elem? c.actions_per_ledger i ≡ some (keep (applied 2 i) both))))
classify-sorts_example = classify-sorts 2 both (omega arith)

seal_block-replays_example : Returns (classify 2 both) (λ c.
    Returns (seal_block summed 2 1 c 0 (0 ∷ 0 ∷ [])) (λ b. Returns (classify 2 (replayed b)) (λ c'.
      (c'.normal_txs ≡ b.c_ledger)
      × (c'.block_per_ledger ≡ b.p_ledgers)
      × (c'.actions_per_ledger ≡ b.p_ledgers))))
seal_block-replays_example =
    seal_block-replays summed 2 1 both 0 (0 ∷ 0 ∷ []) (omega arith) (omega arith)

replayed-recycles_none_example : Returns (classify 2 both) (λ c.
    Returns (seal_block summed 2 1 c 0 (0 ∷ 0 ∷ [])) (λ b.
      (keep is_br (replayed b) ≡ [])
      × ((i : ℕ) → i < 2 → get_elem? c.actions_per_ledger i ≡ some (keep (applied 2 i) both))))
replayed-recycles_none_example =
    replayed-recycles_none summed 2 1 both 0 (0 ∷ 0 ∷ []) (omega arith) (omega arith)

new_banknote_block-counts_example :
    Returns (new_banknote_block summed 2 (noted ∷ [] ∷ []) paid 7 5 6 (3 ∷ 4 ∷ [])) (λ b.
      (b.banknote_tx_count ≡ (length paid + size (noted ∷ [] ∷ [])) % u64_mod)
      × (b.block_number ≡ 7)
      × (b.c_ledger ≡ paid)
      × (b.p_ledgers ≡ noted ∷ [] ∷ [])
      × (b.cledger_state_root ≡ 6)
      × (b.pledger_state_roots ≡ 3 ∷ 4 ∷ []))
new_banknote_block-counts_example =
    new_banknote_block-counts summed (noted ∷ [] ∷ []) paid 7 5 6 (3 ∷ 4 ∷ []) (omega arith)

abbrev low : BanknoteTx
low = tx_of bt 3 1 2 50 (pos 1)

abbrev high : BanknoteTx
high = tx_of bt 8 2 1 51 (pos 1)

sort_banknote_txs-sorts_example :
    Perm (sort_banknote_txs (low ∷ high ∷ [])) (low ∷ high ∷ [])
    × IsDescending (sort_banknote_txs (low ∷ high ∷ []))
sort_banknote_txs-sorts_example = sort_banknote_txs-sorts (low ∷ high ∷ [])

BanknoteTx-set : IsSet BanknoteTx
BanknoteTx-set = hlevel

either :
    (P : BanknoteTx → Type 0) (x : BanknoteTx)
    → IsProp (P x)
    → ((x ≡ low) → P x)
    → ((x ≡ high) → P x)
    → Mem x (low ∷ high ∷ [])
    → P x
either P x prop l h m =
    Or.elim prop (mem-cons.0 m) l
      (λ m'. Or.elim prop (mem-cons.0 m') h (λ none_left. absurd (not-mem-nil none_left)))

-- One of the two, by its hash.
as_low : (y : BanknoteTx) → Mem y (low ∷ high ∷ []) → y.tx_hash ≡ 3 → low ≡ y
as_low y m e =
    either (λ z. low ≡ z) y (BanknoteTx-set low y) (λ l. sym l)
      (λ h. let h' = ap (λ z. z.tx_hash) h in absurd (omega arith)) m

as_high : (y : BanknoteTx) → Mem y (low ∷ high ∷ []) → y.tx_hash ≡ 8 → high ≡ y
as_high y m e =
    either (λ z. high ≡ z) y (BanknoteTx-set high y)
      (λ l. let l' = ap (λ z. z.tx_hash) l in absurd (omega arith)) (λ h. sym h) m

identified : HashesIdentify (low ∷ high ∷ [])
identified x y mx my e =
    either (λ z. z ≡ y) x (BanknoteTx-set x y)
      (λ l. l ∙ as_low y my (sym e ∙ ap (λ z. z.tx_hash) l))
      (λ h. h ∙ as_high y my (sym e ∙ ap (λ z. z.tx_hash) h)) mx

sort_banknote_txs_unique_example : sort_banknote_txs (low ∷ high ∷ []) ≡ high ∷ low ∷ []
sort_banknote_txs_unique_example =
    sort_banknote_txs_unique (low ∷ high ∷ []) (high ∷ low ∷ []) identified (Perm.swap low high [])
      ((omega arith, tt), (tt, tt))
