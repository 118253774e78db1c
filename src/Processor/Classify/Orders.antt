-- ===== src/Processor/Classify/Orders.antt =====
-- The accounts of a peripheral ledger do not depend on the order in which its transactions are taken.
use mathlib.Core.List
use mathlib.Core.List.{Permᴰ}
use mathlib.Core.List.Perm
use mathlib.Core.Logic.{∥∥₁_elim}
use banknote_chain.Base.{
  ℕ, suc, length, ◌≡◌, refl, sym, ap, ap₂, ◌∙◌, fun_ext, List, [], ◌∷◌, Bool, true, ◌||◌, Perm,
  keep, All, Bool-cases, inl, inr, arith, if◌then◌else◌, Option, some, none,
}
use banknote_chain.Base.Go.{Address}
use banknote_chain.Base.Int.{ℤ, ◌+ℤ◌, int_laws}
use banknote_chain.Config.{Config}
use banknote_chain.Ledger.View.{Accounts}
use banknote_chain.Processor.Peripheral.{Phases, fill_channels, fits, is_bg, is_bs, is_bt, is_br}
use banknote_chain.Processor.Peripheral.Steps.{bg_record, br_record}
use banknote_chain.Processor.Peripheral.Whole.{sent}
use banknote_chain.Processor.StateTrie.{AccountModify}
use banknote_chain.Processor.StateTrie.Netting.{touches, delta, touched, net}
use banknote_chain.Processor.StateTrie.Refinement.{netted}
use banknote_chain.Tx.{BanknoteTx}

ℕ_set : IsSet ℕ
ℕ_set = hlevel

module _ {ℓ} {A : Type ℓ} (p : A → Bool) where
  abbrev chosen : A → Option A
  chosen x = if p x then some x else none

  keep-filter_map : (xs : List A) → List.filter_map chosen xs ≡ keep p xs
  unfolding List.filter_map
  keep-filter_map [] = refl
  keep-filter_map (x ∷ xs) = elim (Bool-cases (p x)) [
    | inl h ↦ rw (h, keep-filter_map xs) refl
    | inr h ↦ rw (h, keep-filter_map xs) refl
  ]

  pub keep-perm : {xs ys : List A} → Perm xs ys → Perm (keep p xs) (keep p ys)
  keep-perm {xs} {ys} same =
      rw (← keep-filter_map xs, ← keep-filter_map ys) (Perm.filter_map chosen same)

module _ {ℓ} {A : Type ℓ} where
  length-Permᴰ : {xs ys : List A} → Permᴰ xs ys → length xs ≡ length ys
  length-Permᴰ Permᴰ.nil = refl
  length-Permᴰ (Permᴰ.cons e d) = ap suc (length-Permᴰ d)
  length-Permᴰ (Permᴰ.swap e f) = refl
  length-Permᴰ (Permᴰ.trans d e) = length-Permᴰ d ∙ length-Permᴰ e

  length-perm : {xs ys : List A} → Perm xs ys → length xs ≡ length ys
  length-perm p = ∥∥₁_elim p (ℕ_set _ _) length-Permᴰ

-- Room in the channels does not depend on the order of the transactions.
pub fits-perm :
    (config : Config) (xs ys : List BanknoteTx)
    → Perm xs ys
    → fits config (fill_channels ys) ≡ true
    → fits config (fill_channels xs) ≡ true
unfolding fill_channels
fits-perm config xs ys p h =
    rw
      (
        length-perm (keep-perm is_bs p),
        length-perm (keep-perm is_bt p),
        length-perm (keep-perm is_br p),
      )
      h

module _ (a : Address) where
  net-Permᴰ : {rs qs : List AccountModify} → Permᴰ rs qs → net a rs ≡ net a qs
  unfolding net
  net-Permᴰ Permᴰ.nil = refl
  net-Permᴰ (Permᴰ.cons e d) = ap₂ (λ r n. delta a r +ℤ n) e (net-Permᴰ d)
  net-Permᴰ (Permᴰ.swap e f) = rw (e, f) (omega int_laws)
  net-Permᴰ (Permᴰ.trans d e) = net-Permᴰ d ∙ net-Permᴰ e

  touched-Permᴰ : {rs qs : List AccountModify} → Permᴰ rs qs → touched a rs ≡ touched a qs
  unfolding touched
  touched-Permᴰ Permᴰ.nil = refl
  touched-Permᴰ (Permᴰ.cons e d) = ap₂ (λ r n. touches a r || n) e (touched-Permᴰ d)
  touched-Permᴰ (Permᴰ.swap e f) = rw (e, f) (ground arith)
  touched-Permᴰ (Permᴰ.trans d e) = touched-Permᴰ d ∙ touched-Permᴰ e

ℤ_set : IsSet ℤ
ℤ_set = hlevel

Bool_set : IsSet Bool
Bool_set = hlevel

-- The same records in another order change the accounts alike.
pub netted-perm :
    (f : Accounts) (rs qs : List AccountModify) → Perm rs qs → netted f rs ≡ netted f qs
netted-perm f rs qs p = fun_ext (λ a.
    let same : net a rs ≡ net a qs = ∥∥₁_elim p (ℤ_set _ _) (net-Permᴰ a) in
    let named : touched a rs ≡ touched a qs = ∥∥₁_elim p (Bool_set _ _) (touched-Permᴰ a) in
    rw (named, same) refl)

-- The workers take each transaction of a phase once.
pub record IsSchedule (schedule : Phases → Phases) : Type 0 where
  pub bg_once : (p : Phases) → Perm (schedule p).bg_txs p.bg_txs
  pub bs_once : (p : Phases) → Perm (schedule p).bs_txs p.bs_txs
  pub bt_once : (p : Phases) → Perm (schedule p).bt_txs p.bt_txs
  pub br_once : (p : Phases) → Perm (schedule p).br_txs p.br_txs

-- What two schedules send for the same transactions, come in any order.
pub sent-perm :
    (schedule other : Phases → Phases) (xs ys : List BanknoteTx)
    → IsSchedule schedule
    → IsSchedule other
    → Perm xs ys
    → Perm (sent (schedule (fill_channels xs))) (sent (other (fill_channels ys)))
unfolding fill_channels
sent-perm schedule other xs ys s o p =
    let px = fill_channels xs in
    let py = fill_channels ys in
    Perm.append
      (Perm.map bg_record
        (Perm.trans (s.bg_once px) (Perm.trans (keep-perm is_bg p) (Perm.symm (o.bg_once py)))))
      (Perm.map br_record
        (Perm.trans (s.br_once px) (Perm.trans (keep-perm is_br p) (Perm.symm (o.br_once py)))))

module _ {ℓ} {A : Type ℓ} (b : A → Bool) where
  All-Permᴰ : {xs ys : List A} → Permᴰ xs ys → All (λ x. b x ≡ true) xs → All (λ x. b x ≡ true) ys
  All-Permᴰ Permᴰ.nil h = tt
  All-Permᴰ (Permᴰ.cons e d) h = (ap b (sym e) ∙ h.0, All-Permᴰ d h.1)
  All-Permᴰ (Permᴰ.swap e f) h = (ap b (sym f) ∙ h.1.0, (ap b (sym e) ∙ h.0, h.1.1))
  All-Permᴰ (Permᴰ.trans d e) h = All-Permᴰ e (All-Permᴰ d h)

  All-IsProp : (xs : List A) → IsProp (All (λ x. b x ≡ true) xs)
  All-IsProp [] = hlevel
  All-IsProp (x ∷ xs) = hlevel (All-IsProp xs)

  pub All-perm : {xs ys : List A} → Perm xs ys → All (λ x. b x ≡ true) xs → All (λ x. b x ≡ true) ys
  All-perm {xs} {ys} p h = ∥∥₁_elim p (All-IsProp ys) (λ d. All-Permᴰ d h)
