-- ===== src/Processor/Peripheral/Channels/Lanes.antt =====
-- The four channels and the types of their transactions.
use banknote_chain.Base.{
  ℕ, zero, suc, ◌+◌, ◌≡◌, refl, sym, ap, ◌∙◌, List, ◌∷◌, length, keep, Option, none, some, Bool,
  true, false, if◌then◌else◌, arith, ==_iff, fun_ext,
}
use banknote_chain.Processor.Peripheral.{is_bg, is_bs, is_bt, is_br}
use banknote_chain.Processor.Peripheral.Channels.{
  Lane, bg_lane, bs_lane, bt_lane, br_lane, rank, same_lane, set_lane, lane_of_type,
}
use banknote_chain.Tx.{BanknoteTx, BanknoteTxType, bg, bt, br, bs, nt}

unfoldable lane_at : ℕ → Lane
lane_at zero = bg_lane
lane_at (suc zero) = bs_lane
lane_at (suc (suc zero)) = bt_lane
lane_at (suc (suc (suc n))) = br_lane

lane_at-rank : (k : Lane) → lane_at (rank k) ≡ k
unfolding lane_at
lane_at-rank bg_lane = refl
lane_at-rank bs_lane = refl
lane_at-rank bt_lane = refl
lane_at-rank br_lane = refl

pub same_lane-eq : (k l : Lane) → same_lane k l ≡ true → k ≡ l
same_lane-eq k l h =
    sym (lane_at-rank k) ∙ ap lane_at ((==_iff (rank k) (rank l)).0 h) ∙ lane_at-rank l

-- The channel of a type is the one given.
abbrev pub is_in : Lane → Option Lane → Bool
is_in k none = false
is_in k (some l) = same_lane k l

abbrev pub is_lane : Lane → BanknoteTx → Bool
is_lane k tx = is_in k (lane_of_type tx.banknote_tx_type)

-- The first transaction is kept by its channel.
pub keep-is_lane :
    (k : Lane) (tx : BanknoteTx) (rest : List BanknoteTx) (lane : Option Lane)
    → lane ≡ lane_of_type tx.banknote_tx_type
    → (if is_in k lane then tx ∷ keep (is_lane k) rest else keep (is_lane k) rest)
      ≡ keep (is_lane k) (tx ∷ rest)
keep-is_lane k tx rest lane q =
    ap (λ o. if is_in k o then tx ∷ keep (is_lane k) rest else keep (is_lane k) rest) q

type-lanes :
    (type : BanknoteTxType)
    → (is_in bg_lane (lane_of_type type) ≡ elim type [ bg ↦ true | _ ↦ false ])
      × (is_in bs_lane (lane_of_type type) ≡ elim type [ bs ↦ true | _ ↦ false ])
      × (is_in bt_lane (lane_of_type type) ≡ elim type [ bt ↦ true | _ ↦ false ])
      × (is_in br_lane (lane_of_type type) ≡ elim type [ br ↦ true | _ ↦ false ])
unfolding lane_of_type
type-lanes bg = (refl, refl, refl, refl)
type-lanes bs = (refl, refl, refl, refl)
type-lanes bt = (refl, refl, refl, refl)
type-lanes br = (refl, refl, refl, refl)
type-lanes nt = (refl, refl, refl, refl)

-- What each channel gets of a list of transactions.
pub keep-lanes :
    (txs : List BanknoteTx)
    → (keep (is_lane bg_lane) txs ≡ keep is_bg txs)
      × (keep (is_lane bs_lane) txs ≡ keep is_bs txs)
      × (keep (is_lane bt_lane) txs ≡ keep is_bt txs)
      × (keep (is_lane br_lane) txs ≡ keep is_br txs)
keep-lanes txs = (
  ap (λ p. keep p txs) (fun_ext λ tx. (type-lanes tx.banknote_tx_type).0),
  ap (λ p. keep p txs) (fun_ext λ tx. (type-lanes tx.banknote_tx_type).1),
  ap (λ p. keep p txs) (fun_ext λ tx. (type-lanes tx.banknote_tx_type).2),
  ap (λ p. keep p txs) (fun_ext λ tx. (type-lanes tx.banknote_tx_type).3),
)

-- The transactions in all channels.
abbrev pub held : (Lane → List BanknoteTx) → ℕ
held f = length (f bg_lane) + length (f bs_lane) + length (f bt_lane) + length (f br_lane)

pub held-set_lane :
    (f : Lane → List BanknoteTx) (k : Lane) (txs : List BanknoteTx)
    → held (set_lane f k txs) + length (f k) ≡ held f + length txs
held-set_lane f bg_lane txs = omega arith
held-set_lane f bs_lane txs = omega arith
held-set_lane f bt_lane txs = omega arith
held-set_lane f br_lane txs = omega arith
