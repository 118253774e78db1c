-- ===== src/Processor/StateTrie/Netting.antt =====
-- The map that the records are collected in holds each account's net change.
use banknote_chain.Base.{
  ◌≡◌, refl, sym, ap, ◌∙◌, Bool, true, false, not, ◌&&◌, ◌||◌, List, [], ◌∷◌, Option, none, some,
  ◌==◌, if◌then◌else◌, arith, Bool-cases, Option-cases, inl, inr,
}
use banknote_chain.Base.Int.{ℤ, pos, ◌+ℤ◌, ◌-ℤ◌, int_laws}
use banknote_chain.Base.Outcome.{ok, Returns}
use banknote_chain.Base.Go.{Address}
use banknote_chain.Processor.StateTrie.{
  AccountModify, ModifySet, find, assign, modify_from, modify_to, collect,
}

-- Every record carries an amount.
abbrev pub HaveAmounts : List AccountModify → Type 0
HaveAmounts [] = Unit
HaveAmounts (r ∷ rs) = ((v : ℤ) × (r.amount ≡ some v)) × HaveAmounts rs

abbrev pub value_or_zero : Option ℤ → ℤ
value_or_zero none = pos 0
value_or_zero (some v) = v

abbrev names : Address → Address → Bool
names field a = not (field == 0) && a == field

-- What one record, and a list of records, does to the account `a`.
abbrev pub touches : Address → AccountModify → Bool
touches a r = names r.from a || names r.to a

abbrev pub delta : Address → AccountModify → ℤ
delta a r =
    (if names r.to a then value_or_zero r.amount else pos 0)
    -ℤ (if names r.from a then value_or_zero r.amount else pos 0)

unfoldable pub touched : Address → List AccountModify → Bool
touched a [] = false
touched a (r ∷ rs) = touches a r || touched a rs

unfoldable pub net : Address → List AccountModify → ℤ
net a [] = pos 0
net a (r ∷ rs) = delta a r +ℤ net a rs

abbrev pub Distinct : ModifySet → Type 0
Distinct [] = Unit
Distinct ((a, v) ∷ m) = (find a m ≡ none) × Distinct m

find-assign :
    (a b : Address) (v : ℤ) (m : ModifySet)
    → find b (assign a v m) ≡ (if b == a then some v else find b m)
find-assign a b v [] = ground arith
find-assign a b v (e ∷ m) = ground (arith, find-assign a b v m)

assign-Distinct : (a : Address) (v : ℤ) (m : ModifySet) → Distinct m → Distinct (assign a v m)
assign-Distinct a v [] d = (refl, tt)
assign-Distinct a v ((b, w) ∷ m) d = ground (arith, assign-Distinct a v m d.1, find-assign a b v m)

-- The two halves of a round, on a record with an amount.
abbrev lowered : AccountModify → ℤ → ModifySet → ModifySet
lowered r v m = if r.from == 0 then m else assign r.from (value_or_zero (find r.from m) -ℤ v) m

abbrev raised : AccountModify → ℤ → ModifySet → ModifySet
raised r v m = if r.to == 0 then m else assign r.to (value_or_zero (find r.to m) +ℤ v) m

modify_from-eq :
    (r : AccountModify) (v : ℤ) (m : ModifySet)
    → r.amount ≡ some v
    → modify_from r m ≡ ok (r, lowered r v m)
unfolding modify_from
modify_from-eq r v m e = elim (Option-cases (find r.from m)) [
  | inl new ↦
      let same : record r { amount = some v } ≡ r = (λ i. record r { amount = sym e i }) in
      rw (new, e) (elim (Bool-cases (r.from == 0)) [ inl z ↦ rw z | inr z ↦ rw (z, same) ])
  | inr (old, seen) ↦ rw (seen, e) (elim (Bool-cases (r.from == 0)) [ inl z ↦ rw z | inr z ↦ rw z ])
]

modify_to-eq :
    (r : AccountModify) (v : ℤ) (m : ModifySet)
    → r.amount ≡ some v
    → modify_to r m ≡ ok (raised r v m)
unfolding modify_to
modify_to-eq r v m e = elim (Option-cases (find r.to m)) [
  | inl new ↦ rw (new, e) (elim (Bool-cases (r.to == 0)) [ inl z ↦ rw z | inr z ↦ rw z ])
  | inr (old, seen) ↦ rw (seen, e) (elim (Bool-cases (r.to == 0)) [ inl z ↦ rw z | inr z ↦ rw z ])
]

-- What is found after a round.
abbrev pub shifted : Option ℤ → Bool → ℤ → Option ℤ
shifted before named change = if named then some (value_or_zero before +ℤ change) else before

find-lowered :
    (r : AccountModify) (v : ℤ) (m : ModifySet) (a : Address)
    → find a (lowered r v m)
      ≡ (if names r.from a then some (value_or_zero (find a m) -ℤ v) else find a m)
find-lowered r v m a = ground (arith, find-assign r.from a (value_or_zero (find r.from m) -ℤ v) m)

find-raised :
    (r : AccountModify) (v : ℤ) (m : ModifySet) (a : Address)
    → find a (raised r v m)
      ≡ (if names r.to a then some (value_or_zero (find a m) +ℤ v) else find a m)
find-raised r v m a = ground (arith, find-assign r.to a (value_or_zero (find r.to m) +ℤ v) m)

round-find :
    (r : AccountModify) (v : ℤ) (m : ModifySet) (a : Address)
    → r.amount ≡ some v
    → find a (raised r v (lowered r v m)) ≡ shifted (find a m) (touches a r) (delta a r)
round-find r v m a e =
    rw (find-raised r v (lowered r v m) a, find-lowered r v m a, e)
      (cases (names r.from a) (names r.to a) (find a m))
  where
    cases :
        (out into : Bool) (o : Option ℤ)
        → (if into
            then some (value_or_zero (if out then some (value_or_zero o -ℤ v) else o) +ℤ v)
            else (if out then some (value_or_zero o -ℤ v) else o))
          ≡ shifted o (out || into) ((if into then v else pos 0) -ℤ (if out then v else pos 0))
    cases true true o = ap some (omega int_laws)
    cases true false o = ap some (omega int_laws)
    cases false true o = ap some (omega int_laws)
    cases false false o = refl

round-Distinct :
    (r : AccountModify) (v : ℤ) (m : ModifySet) → Distinct m → Distinct (raised r v (lowered r v m))
round-Distinct r v m d = ground (
  arith,
  assign-Distinct r.from (value_or_zero (find r.from m) -ℤ v) m d,
  assign-Distinct r.to (value_or_zero (find r.to (lowered r v m)) +ℤ v) (lowered r v m),
)

shifted_again :
    (o : Option ℤ) (b c : Bool) (x y : ℤ)
    → (b ≡ false → x ≡ pos 0)
    → (c ≡ false → y ≡ pos 0)
    → shifted (shifted o b x) c y ≡ shifted o (b || c) (x +ℤ y)
shifted_again o true true x y hx hy = ap some (omega int_laws)
shifted_again o true false x y hx hy = ap some (rw (hy refl) (omega int_laws))
shifted_again o false true x y hx hy = ap some (rw (hx refl) (omega int_laws))
shifted_again o false false x y hx hy = refl

or-eq-false : (x y : Bool) → (x || y) ≡ false → (x ≡ false) × (y ≡ false)
or-eq-false x y h = ground arith

untouched-delta : (a : Address) (r : AccountModify) → touches a r ≡ false → delta a r ≡ pos 0
untouched-delta a r h =
    let (out, into) = or-eq-false (names r.from a) (names r.to a) h in
    rw (out, into) (omega int_laws)

untouched-net : (a : Address) (rs : List AccountModify) → touched a rs ≡ false → net a rs ≡ pos 0
unfolding touched net
untouched-net a [] h = refl
untouched-net a (r ∷ rs) h =
    let (now, later) = or-eq-false (touches a r) (touched a rs) h in
    rw (untouched-delta a r now, untouched-net a rs later) (omega int_laws)

-- Collecting never faults when every record has an amount; the map then has one entry for an
-- account, and shifts each account that a record names by the sum of what the records say.
pub collect-net :
    (rs : List AccountModify) (m : ModifySet)
    → HaveAmounts rs
    → Distinct m
    → Returns (collect rs m) λ m'.
      Distinct m' × ((a : Address) → find a m' ≡ shifted (find a m) (touched a rs) (net a rs))
unfolding collect touched net
collect-net [] m h d = (m, refl, (d, λ a. refl))
collect-net (r ∷ rs) m ((v, e), rest) d =
    let m₁ = raised r v (lowered r v m) in
    let (m', run, (d', finds)) = collect-net rs m₁ rest (round-Distinct r v m d) in
    (
      m',
      rw (modify_from-eq r v m e, modify_to-eq r v (lowered r v m) e) run,
      (
        d',
        λ a.
            finds a
            ∙ rw (round-find r v m a e) (
                shifted_again (find a m) (touches a r) (touched a rs) (delta a r) (net a rs)
                  (untouched-delta a r) (untouched-net a rs)),
      ),
    )
