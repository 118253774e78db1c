-- ===== src/Addresses/Bits.antt =====
-- The `or` of a number with a multiple of a power of two above it.
use Prim.Native.Nat.{max, digits, bit_or-bitwise}
use native.Mathlib.Nat.{pow-suc}
use banknote_chain.Base.{
  ap, ℕ, zero, suc, ◌+◌, ◌*◌, ◌/◌, ◌%◌, ◌^◌, ◌≤◌, ◌<◌, ◌≡◌, refl, ◌∙◌, arith, bit_or,
}

zero-bit_or : (b : ℕ) → bit_or 0 b ≡ b
zero-bit_or b = bit_or-bitwise 0 b

-- What the native operation stands for, on any amount of fuel.
abbrev fueled : ℕ → ℕ → ℕ → ℕ
fueled fuel x y = digits (λ rest. rest) max fuel x y

-- Fuel beyond the first number changes nothing.
fueled-more : (fuel more x y : ℕ) → x ≤ fuel → fuel ≤ more → fueled more x y ≡ fueled fuel x y
fueled-more fuel zero x y h le = let none_left : fuel ≡ 0 = omega arith in rw none_left refl
fueled-more zero (suc more) zero y h le = refl
fueled-more zero (suc more) (suc x) y h le = absurd (omega arith)
fueled-more (suc fuel) (suc more) zero y h le = refl
fueled-more (suc fuel) (suc more) (suc x) y h le =
    rw (fueled-more fuel more (suc x / 2) (y / 2) (omega arith) (omega arith)) refl

fueled-enough : (fuel x y : ℕ) → x ≤ fuel → fueled fuel x y ≡ fueled x x y
fueled-enough fuel x y h = fueled-more x fuel x y (omega arith) h

low_bit : (x y : ℕ) → bit_or x y ≡ max (x % 2) (y % 2) + 2 * bit_or (x / 2) (y / 2)
low_bit zero y = rw (zero-bit_or y, zero-bit_or (y / 2)) (omega arith)
low_bit (suc x) y =
    let halved = fueled-enough x (suc x / 2) (y / 2) (omega arith) in
    rw (bit_or-bitwise (suc x) y, bit_or-bitwise (suc x / 2) (y / 2)) (omega (arith, halved))

mul-two-pow-suc : (b k : ℕ) → b * 2 ^ suc k ≡ 2 * (b * 2 ^ k)
mul-two-pow-suc b k = omega (arith, ap (λ (t : ℕ). b * t) (pow-suc 2 k))

-- No bits meet where the first number lies below the power.
pub bit_or-add : (k a b : ℕ) → a < 2 ^ k → bit_or a (b * 2 ^ k) ≡ a + b * 2 ^ k
bit_or-add zero a b h = let z : a ≡ 0 = ground arith in rw z (zero-bit_or (b * 1) ∙ omega arith)
bit_or-add (suc k) a b h = ground (
  arith,
  low_bit a (b * 2 ^ suc k),
  mul-two-pow-suc b k,
  pow-suc 2 k,
  bit_or-add k (a / 2) b (omega (arith, pow-suc 2 k)),
)
