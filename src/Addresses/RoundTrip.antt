-- ===== src/Addresses/RoundTrip.antt =====
-- utils/utils_address.go, `UInt64ToBytes` and `BytesToUInt64`: a number comes back.
use banknote_chain.Base.{ℕ, ◌+◌, ◌*◌, ◌/◌, ◌%◌, ◌^◌, ◌<◌, ◌≡◌, refl, ◌∙◌, ap, arith, bit_or}
use banknote_chain.Base.Go.{u64_mod}
use banknote_chain.Base.Outcome.{ok}
use banknote_chain.Addresses.{uint64_to_bytes, bytes_to_uint64, bytes_from, uint64_from}
use banknote_chain.Addresses.Bits.{bit_or-add}

-- One round at the bit `k` adds the next byte to those below it.
add_byte :
    (num k : ℕ)
    → num % 2 ^ k < 2 ^ k
    → num / 2 ^ k % 256 * 2 ^ k % u64_mod ≡ num / 2 ^ k % 256 * 2 ^ k
    → num % 2 ^ k + num / 2 ^ k % 256 * 2 ^ k ≡ num % 2 ^ (k + 8)
    → bit_or (num % 2 ^ k) (num / 2 ^ k % 256 * 2 ^ k % u64_mod) ≡ num % 2 ^ (k + 8)
add_byte num k below fits more =
    ap (bit_or (num % 2 ^ k)) fits ∙ bit_or-add k (num % 2 ^ k) (num / 2 ^ k % 256) below ∙ more

-- `BytesToUInt64` takes back every number of 64 bits from the bytes that `UInt64ToBytes` makes.
pub bytes_to_uint64-uint64_to_bytes :
    (num : ℕ) → num < u64_mod → bytes_to_uint64 (uint64_to_bytes num) ≡ ok num
unfolding bytes_to_uint64 uint64_to_bytes bytes_from uint64_from
bytes_to_uint64-uint64_to_bytes num h =
    let start : 0 ≡ num % 2 ^ 0 = omega arith in
    let round_0 = add_byte num 0 (omega arith) (omega arith) (omega arith) in
    let round_8 = add_byte num 8 (omega arith) (omega arith) (omega arith) in
    let round_16 = add_byte num 16 (omega arith) (omega arith) (omega arith) in
    let round_24 = add_byte num 24 (omega arith) (omega arith) (omega arith) in
    let round_32 = add_byte num 32 (omega arith) (omega arith) (omega arith) in
    let round_40 = add_byte num 40 (omega arith) (omega arith) (omega arith) in
    let round_48 = add_byte num 48 (omega arith) (omega arith) (omega arith) in
    let round_56 = add_byte num 56 (omega arith) (omega arith) (omega arith) in
    let whole : num % 2 ^ 64 ≡ num = omega arith in
    ap (uint64_from 8 0 (uint64_to_bytes num)) start
    ∙ rw (round_0, round_8, round_16, round_24, round_32, round_40, round_48, round_56, whole) refl
