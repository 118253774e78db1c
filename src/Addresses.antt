-- ===== src/Addresses.antt =====
-- utils/utils_address.go: uint64 numbers as bytes, and random texts, addresses and hashes.
pub mod Bits
pub mod RoundTrip
pub mod Random
use banknote_chain.Base.{
  ℕ, zero, suc, ◌+◌, ◌*◌, ◌/◌, ◌%◌, ◌^◌, List, [], ◌∷◌, get_elem?, bit_or, length, ◌==◌,
  if◌then◌else◌, map, Option, none, some,
}
use banknote_chain.Base.Go.{Address, Bytes, Hash, u64_mod}
use banknote_chain.Base.Outcome.{
  Outcome, ok, panic, invalid_argument, index_out_of_range, require, ◌>>=◌,
}

-- The rounds of `UInt64ToBytes` from `i` on, `rounds` of them: `buf[i] = byte(num >> (i * 8))`.
unfoldable pub bytes_from : ℕ → ℕ → ℕ → Bytes
bytes_from zero i num = []
bytes_from (suc rounds) i num = num / 2 ^ (i * 8) % 256 ∷ bytes_from rounds (i + 1) num

-- The least significant byte stands first.
unfoldable pub uint64_to_bytes : ℕ → Bytes
uint64_to_bytes num = bytes_from 8 0 num

-- `num |= uint64(buf[i]) << (i * 8)`
unfoldable pub uint64_from : ℕ → ℕ → Bytes → ℕ → Outcome ℕ
uint64_from zero i buf num = ok num
uint64_from (suc rounds) i buf num = require index_out_of_range (get_elem? buf i) >>= λ b.
    uint64_from rounds (i + 1) buf (bit_or num (b * 2 ^ (i * 8) % u64_mod))

unfoldable pub bytes_to_uint64 : Bytes → Outcome ℕ
bytes_to_uint64 buf = uint64_from 8 0 buf 0

-- `charset`: the digits and the letters from a to f.
abbrev pub charset : Bytes
charset = 48 ∷ 49 ∷ 50 ∷ 51 ∷ 52 ∷ 53 ∷ 54 ∷ 55 ∷ 56 ∷ 57 ∷ 97 ∷ 98 ∷ 99 ∷ 100 ∷ 101 ∷ 102 ∷ []

-- `rand.Intn(n)`, which panics where there is nothing to choose from; `draw` is what the source of
-- randomness gives.
abbrev pub intn : ℕ → ℕ → Outcome ℕ
intn n draw = if n == 0 then panic invalid_argument else ok (draw % n)

-- `RandomString` and `RandomBytes`, with a draw for each round.
unfoldable pub random_string : List ℕ → Outcome Bytes
random_string [] = ok []
random_string (draw ∷ draws) = do
  n ← intn (length charset) draw
  c ← require index_out_of_range (get_elem? charset n)
  rest ← random_string draws
  ok (c ∷ rest)

-- `RandomAddress` and `RandomHash`, of 40 and of 64 draws, over go-ethereum's `HexToAddress` and
-- `HexToHash`.
unfoldable pub random_address : (Bytes → Address) → List ℕ → Outcome Address
random_address hex_to_address draws = random_string draws >>= λ text. ok (hex_to_address text)

unfoldable pub random_hash : (Bytes → Hash) → List ℕ → Outcome Hash
random_hash hex_to_hash draws = random_string draws >>= λ text. ok (hex_to_hash text)
