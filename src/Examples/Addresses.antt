-- ===== src/Examples/Addresses.antt =====
-- utils/utils_address.go at a concrete number.
use banknote_chain.Base.{◌≡◌, arith}
use banknote_chain.Base.Outcome.{ok}
use banknote_chain.Addresses.{uint64_to_bytes, bytes_to_uint64}
use banknote_chain.Addresses.RoundTrip.{bytes_to_uint64-uint64_to_bytes}

bytes_to_uint64-uint64_to_bytes_example :
    bytes_to_uint64 (uint64_to_bytes 0x123456789) ≡ ok 0x123456789
bytes_to_uint64-uint64_to_bytes_example = bytes_to_uint64-uint64_to_bytes 0x123456789 (omega arith)
