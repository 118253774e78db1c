-- ===== src/Chain/Roots.antt =====
-- Hashes as bytes in a header, and back.
use native.Mathlib.Numerals.{unary_clauses}
use banknote_chain.Base.{
  ℕ, zero, suc, ◌+◌, ◌*◌, ◌/◌, ◌%◌, ◌^◌, ◌<◌, ◌≤◌, ◌≡◌, refl, ap, ◌∙◌, [], ◌∷◌, ◌++◌, arith,
}
use banknote_chain.Base.Go.{Hash, Bytes}
use banknote_chain.Block.{be_bytes, hash_bytes}
use banknote_chain.Chain.{of_bytes, bytes_to_hash}

of_bytes-append : (n : ℕ) (bs : Bytes) (b : ℕ) → of_bytes n (bs ++ b ∷ []) ≡ of_bytes n bs * 256 + b
of_bytes-append n [] b = refl
of_bytes-append n (x ∷ bs) b = of_bytes-append (n * 256 + x) bs b

shorter : (h m : ℕ) → h < 256 * m → h / 256 < m
shorter h m p = omega arith

rejoin : (h : ℕ) → h / 256 * 256 + h % 256 ≡ h
rejoin h = omega arith

power : (k h : ℕ) → h < 256 ^ suc k → h < 256 * 256 ^ k
power k h p = let q : suc h ≤ 256 ^ k * 256 = simp unary_clauses at p in omega arith

keeps : (h : ℕ) → h < 2 ^ 256 → h % 2 ^ 256 ≡ h
keeps h p = omega arith

of_bytes-be_bytes : (k h : ℕ) → h < 256 ^ k → of_bytes 0 (be_bytes k h) ≡ h
unfolding be_bytes
of_bytes-be_bytes zero h p = omega arith
of_bytes-be_bytes (suc k) h p =
    of_bytes-append 0 (be_bytes k (h / 256)) (h % 256)
    ∙ ap (λ z. z * 256 + h % 256)
        (of_bytes-be_bytes k (h / 256) (shorter h (256 ^ k) (power k h p)))
    ∙ rejoin h

-- A 32-byte hash that is stored in a header as bytes is read back as it was.
pub bytes_to_hash-hash_bytes : (h : Hash) → h < 2 ^ 256 → bytes_to_hash (hash_bytes h) ≡ h
unfolding bytes_to_hash
bytes_to_hash-hash_bytes h p = ap (λ z. z % 2 ^ 256) (of_bytes-be_bytes 32 h p) ∙ keeps h p
