-- ===== src/Addresses/Random.antt =====
-- utils/utils_address.go: random texts, addresses and hashes are always made.
use banknote_chain.Base.{
  ℕ, zero, suc, ◌<◌, ◌%◌, ◌≡◌, refl, List, [], ◌∷◌, get_elem?, length, some, arith, ap,
}
use banknote_chain.Base.Go.{Address, Bytes, Hash}
use banknote_chain.Base.Outcome.{Returns}
use banknote_chain.Addresses.{charset, random_string, random_address, random_hash}

pub get_elem?-lt {ℓ} :
    {A : Type ℓ} (xs : List A) (i : ℕ) → i < length xs → (x : A) × (get_elem? xs i ≡ some x)
get_elem?-lt [] i h = absurd (omega arith)
get_elem?-lt (x ∷ xs) zero h = (x, refl)
get_elem?-lt (x ∷ xs) (suc i) h = get_elem?-lt xs i (omega arith)

-- Whatever is drawn, a text of as many characters is made.
pub random_string-length :
    (draws : List ℕ) → Returns (random_string draws) λ text. length text ≡ length draws
unfolding random_string
random_string-length [] = ([], refl, refl)
random_string-length (draw ∷ draws) =
    let (text, run, len) = random_string-length draws in
    let (c, found) = get_elem?-lt charset (draw % 16) (omega arith) in
    (c ∷ text, rw (found, run) refl, ap suc len)

pub random_address-returns :
    (hex_to_address : Bytes → Address) (draws : List ℕ)
    → Returns (random_address hex_to_address draws) λ _. Unit {0}
unfolding random_address
random_address-returns hex_to_address draws =
    let (text, run, _) = random_string-length draws in (hex_to_address text, rw run refl, tt)

pub random_hash-returns :
    (hex_to_hash : Bytes → Hash) (draws : List ℕ)
    → Returns (random_hash hex_to_hash draws) λ _. Unit {0}
unfolding random_hash
random_hash-returns hex_to_hash draws =
    let (text, run, _) = random_string-length draws in (hex_to_hash text, rw run refl, tt)
